-- ===== src/Scrapper/Valkey.antt =====
-- The cache of the subscriptions, internal/scrapper/infrastructure/repository/valkey: dto.go and client.go.
-- The JSON library is an argument, and so is what the server answers.
use linktracker_eng.Prelude.{
  ℕ, ◌≡◌, refl, ap, Bool, true, false, List, [], ◌∷◌, map, Option, none, some, if◌then◌else◌, Text,
  fault, Result, ok, err, cache_failure,
}
use linktracker_eng.Scrapper.Errors.{Sentinel}
use linktracker_eng.Scrapper.Tables.{LinkSubscription, new_link_subscription, set_last_update}

pub record LinkDto : Type 0 where
  pub user_id : ℕ
  pub res_id : ℕ
  pub link : Text
  pub tags : List Text
  pub last_update : ℕ

abbrev pub dto_of : LinkSubscription → LinkDto
dto_of l = record {
  user_id = l.user_id;
  res_id = l.res_id;
  link = l.link;
  tags = l.tags;
  last_update = l.last_update;
}

abbrev pub of_dto : LinkDto → LinkSubscription
of_dto d = set_last_update d.last_update (new_link_subscription d.user_id d.res_id d.link d.tags)

-- What the server answers to a GET.
pub data Reply : Type 0 where
  failed nil : Reply
  value : Option Text → Reply  -- none for a value that is no text

-- The JSON library; none for an error.
module _ (marshal : List LinkDto → Option Text) (unmarshal : Text → Option (List LinkDto)) where
  -- Encode
  unfoldable pub encode : List LinkSubscription → Option Text
  encode links = marshal (map dto_of links)

  abbrev decoded : Option (List LinkDto) → Option (List LinkSubscription)
  decoded none = none
  decoded (some dtos) = some (map of_dto dtos)

  -- Decode
  unfoldable pub decode : Text → Option (List LinkSubscription)
  unfolding new_link_subscription set_last_update
  decode data_ = decoded (unmarshal data_)

  abbrev found : Option (List LinkSubscription) → Result Sentinel (List LinkSubscription × Bool)
  found none = err (fault cache_failure)
  found (some links) = ok (links, true)

  -- Get, which returns whether there is a value
  unfoldable pub get : Reply → Result Sentinel (List LinkSubscription × Bool)
  unfolding decode
  get failed = err (fault cache_failure)
  get nil = ok ([], false)
  get (value none) = err (fault cache_failure)
  get (value (some data_)) = found (decode data_)

  abbrev sent : Option Text → (Text → Bool) → Result Sentinel (Unit {0})
  sent none accepts = err (fault cache_failure)
  sent (some data_) accepts = if accepts data_ then ok tt else err (fault cache_failure)

  -- Set, where the server takes a value or does not
  unfoldable pub set : List LinkSubscription → (Text → Bool) → Result Sentinel (Unit {0})
  unfolding encode
  set links accepts = sent (encode links) accepts

  of_dto-dto_of : (links : List LinkSubscription) → map of_dto (map dto_of links) ≡ links
  unfolding new_link_subscription set_last_update
  of_dto-dto_of [] = refl
  of_dto-dto_of (l ∷ links) = ap (λ rest. l ∷ rest) (of_dto-dto_of links)

  -- The subscriptions that were set are got, if the JSON library decodes what it encodes.
  pub get-encode :
      (links : List LinkSubscription) (data_ : Text)
      → ((dtos : List LinkDto) → marshal dtos ≡ some data_ → unmarshal data_ ≡ some dtos)
      → encode links ≡ some data_
      → get (value (some data_)) ≡ ok (links, true)
  unfolding get decode encode
  get-encode links data_ json e = rw (json (map dto_of links) e, of_dto-dto_of links) refl
