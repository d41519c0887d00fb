-- ===== src/Scrapper/BotClients/Laws.antt =====
-- An update from the scrapper's client to the chats.
use linktracker_eng.Prelude.{
  ℕ, suc, ◌+◌, ◌≡◌, refl, ap, ◌∙◌, Bool, Bool-cases, inl, inr, true, false, ◌↔◌, List, [], ◌∷◌,
  ◌++◌, map, none, some, Text, ltb, if◌then◌else◌, is_nil, length, arith,
}
use mathlib.Core.List.{append_assoc, append-nil}
use linktracker_eng.Db.{failing, later}
use linktracker_eng.Scrapper.Tables.{ResourceShot}
use linktracker_eng.Scrapper.BotClients.{update_of, http_send_update, grpc_send_update}
use linktracker_eng.Bot.Relay.{Telegram}
use linktracker_eng.Bot.Servers.{send_all, post_updates, post_update, sent_answer, sent_reply}

-- The chats that Telegram takes a message for, by its script.
abbrev pub reached : List ℕ → List Bool → List ℕ
reached [] faults = []
reached (c ∷ cs) faults =
    let rest = reached cs (later faults) in if failing faults then rest else c ∷ rest

abbrev missed : List ℕ → List Bool → ℕ
missed [] faults = 0
missed (c ∷ cs) faults =
    let rest = missed cs (later faults) in if failing faults then suc rest else rest

reached_or_missed :
    (chats : List ℕ) (faults : List Bool)
    → length (reached chats faults) + missed chats faults ≡ length chats
reached_or_missed [] faults = refl
reached_or_missed (c ∷ cs) faults = ground (arith, reached_or_missed cs (later faults))

none_missed :
    (chats : List ℕ) (faults : List Bool) → missed chats faults ≡ 0 → reached chats faults ≡ chats
none_missed [] faults h = refl
none_missed (c ∷ cs) faults h = elim (Bool-cases (failing faults)) [
  | inl f ↦ absurd (ground arith)
  | inr f ↦ rw f (ap (λ l. c ∷ l) (none_missed cs (later faults) (ground arith)))
]

module _ (text : Text) where
  abbrev messages : List ℕ → List (ℕ × Text)
  messages = map (λ c. (c, text))

  abbrev tried : ℕ → Bool → Telegram → Telegram
  tried chat failed tg =
      if failed
      then record tg { faults = later tg.faults }
      else record { sent = tg.sent ++ (chat, text) ∷ []; faults = later tg.faults }

  send_all_step :
      (c : ℕ) (cs : List ℕ) (n : ℕ) (tg : Telegram) {failed : Bool}
      → failing tg.faults ≡ failed
      → send_all text (c ∷ cs) n tg
        ≡ send_all text cs (if failed then suc n else n) (tried c failed tg)
  unfolding send_all
  send_all_step c cs n tg f = ap (λ b. send_all text cs (if b then suc n else n) (tried c b tg)) f

  -- How many chats could not be sent to, and what has been sent.
  Counted : List ℕ → ℕ → Telegram → ℕ × Telegram → Type 0
  Counted chats n tg out =
      (out.0 ≡ n + missed chats tg.faults)
      × (out.1.sent ≡ tg.sent ++ messages (reached chats tg.faults))

  send_all-Counted :
      (chats : List ℕ) (n : ℕ) (tg : Telegram) → Counted chats n tg (send_all text chats n tg)
  unfolding send_all Counted
  send_all-Counted [] n tg = (omega arith, rw append-nil refl)
  send_all-Counted (c ∷ cs) n tg = elim (Bool-cases (failing tg.faults)) [
    | inl f ↦
        let (count, sent) = send_all-Counted cs (suc n) (tried c true tg) in
        rw (send_all_step c cs n tg f, f) (count ∙ omega arith, sent)
    | inr f ↦
        let (count, sent) = send_all-Counted cs n (tried c false tg) in
        rw (send_all_step c cs n tg f, f) (count, sent ∙ rw append_assoc refl)
  ]

told_http : (n : ℕ) → (http_send_update (some (sent_answer n)) ≡ none) ↔ (n ≡ 0)
unfolding http_send_update
told_http n = elim (Bool-cases (ltb 0 n)) [
  | inl b ↦ (λ told. absurd (cc), λ zero_. absurd (ground arith))
  | inr b ↦ (λ told. ground arith, λ zero_. rw b refl)
]

told_grpc : (n : ℕ) → (grpc_send_update (some (sent_reply n)) ≡ none) ↔ (n ≡ 0)
unfolding grpc_send_update
told_grpc n = elim (Bool-cases (ltb 0 n)) [
  | inl b ↦ (λ told. absurd (cc), λ zero_. absurd (ground arith))
  | inr b ↦ (λ told. ground arith, λ zero_. rw b refl)
]

all_reached :
    (chats : List ℕ) (faults : List Bool) (unsent : ℕ)
    → unsent ≡ 0 + missed chats faults
    → (Told : Type 0) → Told ↔ (unsent ≡ 0)
    → Told ↔ (reached chats faults ≡ chats)
all_reached chats faults unsent count Told (to, from) = (
  (λ told. let zero_ = to told in none_missed chats faults (omega arith)),
  (λ all.
      let full : length (reached chats faults) ≡ length chats = ap length all in
      let whole = reached_or_missed chats faults in from (omega arith)),
)

pub send_update_told :
    (shot : ResourceShot) (tg : Telegram)
    → is_nil shot.description ≡ false
    → is_nil shot.url ≡ false
    → is_nil shot.chat_ids ≡ false
    → let (response, tg_http) = post_updates (some (update_of shot)) tg in
      let (reply, tg_grpc) = post_update shot.description shot.url shot.chat_ids tg in
      let chats = reached shot.chat_ids tg.faults in
      let sent = tg.sent ++ map (λ c. (c, shot.description)) chats in
      (tg_http.sent ≡ sent)
      × (tg_grpc.sent ≡ sent)
      × ((http_send_update (some response) ≡ none) ↔ (chats ≡ shot.chat_ids))
      × ((grpc_send_update (some reply) ≡ none) ↔ (chats ≡ shot.chat_ids))
unfolding post_updates post_update Counted
send_update_told shot tg text url chats =
    let out = send_all-Counted shot.description shot.chat_ids 0 tg in
    let all =
      all_reached shot.chat_ids tg.faults (send_all shot.description shot.chat_ids 0 tg).0 out.0 in
    (
      out.1,
      rw (text, url, chats) out.1,
      all _ (told_http (send_all shot.description shot.chat_ids 0 tg).0),
      rw (text, url, chats) (all _ (told_grpc (send_all shot.description shot.chat_ids 0 tg).0)),
    )
