-- ===== src/Bot/Clients/Agreement.antt =====
-- Where the two transports say the same: success, and the lists of links.
use linktracker_eng.Prelude.{
  ℕ, ◌≡◌, ◌↔◌, refl, ap, false, List, [], ◌∷◌, map, some, Text, Error, Result, ok, err, arith, ◌==◌,
}
use linktracker_eng.Db.{Session}
use linktracker_eng.Scrapper.Errors.{Sentinel}
use linktracker_eng.Scrapper.Tables.{Tables, LinkSubscription, new_link_subscription}
use linktracker_eng.Scrapper.Service
use linktracker_eng.Scrapper.Service.Bodies.{Env}
use linktracker_eng.Scrapper.Http
use linktracker_eng.Scrapper.Http.{Response, to_response, Body, status_ok}
use linktracker_eng.Scrapper.Grpc
use linktracker_eng.Scrapper.Grpc.{map_errors, to_reply, Reply, Code, ok_code}
use linktracker_eng.Bot.Command.{BotError}
use linktracker_eng.Bot.Clients.{
  Operation, http_call, http_list, grpc_call, grpc_list, map_status_codes, subscription_of,
}
use linktracker_eng.Bot.Clients.Laws.{
  http_tracked, grpc_tracked, http_untracked, grpc_untracked, http_tagged, grpc_tagged,
  http_cleared, grpc_cleared,
}

-- The bot is told of a success just where there is one.
abbrev pub Tells : Result BotError (Unit {0}) → Result Sentinel (Unit {0}) → Type 0
Tells told result = (told ≡ ok tt) ↔ (result ≡ ok tt)

-- An answer that is not 200 is no success.
told_status :
    (op : Operation) (resp : Response)
    → (resp.status == status_ok) ≡ false
    → ¬ (http_call op (some resp) ≡ ok tt)
unfolding http_call map_status_codes
told_status op resp h e = ground arith

told_code :
    (op : Operation) (e : Error Sentinel)
    → ¬ (grpc_call {A = Text} op (some (Reply.status (map_errors e))) ≡ ok tt)
unfolding grpc_call
told_code op e h = cc

Tells-http :
    (op : Operation) (failed : Error Sentinel → Response) (body : Unit {0} → Body)
    (r : Result Sentinel (Unit {0}))
    → ((e : Error Sentinel) → ((failed e).status == status_ok) ≡ false)
    → Tells (http_call op (some (to_response failed (λ a. Http.answer (body a)) r))) r
unfolding http_call map_status_codes
Tells-http op failed body (ok a) h = (λ _. refl, λ _. refl)
Tells-http op failed body (err e) h = ((λ k. absurd (told_status op (failed e) (h e) k)), λ k. cc)

Tells-grpc :
    (op : Operation) (url : Text) (r : Result Sentinel (Unit {0}))
    → Tells (grpc_call op (some (to_reply (λ (a : Unit {0}). url) r))) r
unfolding grpc_call
Tells-grpc op url (ok a) = (λ _. refl, λ _. refl)
Tells-grpc op url (err e) = ((λ k. absurd (told_code op e k)), λ k. cc)

-- Over either transport, the bot is told that a command has succeeded just where the scrapper has carried
-- it out: /track, /untrack, and the setting and clearing of tags, whatever the database does, if the
-- transport works.
pub success_told :
    (env : Env) (new_id chat : ℕ) (link : Text) (tags : List Text) (s : Session Tables)
    → let tracked = (Service.subscribe env new_id link chat tags s).0 in
      let untracked = (Service.unsubscribe env chat link s).0 in
      let tagged = (Service.add_tags env chat link tags s).0 in
      let cleared = (Service.clear_tags env chat link s).0 in
      (Tells (http_tracked env new_id chat link tags s) tracked
        × Tells (grpc_tracked env new_id chat link tags s) tracked)
      × (Tells (http_untracked env chat link s) untracked
          × Tells (grpc_untracked env chat link s) untracked)
      × (Tells (http_tagged env chat link s tags) tagged
          × Tells (grpc_tagged env chat link s tags) tagged)
      × (Tells (http_cleared env chat link s) cleared
          × Tells (grpc_cleared env chat link s) cleared)
unfolding Http.post_links Http.delete_links Http.post_tags Http.delete_tags Grpc.track_link
    Grpc.untrack_link Grpc.add_tags Grpc.clear_tags
success_told env new_id chat link tags s = (
  (Tells-http _ _ _ _ (λ e. ground arith), Tells-grpc _ _ _),
  (Tells-http _ _ _ _ (λ e. ground arith), Tells-grpc _ _ _),
  (Tells-http _ _ _ _ (λ e. ground arith), Tells-grpc _ _ _),
  (Tells-http _ _ _ _ (λ e. ground arith), Tells-grpc _ _ _),
)

-- A subscription as the bot gets it, which is without its last update.
abbrev pub received : ℕ → LinkSubscription → LinkSubscription
received chat s = new_link_subscription chat s.res_id s.link s.tags

received_lem :
    (chat : ℕ) (links : List LinkSubscription)
    → map (subscription_of chat) (map Http.item_of links) ≡ map (received chat) links
received_lem chat [] = refl
received_lem chat (s ∷ links) = ap (λ l. received chat s ∷ l) (received_lem chat links)

-- Over either transport, the bot gets the list that the use case returns.
pub list_told :
    (chat : ℕ) (s : Session Tables) (links : List LinkSubscription)
    → (Service.get_links chat s).0 ≡ ok links
    → (http_list chat (some (Http.get_links chat s).0) ≡ some (ok (map (received chat) links)))
      × (grpc_list chat (some (Grpc.list_links chat s).0) ≡ ok (map (received chat) links))
unfolding http_list grpc_list Http.get_links Grpc.list_links
list_told chat s links h = (
  rw h (ap (λ l. some (ok l)) (received_lem chat links)),
  rw h (ap (λ l. ok l) (received_lem chat links)),
)
