-- ===== src/Daily/Rooms.antt =====
-- The rooms of the sessions: internal/api/handlers.go over the client of internal/daily/daily.go.
use yuzu_agent_webrtc_toy.Prelude.{
  ℕ, ◌*◌, ◌≡◌, refl, true, false, ◌||◌, ◌++◌, Option, none, some, arith, ◌==◌, Bool-cases, inl, inr,
}
use yuzu_agent_webrtc_toy.Text.{Str, codes, is_empty}
use yuzu_agent_webrtc_toy.Maps.{Map}
use yuzu_agent_webrtc_toy.Clock.{Time, scale, second}
use yuzu_agent_webrtc_toy.Json.{Value}
use yuzu_agent_webrtc_toy.Api.{Config, Backend, minted, reply, expiry}
use yuzu_agent_webrtc_toy.Api.Sessions.{new_session, handle_create_session}
use yuzu_agent_webrtc_toy.Api.Created.{handle_create_session-Created}
use yuzu_agent_webrtc_toy.Store.{Session, get_session}
use yuzu_agent_webrtc_toy.Daily.{
  HttpClient, Object, room, meeting_token, RoomProperties, Request, Result, call_fails, response,
  Parsed, Fetched, fetch_error, fetched, out_of_fuel, is_success, do_json_with_retry, on_first,
  on_second, create_room, create_meeting_token, on_token, daily_client,
}
use yuzu_agent_webrtc_toy.Daily.Retries.{attempt_loop_lem, is_retried, last_answer, two_attempts}

-- The service says of a room that it created it, or that there is one of that name.
abbrev pub SaysRoom : Result → Type 0
SaysRoom (call_fails err) = ⊥
SaysRoom (response status status_text body) = (status == 409 || is_success status) ≡ true

-- What Daily documents, with `HasRoom` for the rooms that it has: a room of which it says this is there,
-- and no request of the client takes one away.
pub record IsLawful {S : Type 0} (serve : S → Request → S × Result) (HasRoom : S → Str → Type 0)
    : Type 0 where
  pub opened :
      (s : S) (req : Request) (name privacy : Str) (properties : Option RoomProperties)
      → req.object ≡ room name privacy properties
      → SaysRoom (serve s req).1
      → HasRoom (serve s req).0 name
  pub kept : (s : S) (req : Request) (name : Str) → HasRoom s name → HasRoom (serve s req).0 name

-- Of an answer behind the retries.
abbrev SaysRoomLast : Fetched → Type 0
SaysRoomLast (fetch_error err) = ⊥
SaysRoomLast out_of_fuel = ⊥
SaysRoomLast (fetched status status_text body) = (status == 409 || is_success status) ≡ true

SaysRoom-last : (r : Result) → SaysRoomLast (last_answer r) → SaysRoom r
SaysRoom-last (call_fails err) h = h
SaysRoom-last (response status status_text body) h = h

module _ {S : Type 0} (serve : S → Request → S × Result) (HasRoom : S → Str → Type 0)
    (laws : IsLawful serve HasRoom) (c : HttpClient) (name privacy : Str) where
  two_attempts-HasRoom :
      (req : Request) (properties : Option RoomProperties) (s : S)
      → req.object ≡ room name privacy properties
      → SaysRoomLast (two_attempts serve req (serve s req)).1
      → HasRoom (two_attempts serve req (serve s req)).0 name
  two_attempts-HasRoom req properties s e = elim (Bool-cases (is_retried (serve s req).1)) [
    | inl again ↦
        let t = (serve s req).0 in
        rw again
          (λ h. laws.opened t req name privacy properties e (SaysRoom-last (serve t req).1 h))
    | inr last ↦
        rw last (λ h. laws.opened s req name privacy properties e (SaysRoom-last (serve s req).1 h))
  ]

  do_json_with_retry-HasRoom :
      (properties : Option RoomProperties) (s : S) (url : Str)
      → SaysRoomLast (do_json_with_retry serve c s url (room name privacy properties)).1
      → HasRoom (do_json_with_retry serve c s url (room name privacy properties)).0 name
  unfolding do_json_with_retry
  do_json_with_retry-HasRoom properties s url =
      let req : Request = record {
        url = url;
        authorization = codes "Bearer " ++ c.api_key;
        object = room name privacy properties;
      } in
      rw (attempt_loop_lem serve 0 s req) (two_attempts-HasRoom req properties s refl)

  on_second-HasRoom :
      (status_text body : Str) (p : S × Fetched)
      → (SaysRoomLast p.1 → HasRoom p.0 name)
      → (on_second serve status_text body p).1 ≡ none
      → HasRoom (on_second serve status_text body p).0 name
  unfolding on_second
  on_second-HasRoom status_text body (s, fetch_error err) has h = ground (arith, h)
  on_second-HasRoom status_text body (s, out_of_fuel) has h = ground (arith, h)
  on_second-HasRoom status_text body (s, fetched status text2 body2) has h =
      elim (Bool-cases (status == 409 || is_success status)) [
        | inl e ↦ rw e (has e)
        | inr e ↦ ground (arith, e, h)
      ]

  on_first-HasRoom :
      (again : S → S × Fetched) (p : S × Fetched)
      → ((t : S) → SaysRoomLast (again t).1 → HasRoom (again t).0 name)
      → (SaysRoomLast p.1 → HasRoom p.0 name)
      → (on_first serve again p).1 ≡ none
      → HasRoom (on_first serve again p).0 name
  unfolding on_first
  on_first-HasRoom again (s, fetch_error err) later has h = ground (arith, h)
  on_first-HasRoom again (s, out_of_fuel) later has h = ground (arith, h)
  on_first-HasRoom again (s, fetched status status_text body) later has h =
      elim (Bool-cases (status == 409 || is_success status)) [
        | inl e ↦ rw e (has e)
        | inr e ↦ elim (Bool-cases (status == 400)) [
          | inl bad ↦
              let h' : (on_second serve status_text body (again s)).1 ≡ none =
                ground (arith, e, bad, h) in
              rw (e, bad) (on_second-HasRoom status_text body (again s) (later s) h')
          | inr other ↦ ground (arith, e, other, h)
        ]
      ]

  create_room-HasRoom :
      (s : S)
      → (create_room serve c s name privacy).1 ≡ none
      → HasRoom (create_room serve c s name privacy).0 name
  unfolding create_room
  create_room-HasRoom s =
      let url = c.base ++ codes "/rooms" in
      let properties : RoomProperties = record {
        enable_prejoin_ui = c.audio.enable_prejoin_ui;
        enable_network_ui = c.audio.enable_network_ui;
        enable_noise_cancellation_ui = c.audio.enable_noise_cancel_ui;
      } in
      on_first-HasRoom (λ t. do_json_with_retry serve c t url (room name privacy none))
        (do_json_with_retry serve c s url (room name privacy (some properties)))
        (λ t. do_json_with_retry-HasRoom none t url)
        (do_json_with_retry-HasRoom (some properties) s url)

  two_attempts-kept :
      (req : Request) (s : S)
      → HasRoom s name
      → HasRoom (two_attempts serve req (serve s req)).0 name
  two_attempts-kept req s h = elim (Bool-cases (is_retried (serve s req).1)) [
    | inl again ↦ rw again (laws.kept (serve s req).0 req name (laws.kept s req name h))
    | inr last ↦ rw last (laws.kept s req name h)
  ]

  do_json_with_retry-kept :
      (object : Object) (s : S) (url : Str)
      → HasRoom s name
      → HasRoom (do_json_with_retry serve c s url object).0 name
  unfolding do_json_with_retry
  do_json_with_retry-kept object s url =
      let req : Request = record {
        url = url;
        authorization = codes "Bearer " ++ c.api_key;
        object = object;
      } in
      rw (attempt_loop_lem serve 0 s req) (two_attempts-kept req s)

-- A token that was minted is not empty.
on_token-nonempty :
    {S : Type 0} (serve : S → Request → S × Result) (decode : Str → Parsed) (p : S × Fetched)
    (token : Str)
    → (on_token serve decode p).1 ≡ minted token
    → is_empty token ≡ false
unfolding on_token
on_token-nonempty serve decode (s, fetch_error err) token h = ground (arith, h)
on_token-nonempty serve decode (s, out_of_fuel) token h = ground (arith, h)
on_token-nonempty serve decode (s, fetched status status_text body) token h = ground (arith, h)

on_token-state :
    {S : Type 0} (serve : S → Request → S × Result) (decode : Str → Parsed) (p : S × Fetched)
    → (on_token serve decode p).0 ≡ p.0
unfolding on_token
on_token-state serve decode (s, fetch_error err) = refl
on_token-state serve decode (s, out_of_fuel) = refl
on_token-state serve decode (s, fetched status status_text body) =
    elim (Bool-cases (is_success status)) [ inl e ↦ rw e refl | inr e ↦ rw e refl ]

-- Over a service that has the rooms of which it says so, and keeps them: when the creation of a session
-- is answered without an error, Daily has the room of the session, whichever of the attempts and of
-- the two forms of the request made it, and whether it was there before; and the store has the
-- session with that room and with the token, not empty, that Daily gave for it.
pub session_has_room :
    {S : Type 0} (serve : S → Request → S × Result) (HasRoom : S → Str → Type 0)
    (decode : Str → Parsed) (c : HttpClient) (s : S) (cfg : Config) (b : Backend) (id : Str)
    (now : Time) (n : ℕ) (m : Map Value)
    → IsLawful serve HasRoom
    → let daily = daily_client serve decode c s cfg.room_privacy in
      (handle_create_session cfg daily b id now).1 ≡ reply n m
      → let daily = daily_client serve decode c s cfg.room_privacy in
        let name = cfg.room_prefix ++ id in
        let t = (create_room serve c s name cfg.room_privacy).0 in
        let exp = expiry now (scale (60 * second) cfg.bot_token_exp_min) in
        let (t', given) = create_meeting_token serve decode c t name cfg.bot_name exp in
        HasRoom t' name
        × (sess : Session) × (get_session (handle_create_session cfg daily b id now).0.store id
            ≡ some sess)
        × (sess.room_name ≡ name)
        × (given ≡ minted sess.bot_token)
        × (is_empty sess.bot_token ≡ false)
unfolding create_meeting_token daily_client new_session
session_has_room serve HasRoom decode c s cfg b id now n m laws h =
    let daily = daily_client serve decode c s cfg.room_privacy in
    let name = cfg.room_prefix ++ id in
    let t = (create_room serve c s name cfg.room_privacy).0 in
    let exp = expiry now (scale (60 * second) cfg.bot_token_exp_min) in
    let url = c.base ++ codes "/meeting-tokens" in
    let asked = meeting_token name cfg.bot_name exp in
    let answer = do_json_with_retry serve c t url asked in
    let created = handle_create_session-Created cfg daily b id now n m h in
    let has =
      create_room-HasRoom serve HasRoom laws c name cfg.room_privacy s created.room_created in
    (
      rw (on_token-state serve decode answer)
          (do_json_with_retry-kept serve HasRoom laws c name cfg.room_privacy asked t url has),
      new_session cfg id created.token now,
      created.in_store,
      refl,
      created.token_minted,
      on_token-nonempty serve decode answer created.token created.token_minted,
    )
