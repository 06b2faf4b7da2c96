-- ===== src/Api/Created.antt =====
-- The sessions that internal/api/handlers.go creates.
use yuzu_agent_webrtc_toy.Prelude.{
  ℕ, ◌*◌, ◌≡◌, refl, ◌||◌, ◌++◌, Option, none, some, arith, Bool-cases, Option-cases, inl, inr,
}
use yuzu_agent_webrtc_toy.Text.{Str, is_empty}
use yuzu_agent_webrtc_toy.Maps.{Map, lookup, insert, lookup-insert_self}
use yuzu_agent_webrtc_toy.Clock.{Time, scale, second}
use yuzu_agent_webrtc_toy.Json.{Value}
use yuzu_agent_webrtc_toy.Store.{Session, Store, create_session, get_session, append_event}
use yuzu_agent_webrtc_toy.Api.{
  Config, Backend, TokenResult, minted, refused, DailyClient, reply, expiry,
}
use yuzu_agent_webrtc_toy.Api.Sessions.{
  new_session, stored, with_token, with_room, handle_create_session,
}

-- A session that was created: the room and its token came without an error, and the store has it.
pub record Created (cfg : Config) (daily : DailyClient) (b' : Backend) (id : Str) (now : Time)
    : Type 0 where
  pub room_created : daily.create_room (cfg.room_prefix ++ id) cfg.room_privacy ≡ none
  pub token : Str
  pub token_minted :
      daily.create_meeting_token
        (cfg.room_prefix ++ id)
        cfg.bot_name
        (expiry now (scale (60 * second) cfg.bot_token_exp_min))
      ≡ minted token
  pub in_store : get_session b'.store id ≡ some (new_session cfg id token now)

create_session-stored :
    (s t : Store) (sess : Session)
    → create_session s sess ≡ some t
    → get_session t sess.id ≡ some sess
unfolding create_session get_session
create_session-stored s t sess h = elim (Option-cases (lookup sess.id s.sessions)) [
  | inl e ↦
      let same : insert sess.id sess s.sessions ≡ t.sessions = ground (arith, e, h) in
      rw (← same) (lookup-insert_self sess.id sess s.sessions)
  | inr (old, e) ↦ ground (arith, e, h)
]

stored-stored :
    (b : Backend) (sess : Session) (now : Time) (n : ℕ) (m : Map Value) (o : Option Store)
    → create_session b.store sess ≡ o
    → (stored b sess now o).1 ≡ reply n m
    → get_session (stored b sess now o).0.store sess.id ≡ some sess
unfolding stored append_event get_session
stored-stored b sess now n m none e h = ground (arith, h)
stored-stored b sess now n m (some t) e h =
    unfold get_session in create_session-stored b.store t sess e

module _ (cfg : Config) (daily : DailyClient) (b : Backend) (id : Str) (now : Time) where
  with_token-Created :
      (n : ℕ) (m : Map Value) (r : TokenResult)
      → daily.create_room (cfg.room_prefix ++ id) cfg.room_privacy ≡ none
      → daily.create_meeting_token
          (cfg.room_prefix ++ id)
          cfg.bot_name
          (expiry now (scale (60 * second) cfg.bot_token_exp_min))
        ≡ r
      → (with_token cfg b id now r).1 ≡ reply n m
      → Created cfg daily (with_token cfg b id now r).0 id now
  unfolding with_token new_session
  with_token-Created n m (refused err) made e h = ground (arith, h)
  with_token-Created n m (minted token) made e h =
      let sess = new_session cfg id token now in
      record {
        room_created = made;
        token = token;
        token_minted = e;
        in_store = stored-stored b sess now n m (create_session b.store sess) refl h;
      }

  with_room-Created :
      (n : ℕ) (m : Map Value) (err : Option Str)
      → daily.create_room (cfg.room_prefix ++ id) cfg.room_privacy ≡ err
      → (with_room cfg daily b id now err).1 ≡ reply n m
      → Created cfg daily (with_room cfg daily b id now err).0 id now
  unfolding with_room
  with_room-Created n m (some err) e h = ground (arith, h)
  with_room-Created n m none e h = with_token-Created n m _ e refl h

  pub handle_create_session-Created :
      (n : ℕ) (m : Map Value)
      → (handle_create_session cfg daily b id now).1 ≡ reply n m
      → Created cfg daily (handle_create_session cfg daily b id now).0 id now
  unfolding handle_create_session
  handle_create_session-Created n m h =
      elim (Bool-cases (is_empty cfg.daily_api_key || is_empty cfg.daily_domain)) [
        | inl e ↦ ground (arith, e, h)
        | inr e ↦
            let err = daily.create_room (cfg.room_prefix ++ id) cfg.room_privacy in
            let h' : (with_room cfg daily b id now err).1 ≡ reply n m = ground (arith, e, h) in
            rw e (with_room-Created n m err refl h')
      ]
