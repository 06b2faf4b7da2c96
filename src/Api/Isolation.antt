-- ===== src/Api/Isolation.antt =====
-- The handlers of internal/api/handlers.go and the callbacks of cmd/server/main.go change the store and the
-- runner for their own session only.
use yuzu_agent_webrtc_toy.Prelude.{
  ◌≡◌, refl, ◌⊎◌, true, false, ◌||◌, Option, none, some, Bool-cases, inl, inr, ◌∙◌,
}
use yuzu_agent_webrtc_toy.Prelude.Int.{pos}
use yuzu_agent_webrtc_toy.Text.{Str, codes, is_empty}
use yuzu_agent_webrtc_toy.Maps.{Map}
use yuzu_agent_webrtc_toy.Clock.{Time}
use yuzu_agent_webrtc_toy.Json.{Payload}
use yuzu_agent_webrtc_toy.Auth.{Crypto}
use yuzu_agent_webrtc_toy.Store.{
  Session, Store, create_session, get_session, set_bot_running, set_bot_exit,
}
use yuzu_agent_webrtc_toy.Store.Isolation.{
  Only, is_known, same-Only, both-Only, append_event-Only, set_bot_running-Only, set_bot_pid-Only,
  set_bot_exit-Only, create_session-Only,
}
use yuzu_agent_webrtc_toy.Bot.{LocalRunner, is_running, reserve, stop, exited}
use yuzu_agent_webrtc_toy.Bot.Isolation.{
  RunsOnly, reserve-RunsOnly, abandon-RunsOnly, started-RunsOnly, exited-RunsOnly, stop-RunsOnly,
}
use yuzu_agent_webrtc_toy.Api.{
  Config, Backend, TokenResult, minted, refused, DailyClient, Request, append,
}
use yuzu_agent_webrtc_toy.Api.Sessions.{
  new_session, stored, with_token, with_room, handle_create_session, Launch, launched, launch_fails,
  launch, start_bot, after_start, bot_env, start_known, handle_start_session, end_known,
  handle_end_session,
}
use yuzu_agent_webrtc_toy.Api.Exits.{Exit, process_exits, exit_code_from_err}

-- `b'` differs from `b` in the session `id` only, and has every session that `b` has.
pub record Within (id : Str) (b b' : Backend) : Type 0 where
  pub store : Only id b.store b'.store
  pub runner : RunsOnly id b.runner b'.runner

pub same-Within : (id : Str) (b : Backend) → Within id b b
same-Within id b = record { store = same-Only id b.store; runner = λ j other. refl }

pub both-Within :
    {id : Str} {b b' b'' : Backend} → Within id b b' → Within id b' b'' → Within id b b''
both-Within f g = record {
  store = both-Only f.store g.store;
  runner = λ j other. g.runner j other ∙ f.runner j other;
}

store-Within :
    {id : Str} {b : Backend} {s : Store} → Only id b.store s → Within id b (record b { store = s })
store-Within f = record { store = f; runner = λ j other. refl }

pub append-Within :
    (b : Backend) (id typ : Str) (payload : Payload) (now : Time)
    → Within id b (append b id typ payload now)
append-Within b id typ payload now = store-Within (append_event-Only b.store id typ payload now)

module _ (cfg : Config) (daily : DailyClient) (b : Backend) (id : Str) (now : Time) where
  stored-Within :
      (sess : Session) (o : Option Store)
      → create_session b.store sess ≡ o
      → Within sess.id b (stored b sess now o).0
  unfolding stored
  stored-Within sess none e = same-Within sess.id b
  stored-Within sess (some s) e =
      both-Within (store-Within (create_session-Only b.store s sess e).0)
        (append-Within (record b { store = s }) sess.id _ _ now)

  with_token-Within : (r : TokenResult) → Within id b (with_token cfg b id now r).0
  unfolding with_token new_session
  with_token-Within (refused err) = same-Within id b
  with_token-Within (minted token) =
      let sess = new_session cfg id token now in
      stored-Within sess (create_session b.store sess) refl

  with_room-Within : (err : Option Str) → Within id b (with_room cfg daily b id now err).0
  unfolding with_room
  with_room-Within (some err) = same-Within id b
  with_room-Within none = with_token-Within _

  pub handle_create_session-Within : Within id b (handle_create_session cfg daily b id now).0
  unfolding handle_create_session
  handle_create_session-Within =
      elim (Bool-cases (is_empty cfg.daily_api_key || is_empty cfg.daily_domain)) [
        | inl e ↦ rw e (same-Within id b)
        | inr e ↦ rw e (with_room-Within _)
      ]

launch-Within :
    (b : Backend) (id : Str) (p : LocalRunner × Option Str) (outcome : Launch)
    → RunsOnly id b.runner p.0
    → Within id b (launch b id p outcome).0
unfolding launch
launch-Within b id (r, some err) outcome h = record { store = same-Only id b.store; runner = h }
launch-Within b id (r, none) (launch_fails err) h = record {
  store = same-Only id b.store;
  runner = λ j other. abandon-RunsOnly r id j other ∙ h j other;
}
launch-Within b id (r, none) (launched pid) h = record {
  store = set_bot_pid-Only b.store id (pos pid);
  runner = λ j other. started-RunsOnly r id pid j other ∙ h j other;
}

after_start-Within :
    (b : Backend) (id : Str) (now : Time) (p : Backend × Option Str)
    → Within id b p.0
    → Within id b (after_start id now p).0
unfolding after_start
after_start-Within b id now (b', some err) h = h
after_start-Within b id now (b', none) h = both-Within h (
    both-Within (store-Within (set_bot_running-Only b'.store id true))
      (append-Within (record b' { store = set_bot_running b'.store id true }) id _ none now))

start_known-Within :
    (c : Crypto) (cfg : Config) (b : Backend) (req : Request) (id : Str) (go : Map Str → Launch)
    (now : Time) (known : Option Session)
    → Within id b (start_known c cfg b req id go now known).0
unfolding start_known start_bot
start_known-Within c cfg b req id go now none = same-Within id b
start_known-Within c cfg b req id go now (some sess) = elim (Bool-cases (is_running b.runner id)) [
  | inl e ↦ rw e (append-Within b id _ _ now)
  | inr e ↦
      let asked = append b id (codes "bot_start_requested") none now in
      let outcome = go (bot_env c cfg sess req id now) in
      rw e (
        after_start-Within b id now (start_bot asked id outcome) (
          both-Within (append-Within b id _ none now) (
            launch-Within asked id (reserve asked.runner id) outcome
              (reserve-RunsOnly asked.runner id))))
]

pub handle_start_session-Within :
    (c : Crypto) (cfg : Config) (b : Backend) (req : Request) (id : Str) (go : Map Str → Launch)
    (now : Time)
    → Within id b (handle_start_session c cfg b req id go now).0
unfolding handle_start_session
handle_start_session-Within c cfg b req id go now =
    start_known-Within c cfg b req id go now (get_session b.store id)

end_known-Within :
    (b : Backend) (id : Str) (now : Time) (known : Option Session)
    → Within id b (end_known b id now known).0
unfolding end_known
end_known-Within b id now none = same-Within id b
end_known-Within b id now (some sess) = elim (Bool-cases (is_running b.runner id)) [
  | inl e ↦
      let asked = append b id (codes "bot_stop_requested") none now in
      let quiet : Backend = record {
        store = set_bot_running asked.store id false;
        runner = (stop asked.runner id).0;
      } in
      let stopped : Within id asked quiet = record {
        store = set_bot_running-Only asked.store id false;
        runner = stop-RunsOnly asked.runner id;
      } in
      rw e (
        both-Within (append-Within b id _ none now)
          (both-Within stopped (append-Within quiet id _ none now)))
  | inr e ↦ rw e (append-Within b id _ _ now)
]

pub handle_end_session-Within :
    (b : Backend) (id : Str) (now : Time) → Within id b (handle_end_session b id now).0
unfolding handle_end_session
handle_end_session-Within b id now = end_known-Within b id now (get_session b.store id)

pub process_exits-Within :
    (b : Backend) (id : Str) (err : Exit) (now : Time) → Within id b (process_exits b id err now)
unfolding process_exits
process_exits-Within b id err now =
    let s = set_bot_running b.store id false in
    let quiet : Backend = record {
      store = set_bot_exit s id (exit_code_from_err err) now;
      runner = exited b.runner id;
    } in
    let ended : Within id b quiet = record {
      store =
          both-Only (set_bot_running-Only b.store id false)
            (set_bot_exit-Only s id (exit_code_from_err err) now);
      runner = exited-RunsOnly b.runner id;
    } in
    both-Within ended (append-Within quiet id _ _ now)

-- A creation that changes anything makes the session known.
module _ (cfg : Config) (daily : DailyClient) (b : Backend) (id : Str) (now : Time) where
  stored-known :
      (sess : Session) (o : Option Store)
      → create_session b.store sess ≡ o
      → ((stored b sess now o).0 ≡ b) ⊎ (is_known (stored b sess now o).0.store sess.id ≡ true)
  unfolding stored
  stored-known sess none e = inl refl
  stored-known sess (some s) e =
      inr ((append_event-Only s sess.id _ _ now).kept (create_session-Only b.store s sess e).1)

  with_token-known :
      (r : TokenResult)
      → ((with_token cfg b id now r).0 ≡ b)
        ⊎ (is_known (with_token cfg b id now r).0.store id ≡ true)
  unfolding with_token new_session
  with_token-known (refused err) = inl refl
  with_token-known (minted token) =
      let sess = new_session cfg id token now in
      stored-known sess (create_session b.store sess) refl

  with_room-known :
      (err : Option Str)
      → ((with_room cfg daily b id now err).0 ≡ b)
        ⊎ (is_known (with_room cfg daily b id now err).0.store id ≡ true)
  unfolding with_room
  with_room-known (some err) = inl refl
  with_room-known none = with_token-known _

  pub handle_create_session-known :
      ((handle_create_session cfg daily b id now).0 ≡ b)
      ⊎ (is_known (handle_create_session cfg daily b id now).0.store id ≡ true)
  unfolding handle_create_session
  handle_create_session-known =
      elim (Bool-cases (is_empty cfg.daily_api_key || is_empty cfg.daily_domain)) [
        | inl e ↦ rw e (inl refl)
        | inr e ↦ rw e (with_room-known _)
      ]
