-- ===== src/Api/Bots.antt =====
-- The bots of the sessions, along calls of the handlers of internal/api/handlers.go.
use yuzu_agent_webrtc_toy.Prelude.{
  ℕ, ◌≡◌, ◌≢◌, refl, true, false, Option, none, some, arith, Option-cases, Bool-cases, inl, inr,
}
use yuzu_agent_webrtc_toy.Prelude.Int.{ℤ, pos}
use yuzu_agent_webrtc_toy.Text.{Str, codes}
use yuzu_agent_webrtc_toy.Maps.{Map, lookup, lookup-insert_self}
use yuzu_agent_webrtc_toy.Clock.{Time}
use yuzu_agent_webrtc_toy.Json.{Value}
use yuzu_agent_webrtc_toy.Store.{
  Session, Store, get_session, append_event, set_bot_running, set_bot_pid,
}
use yuzu_agent_webrtc_toy.Auth.{Crypto}
use yuzu_agent_webrtc_toy.Bot.{LocalRunner, reserved, running, is_running, reserve, started}
use yuzu_agent_webrtc_toy.Api.{Config, Backend, Request, append, reply}
use yuzu_agent_webrtc_toy.Api.Sessions.{
  Launch, launched, launch_fails, start_bot, launch, bot_env, after_start, handle_start_session,
  handle_end_session, running_reply,
}

-- The slot of a session is a process, by its number, and not a reservation.
abbrev pub HasProcess : LocalRunner → Str → Type 0
HasProcess r id = (pid : ℕ) × (lookup id r.procs ≡ some (running pid))

HasProcess-running : (r : LocalRunner) (id : Str) → HasProcess r id → is_running r id ≡ true
unfolding is_running
HasProcess-running r id (pid, e) = rw e refl

running-HasProcess :
    (r : LocalRunner) (id : Str)
    → lookup id r.procs ≢ some reserved
    → is_running r id ≡ true
    → HasProcess r id
unfolding is_running
running-HasProcess r id settled h = elim (Option-cases (lookup id r.procs)) [
  | inl e ↦ ground (arith, e, h)
  | inr (reserved, e) ↦ elim (settled e) [ ]
  | inr (running pid, e) ↦ (pid, e)
]

-- A start without an error has a process, and a known session stays known.
launch-running :
    (b : Backend) (id : Str) (r : LocalRunner) (err : Option Str) (outcome : Launch)
    → (launch b id (r, err) outcome).1 ≡ none
    → HasProcess (launch b id (r, err) outcome).0.runner id
unfolding launch started
launch-running b id r (some err) outcome h = ground (arith, h)
launch-running b id r none (launch_fails err) h = ground (arith, h)
launch-running b id r none (launched pid) h = (pid, lookup-insert_self id (running pid) r.procs)

IsKnown : Store → Str → Type 0
IsKnown s id = (sess : Session) × (get_session s id ≡ some sess)

set_bot_pid-IsKnown :
    (s : Store) (id : Str) (pid : ℤ) → IsKnown s id → IsKnown (set_bot_pid s id pid) id
unfolding IsKnown get_session set_bot_pid
set_bot_pid-IsKnown s id pid (sess, h) =
    let sess' = record sess { bot_pid = pid } in
    (sess', rw h (lookup-insert_self id sess' s.sessions))

launch-IsKnown :
    (b : Backend) (id : Str) (r : LocalRunner) (err : Option Str) (outcome : Launch)
    → IsKnown b.store id
    → IsKnown (launch b id (r, err) outcome).0.store id
unfolding launch
launch-IsKnown b id r (some err) outcome h = h
launch-IsKnown b id r none (launch_fails err) h = h
launch-IsKnown b id r none (launched pid) h = set_bot_pid-IsKnown b.store id (pos pid) h

after_start-known :
    (b : Backend) (id : Str) (now : Time) (err : Option Str) (n : ℕ) (m : Map Value)
    → (after_start id now (b, err)).1 ≡ reply n m
    → (err ≡ none)
      × ((after_start id now (b, err)).0.runner ≡ b.runner)
      × ((after_start id now (b, err)).0.store.sessions ≡ b.store.sessions)
unfolding after_start append_event set_bot_running
after_start-known b id now (some err) n m h = ground (arith, h)
after_start-known b id now none n m h = (refl, refl, refl)

record IsStarted (b : Backend) (id : Str) : Type 0 where
  known : IsKnown b.store id
  process : HasProcess b.runner id
  runs : is_running b.runner id ≡ true

after_start_bot-IsStarted :
    (b : Backend) (id : Str) (outcome : Launch) (now : Time) (n : ℕ) (m : Map Value)
    → IsKnown b.store id
    → (after_start id now (start_bot b id outcome)).1 ≡ reply n m
    → IsStarted (after_start id now (start_bot b id outcome)).0 id
unfolding start_bot is_running IsKnown get_session
after_start_bot-IsStarted b id outcome now n m known h =
    let (r, err) = reserve b.runner id in
    let b' = (launch b id (r, err) outcome).0 in
    let (none_left, same, store) =
      after_start-known b' id now (launch b id (r, err) outcome).1 n m h in
    let (sess, found) = launch-IsKnown b id r err outcome known in
    let (pid, slot) = launch-running b id r err outcome none_left in
    let process : HasProcess (after_start id now (start_bot b id outcome)).0.runner id =
      (pid, rw (same, slot)) in
    record {
      known = (sess, rw (store, found));
      process = process;
      runs = HasProcess-running (after_start id now (start_bot b id outcome)).0.runner id process;
    }

module _ (c : Crypto) (cfg : Config) (req : Request) (id : Str) (launch : Map Str → Launch)
    (now : Time) where
  handle_start_session-IsStarted :
      (b : Backend) (n : ℕ) (m : Map Value)
      → lookup id b.runner.procs ≢ some reserved
      → (handle_start_session c cfg b req id launch now).1 ≡ reply n m
      → IsStarted (handle_start_session c cfg b req id launch now).0 id
  unfolding handle_start_session IsKnown append_event get_session
  handle_start_session-IsStarted b n m settled h = elim (Option-cases (get_session b.store id)) [
    | inl e ↦ ground (arith, e, h)
    | inr (sess, e) ↦ elim (Bool-cases (is_running b.runner id)) [
      | inl f ↦
          rw (e, f)
            (record {
              known = (sess, e);
              process = running-HasProcess b.runner id settled f;
              runs = f;
            })
      | inr f ↦
          let asked = append b id (codes "bot_start_requested") none now in
          let outcome = launch (bot_env c cfg sess req id now) in
          let h' : (after_start id now (start_bot asked id outcome)).1 ≡ reply n m =
            ground (arith, e, f, h) in
          rw (e, f) (after_start_bot-IsStarted asked id outcome now n m (sess, e) h')
    ]
  ]

  start_again :
      (b : Backend)
      → IsStarted b id
      → ((handle_start_session c cfg b req id launch now).0.runner ≡ b.runner)
        × ((handle_start_session c cfg b req id launch now).1 ≡ running_reply true)
  unfolding handle_start_session IsKnown
  start_again b started = let (sess, found) = started.known in rw (found, started.runs) (refl, refl)

  end_again : (b : Backend) → IsStarted b id → (handle_end_session b id now).1 ≡ running_reply false
  unfolding handle_end_session IsKnown
  end_again b started = let (sess, found) = started.known in rw (found, started.runs) refl

-- When a start is answered without an error, and no other call held a reservation for the session when
-- it began: the slot of the session is a process, which was launched or was there already, each further
-- start behind it, whatever it would launch, is answered with success and leaves the runner as it is,
-- and an end is answered with success.
pub start_once :
    (c : Crypto) (cfg : Config) (b : Backend) (req req' : Request) (id : Str)
    (launch launch' : Map Str → Launch) (now later : Time) (n : ℕ) (m : Map Value)
    → lookup id b.runner.procs ≢ some reserved
    → (handle_start_session c cfg b req id launch now).1 ≡ reply n m
    → let b' = (handle_start_session c cfg b req id launch now).0 in
      let again = handle_start_session c cfg b' req' id launch' later in
      HasProcess b'.runner id
      × (again.0.runner ≡ b'.runner)
      × (again.1 ≡ running_reply true)
      × ((handle_end_session b' id later).1 ≡ running_reply false)
start_once c cfg b req req' id launch launch' now later n m settled h =
    let started = handle_start_session-IsStarted c cfg req id launch now b n m settled h in
    let b' = (handle_start_session c cfg b req id launch now).0 in
    let (same, answer) = start_again c cfg req' id launch' later b' started in
    (started.process, same, answer, end_again c cfg req' id launch' later b' started)
