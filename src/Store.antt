-- ===== src/Store.antt =====
-- internal/store/store.go and internal/types/types.go: the sessions of the backend, the log of
-- events of each, and what is known of its bot and its worker. Each operation runs under the lock.
use yuzu_agent_webrtc_toy.Prelude.{
  ℕ, ◌-◌, Bool, false, List, [], ◌∷◌, ◌++◌, Option, none, some, length, drop, ltb, if◌then◌else◌,
}
use yuzu_agent_webrtc_toy.Prelude.Int.{ℤ, pos}
use yuzu_agent_webrtc_toy.Text.{Str, codes}
use yuzu_agent_webrtc_toy.Maps.{Map, lookup, insert}
use yuzu_agent_webrtc_toy.Clock.{Time}
use yuzu_agent_webrtc_toy.Json.{Payload, text, num}
pub mod Log
pub mod Sessions
pub mod Isolation

-- `types.Event`
pub record Event : Type 0 where
  pub type : Str
  pub ts : Time
  pub payload : Payload

-- `types.Session`
pub record Session : Type 0 where
  pub id : Str
  pub room_name : Str
  pub room_url : Str
  pub bot_token : Str
  pub created_at : Time
  pub status : Str
  pub bot_pid : ℤ
  pub bot_last_exit_code : ℤ
  pub bot_last_exit_at : Option Time

-- `WorkerState`
pub record WorkerState : Type 0 where
  pub local_stop_capable : Bool
  pub local_stop_enabled : Bool

-- `Store`
pub record Store : Type 0 where
  pub sessions : Map Session
  pub events : Map (List Event)
  pub bot_running : Map Bool
  pub worker_state : Map WorkerState

-- `New`
unfoldable pub new_store : Store
new_store = record { sessions = []; events = []; bot_running = []; worker_state = [] }

-- `CreateSession`: `none` is `ErrSessionExists`.
create_unless : Store → Session → Option Session → Option Store
create_unless s session (some old) = none
create_unless s session none = some (record s {
  sessions = insert session.id session s.sessions;
  events = insert session.id [] s.events;
})

unfoldable pub create_session : Store → Session → Option Store
unfolding create_unless
create_session s session = create_unless s session (lookup session.id s.sessions)

-- `GetSession`
unfoldable pub get_session : Store → Str → Option Session
get_session s id = lookup id s.sessions

-- The value of a missing key is the zero value.
abbrev pub or_zero {ℓ} : {A : Type ℓ} → A → Option A → A
or_zero zero_value none = zero_value
or_zero zero_value (some a) = a

abbrev pub max_events : ℕ
max_events = 200

-- The event that stands for those that were dropped.
unfoldable pub truncation_warning : Str → ℕ → ℕ → Time → Event
truncation_warning session_id dropped kept now = record {
  type = codes "events_truncated";
  ts = now;
  payload = some (
      (codes "session_id", text session_id)
      ∷ (codes "dropped", num (pos dropped))
      ∷ (codes "kept", num (pos kept))
      ∷ []);
}

-- The cap of `AppendEvent` on a log that has just grown.
unfoldable pub cap_events : Str → Time → List Event → List Event
cap_events session_id now log =
    let keep = max_events - 1 in
    let dropped = length log - keep in
    if ltb max_events (length log)
    then drop dropped log ++ truncation_warning session_id dropped keep now ∷ []
    else log

-- `AppendEvent`
unfoldable pub append_event : Store → Str → Str → Payload → Time → Store × Event
append_event s session_id typ payload now =
    let evt : Event = record { type = typ; ts = now; payload = payload } in
    let log = or_zero [] (lookup session_id s.events) ++ evt ∷ [] in
    (record s { events = insert session_id (cap_events session_id now log) s.events }, evt)

-- `ListEvents`
unfoldable pub list_events : Store → Str → List Event
list_events s session_id = or_zero [] (lookup session_id s.events)

-- `SetBotRunning` and `IsBotRunning`
unfoldable pub set_bot_running : Store → Str → Bool → Store
set_bot_running s session_id running = record s {
  bot_running = insert session_id running s.bot_running;
}

unfoldable pub is_bot_running : Store → Str → Bool
is_bot_running s session_id = or_zero false (lookup session_id s.bot_running)

-- `if sess, ok := s.sessions[id]; ok { … }`
update_session : Str → (Session → Session) → Store → Option Session → Store
update_session id change s none = s
update_session id change s (some session) = record s {
  sessions = insert id (change session) s.sessions;
}

-- `SetBotPID`
unfoldable pub set_bot_pid : Store → Str → ℤ → Store
unfolding update_session
set_bot_pid s id pid =
    update_session id (λ session. record session { bot_pid = pid }) s (lookup id s.sessions)

-- `SetBotExit`
unfoldable pub set_bot_exit : Store → Str → ℤ → Time → Store
unfolding update_session
set_bot_exit s id code at =
    update_session id
      (λ session. record session { bot_last_exit_code = code; bot_last_exit_at = some at }) s
      (lookup id s.sessions)

-- `ListSessionIDs`; the order of a Go map is not fixed.
unfoldable pub keys {ℓ} : {V : Type ℓ} → Map V → List Str
keys [] = []
keys ((k, v) ∷ m) = k ∷ keys m

unfoldable pub list_session_ids : Store → List Str
unfolding keys
list_session_ids s = keys s.sessions

abbrev no_worker_state : WorkerState
no_worker_state = record { local_stop_capable = false; local_stop_enabled = false }

-- `GetWorkerState`
unfoldable pub get_worker_state : Store → Str → WorkerState
get_worker_state s session_id = or_zero no_worker_state (lookup session_id s.worker_state)

-- `SetLocalStopCapable`
unfoldable pub set_local_stop_capable : Store → Str → Bool → Store
unfolding get_worker_state
set_local_stop_capable s session_id capable =
    let st = get_worker_state s session_id in
    record s {
      worker_state = insert session_id (record st { local_stop_capable = capable }) s.worker_state;
    }

-- `SetLocalStopEnabled`
unfoldable pub set_local_stop_enabled : Store → Str → Bool → Store
unfolding get_worker_state
set_local_stop_enabled s session_id enabled =
    let st = get_worker_state s session_id in
    record s {
      worker_state = insert session_id (record st { local_stop_enabled = enabled }) s.worker_state;
    }
