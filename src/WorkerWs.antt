-- ===== src/WorkerWs.antt =====
-- internal/workerws/handler.go and registry.go: the admission of a worker, its connection, and the
-- messages that it sends.
use yuzu_agent_webrtc_toy.Prelude.{
  ℕ, Bool, true, false, not, ◌&&◌, ◌||◌, List, [], ◌∷◌, ◌++◌, Option, none, some, leb, ltb, ◌==◌,
  if◌then◌else◌,
}
use yuzu_agent_webrtc_toy.Prelude.Int.{ℤ, pos, ◌-ℤ◌, ◌+ℤ◌, ltb_ℤ, wrap_i64}
use yuzu_agent_webrtc_toy.Text.{Str, codes, str_eq, is_empty}
use yuzu_agent_webrtc_toy.Maps.{Map, lookup, insert, delete}
use yuzu_agent_webrtc_toy.Clock.{Time, unix_milli}
use yuzu_agent_webrtc_toy.Json.{Value, Payload, text, num, bool, get_bool}
use yuzu_agent_webrtc_toy.Store.{
  Store, get_session, append_event, set_local_stop_capable, set_local_stop_enabled, or_zero,
}
use yuzu_agent_webrtc_toy.Auth.{
  Crypto, Validation, valid, err_token_format, err_token_sig, err_token_exp, err_token_sid,
  validate_worker_token,
}
use yuzu_agent_webrtc_toy.Loop.{Message}
pub mod Messages
pub mod Isolation
pub mod Sequence
pub mod Connections

-- The part "Worker" of the configuration that the handler reads.
pub record WorkerConfig : Type 0 where
  pub token_secret : Str
  pub token_skew_secs : ℤ
  pub local_stop_enabled : Bool

-- `Server` with its `Registry`; a connection is a number.
pub record Server : Type 0 where
  pub cfg : WorkerConfig
  pub store : Store
  pub conns : Map ℕ
  pub last_seq : Map ℤ

-- The answers before the upgrade, by their status code, or the session of the worker.
pub data Admission : Type 0 where
  bad_request not_found unauthorized : Admission
  admitted : Str → Admission

-- `strings.HasPrefix` with `strings.TrimPrefix`
unfoldable pub strip_prefix : Str → Str → Option Str
strip_prefix [] s = some s
strip_prefix (p ∷ ps) [] = none
strip_prefix (p ∷ ps) (c ∷ s) = let rest = strip_prefix ps s in if p == c then rest else none

abbrev pub is_valid : Validation → Bool
is_valid (valid sid exp) = true
is_valid err_token_format = false
is_valid err_token_sig = false
is_valid err_token_exp = false
is_valid err_token_sid = false

-- The tests on the header "Authorization".
unfoldable pub admit_bearer : Crypto → Server → Str → Option Str → Time → Admission
admit_bearer c s session_id none now = unauthorized
admit_bearer c s session_id (some token) now =
    if is_empty s.cfg.token_secret
    then unauthorized
    else if is_valid
        (validate_worker_token c s.cfg.token_secret token session_id now s.cfg.token_skew_secs)
    then admitted session_id
    else unauthorized

unfoldable pub admit_known : Crypto → Server → Str → Str → Time → Bool → Admission
admit_known c s session_id authz now true =
    admit_bearer c s session_id (strip_prefix (codes "Bearer ") authz) now
admit_known c s session_id authz now false = not_found

abbrev pub is_some {ℓ} : {A : Type ℓ} → Option A → Bool
is_some none = false
is_some (some a) = true

-- `HandleWorkerWS` before the upgrade.
unfoldable pub admit : Crypto → Server → Str → Str → Time → Admission
admit c s session_id authz now =
    if is_empty session_id
    then bad_request
    else admit_known c s session_id authz now (is_some (get_session s.store session_id))

abbrev pub append : Server → Str → Str → Payload → Time → Server
append s session_id typ payload now = record s {
  store = (append_event s.store session_id typ payload now).0;
}

-- `Registry.Replace`, and whether it closed a connection.
unfoldable pub replace : Map ℕ → Str → ℕ → Map ℕ × Bool
replace conns session_id conn = (insert session_id conn conns, is_some (lookup session_id conns))

-- The start of a connection.
unfoldable pub connect : Server → Str → ℕ → Time → Server
connect s session_id conn now =
    let (conns, replaced) = replace s.conns session_id conn in
    let s' = record s { conns = conns } in
    let s'' = if replaced then append s' session_id (codes "worker_replaced") none now else s' in
    let s''' = append s'' session_id (codes "worker_connected") none now in
    record s''' { last_seq = insert session_id (pos 0) s'''.last_seq }

-- The end of a connection, whichever one it was; `Registry.Remove` is the `delete`.
unfoldable pub disconnect : Server → Str → Time → Server
disconnect s session_id now =
    append (record s { conns = delete session_id s.conns }) session_id (codes "worker_disconnected")
      none now

-- `Registry.SendJSON`: its error, where `write` is that of the connection, and what it writes, with
-- the connection.
unfoldable pub send_json : Option ℕ → Option Str → Option Str
send_json none write = none
send_json (some conn) write = write

unfoldable pub written : Option ℕ → Message → List (ℕ × Message)
written none msg = []
written (some conn) msg = (conn, msg) ∷ []
