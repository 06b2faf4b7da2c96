-- ===== src/Api.antt =====
-- internal/api: the HTTP interface of the backend, over its store and the runner of the bots.
-- The types are here, the handlers of handlers.go in Sessions and Dev, and router.go in Router.
use yuzu_agent_webrtc_toy.Prelude.{
  ℕ, ◌+◌, ◌-◌, ◌*◌, Bool, true, false, not, ◌&&◌, ◌||◌, List, [], ◌∷◌, ◌++◌, Option, none, some,
  if◌then◌else◌,
}
use yuzu_agent_webrtc_toy.Prelude.Int.{ℤ, pos, ◌+ℤ◌, ◌-ℤ◌}
use yuzu_agent_webrtc_toy.Text.{Str, codes, str_eq, is_empty}
use yuzu_agent_webrtc_toy.Maps.{Map, lookup, insert}
use yuzu_agent_webrtc_toy.Clock.{Time, seconds, scale, second, unix_seconds, unix_epoch, unix_milli}
use yuzu_agent_webrtc_toy.Json.{Value, Payload, text, num, bool}
use yuzu_agent_webrtc_toy.Store.{
  Session, Store, Event, create_session, get_session, append_event, list_events, set_bot_running,
  set_bot_pid, set_bot_exit,
}
use yuzu_agent_webrtc_toy.Auth.{Crypto, generate_worker_token}
use yuzu_agent_webrtc_toy.Loop.{Message}
use yuzu_agent_webrtc_toy.Bot.{LocalRunner, is_running, reserve, abandon, started, exited, stop}
pub mod Sessions
pub mod Dev
pub mod Router
pub mod Paths
pub mod Access
pub mod Tokens
pub mod Bots
pub mod Exits
pub mod Created
pub mod Isolation

-- The parts of `config.Config` that the handlers read.
pub record Config : Type 0 where
  pub daily_api_key : Str
  pub daily_domain : Str
  pub room_prefix : Str
  pub room_privacy : Str
  pub bot_name : Str
  pub bot_token_exp_min : ℤ
  pub eleven_api_key : Str
  pub eleven_voice_id : Str
  pub canned_phrase : Str
  pub stay_connected_seconds : Str
  pub token_secret : Str
  pub token_ttl_secs : ℤ
  pub dev_mode : Bool
  pub dev_key : Str

-- The backend: what the handlers and the callbacks of the runner change.
pub record Backend : Type 0 where
  pub store : Store
  pub runner : LocalRunner

-- `daily.Client`: the error of creating a room by its name and privacy, and a meeting token, or an
-- error, by the room, the bot's name and the expiry.
pub data TokenResult : Type 0 where
  minted refused : Str → TokenResult

pub record DailyClient : Type 0 where
  pub create_room : Str → Str → Option Str
  pub create_meeting_token : Str → Str → ℤ → TokenResult

-- What the handlers read of a request: its host, whether it came over TLS, and "X-Dev-Key".
pub record Request : Type 0 where
  pub host : Str
  pub tls : Bool
  pub dev_key : Str

-- An answer: a status with a JSON object, with the events of a session, or with an error text.
pub data Response : Type 0 where
  reply : ℕ → Map Value → Response
  events_reply : Str → List Event → Response
  failure : ℕ → Str → Response

abbrev pub not_found : Response
not_found = failure 404 (codes "404 page not found")

abbrev pub append : Backend → Str → Str → Payload → Time → Backend
append b id typ payload now = record b { store = (append_event b.store id typ payload now).0 }

-- `time.Now().Add(d).Unix()`
unfoldable pub expiry : Time → ℤ → ℤ
expiry now d = unix_seconds ((pos now +ℤ d) -ℤ pos unix_epoch)
