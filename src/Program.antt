-- ===== src/Program.antt =====
-- cmd/server/main.go with the loop of internal/workerws/handler.go: the backend as one program, in
-- which the HTTP interface, the connections of the workers, the dispatcher and the bots share a store.
use yuzu_agent_webrtc_toy.Prelude.{
  ℕ, Bool, true, false, List, [], ◌∷◌, ◌++◌, Option, none, some, if◌then◌else◌,
}
use yuzu_agent_webrtc_toy.Text.{Str, codes}
use yuzu_agent_webrtc_toy.Maps.{Map, lookup}
use yuzu_agent_webrtc_toy.Clock.{Time}
use yuzu_agent_webrtc_toy.Json.{text}
use yuzu_agent_webrtc_toy.Auth.{Crypto}
use yuzu_agent_webrtc_toy.Bot.{LocalRunner, new_local_runner}
use yuzu_agent_webrtc_toy.Store.{new_store}
use yuzu_agent_webrtc_toy.Prelude.Int.{ℤ}
use yuzu_agent_webrtc_toy.Loop.{Message, Dispatcher, Effect, append, send_json}
use yuzu_agent_webrtc_toy.WorkerWs.{
  Server, WorkerConfig, Admission, admitted, admit, connect, disconnect, written,
}
use yuzu_agent_webrtc_toy.WorkerWs.Messages.{on_worker_message, on_invalid_message}
use yuzu_agent_webrtc_toy.Api.{Config, Backend, DailyClient, Request}
use yuzu_agent_webrtc_toy.Api.Sessions.{
  Launch, handle_create_session, handle_start_session, handle_end_session,
}
use yuzu_agent_webrtc_toy.Api.Dev.{handle_debug_vad}
use yuzu_agent_webrtc_toy.Api.Exits.{Exit, process_exits}
use yuzu_agent_webrtc_toy.WorkerWs
use yuzu_agent_webrtc_toy.Loop
use yuzu_agent_webrtc_toy.Api
pub mod Writes
pub mod Registered
pub mod Isolation
pub mod Sessions
pub mod Floors
pub mod Secret

-- What `main` puts together; the store is that of the server of the workers, and the registry of its
-- connections is that of the dispatcher.
pub record Program : Type 0 where
  pub cfg : Config
  pub ws : Server
  pub dispatcher : Dispatcher
  pub runner : LocalRunner

-- `main` up to the routes.
unfoldable pub new_program : Config → WorkerConfig → ℤ → Str → Program
unfolding new_store new_local_runner
new_program cfg ws_cfg timeout_sec worker_cmd = record {
  cfg = cfg;
  ws = record { cfg = ws_cfg; store = new_store; conns = []; last_seq = [] };
  dispatcher = record { sessions = []; tts_timeout_sec = timeout_sec };
  runner = new_local_runner worker_cmd;
}

-- The part of the handlers of the API, and the program with another such part.
abbrev pub backend : Program → Backend
backend p = record { store = p.ws.store; runner = p.runner }

abbrev pub with_backend : Program → Backend → Program
with_backend p b = record p { ws = record p.ws { store = b.store }; runner = b.runner }

-- A message that is written to a connection.
abbrev pub Write : Type 0
Write = ℕ × Message

-- The effects of the dispatcher: its events go to the store, its messages to the connection of their
-- session. The error of a write is ignored.
unfoldable pub perform : Server → Str → List Effect → Time → Server × List Write
perform s session_id [] now = (s, [])
perform s session_id (append typ payload ∷ es) now =
    perform (WorkerWs.append s session_id typ payload now) session_id es now
perform s session_id (send_json msg ∷ es) now =
    let (s', writes) = perform s session_id es now in
    (s', written (lookup session_id s.conns) msg ++ writes)

-- `disp.OnMessage`; `cmd_id` is the fresh `uuid`.
unfoldable pub on_message : Program → Str → Message → Str → Time → Program × List Write
on_message p session_id msg cmd_id now =
    let (dispatcher, es) = Loop.on_message p.dispatcher session_id msg cmd_id now in
    let (ws, writes) = perform p.ws session_id es now in
    (record p { ws = ws; dispatcher = dispatcher }, writes)

-- What a read of a connection gives: an error, a message of no known type, a text that is no message
-- with the error of its decoding, or a message.
pub data Read : Type 0 where
  read_fails other_type : Read
  undecoded : Str → Read
  decoded : Message → Read

-- A round of the loop of `HandleWorkerWS`, or its end; `write` is the error of a write.
unfoldable pub on_read : Program → Str → Read → Option Str → Str → Time → Program × List Write
on_read p session_id read_fails write cmd_id now =
    (record p { ws = disconnect p.ws session_id now }, [])
on_read p session_id other_type write cmd_id now = (p, [])
on_read p session_id (undecoded err) write cmd_id now =
    (record p { ws = on_invalid_message p.ws session_id err now }, [])
on_read p session_id (decoded msg) write cmd_id now =
    let (ws, writes, msg') = on_worker_message p.ws session_id msg write now in
    let (p', more) = on_message (record p { ws = ws }) session_id msg' cmd_id now in
    (p', writes ++ more)

-- The start of `HandleWorkerWS`; `conn` is the connection, where `Accept` gives one.
unfoldable pub on_admission : Program → Admission → Option ℕ → Time → Program
on_admission p (admitted session_id) (some conn) now = record p {
  ws = connect p.ws session_id conn now;
}
on_admission p _ _ now = p

-- `HandleDebugVAD` with the dispatcher.
unfoldable pub on_debug_vad : Program → Str → List Message → Str → Time → Program × List Write
on_debug_vad p session_id [] cmd_id now = (p, [])
on_debug_vad p session_id (msg ∷ msgs) cmd_id now = on_message p session_id msg cmd_id now

-- The callback of the runner for a line of output.
unfoldable pub on_bot_log : Program → Str → Str → Str → Time → Program
on_bot_log p session_id stream line now = with_backend p (
    Api.append (backend p) session_id (codes "bot_log")
      (some ((codes "stream", text stream) ∷ ((codes "line", text line) ∷ []))) now)

-- What happens to the program: a worker asks for a connection, with "Authorization"; a round of the
-- handler of a worker; the requests of the API that change state; and the callbacks of the runner.
pub data Action : Type 0 where
  connects : Str → Str → Option ℕ → Action
  reads : Str → Read → Option Str → Str → Action
  creates : DailyClient → Str → Action
  starts : Request → Str → (Map Str → Launch) → Action
  ends : Str → Action
  debug_vad : Request → Str → Str → Str → Action
  bot_exits : Str → Exit → Action
  bot_logs : Str → Str → Str → Action

unfoldable pub step : Crypto → Program → Action → Time → Program × List Write
step c p (connects session_id authz conn) now =
    (on_admission p (admit c p.ws session_id authz now) conn now, [])
step c p (reads session_id read write cmd_id) now = on_read p session_id read write cmd_id now
step c p (creates daily id) now =
    (with_backend p (handle_create_session p.cfg daily (backend p) id now).0, [])
step c p (starts req id launch) now =
    (with_backend p (handle_start_session c p.cfg (backend p) req id launch now).0, [])
step c p (ends id) now = (with_backend p (handle_end_session (backend p) id now).0, [])
step c p (debug_vad req id typ cmd_id) now =
    on_debug_vad p id (handle_debug_vad p.cfg (backend p) req true id typ now).1 cmd_id now
step c p (bot_exits id err) now = (with_backend p (process_exits (backend p) id err now), [])
step c p (bot_logs id stream line) now = (on_bot_log p id stream line now, [])
