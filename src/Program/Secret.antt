-- ===== src/Program/Secret.antt =====
-- The workers of cmd/server where no secret for their tokens is configured.
use yuzu_agent_webrtc_toy.Prelude.{ℕ, ◌≡◌, ◌≢◌, refl, true, List, [], ◌∷◌, Option, none, arith}
use yuzu_agent_webrtc_toy.Prelude.Int.{ℤ}
use yuzu_agent_webrtc_toy.Text.{Str, is_empty}
use yuzu_agent_webrtc_toy.Maps.{Map, lookup, lookup-delete}
use yuzu_agent_webrtc_toy.Clock.{Time}
use yuzu_agent_webrtc_toy.Auth.{Crypto}
use yuzu_agent_webrtc_toy.Loop.{Message, Effect, append, send_json, state, handle}
use yuzu_agent_webrtc_toy.WorkerWs.{
  Server, WorkerConfig, Admission, admitted, bad_request, not_found, unauthorized, admit,
  disconnect,
}
use yuzu_agent_webrtc_toy.WorkerWs.Connections.{admit-MayConnect}
use yuzu_agent_webrtc_toy.WorkerWs.Messages.{
  on_hello, check_seq, on_worker_message, on_invalid_message,
}
use yuzu_agent_webrtc_toy.Api.{Config}
use yuzu_agent_webrtc_toy.Api.Dev.{handle_debug_vad}
use yuzu_agent_webrtc_toy.Program.{
  Program, Write, new_program, backend, perform, on_message, Read, read_fails, other_type,
  undecoded, decoded, on_read, on_debug_vad, on_bot_log, Action, connects, reads, creates, starts,
  ends, debug_vad, bot_exits, bot_logs, step,
}
use yuzu_agent_webrtc_toy.Program.Writes.{conns-on_worker_message}
use yuzu_agent_webrtc_toy.Program.Registered.{AreRegistered, step-AreRegistered}
use yuzu_agent_webrtc_toy.Program.Sessions.{Reach, here, next, on_admission-refused}
use yuzu_agent_webrtc_toy.Loop
use yuzu_agent_webrtc_toy.WorkerWs

-- Without a secret there is no connection of a worker.
record IsShut (s : Server) : Type 0 where
  no_secret : is_empty s.cfg.token_secret ≡ true
  no_conn : (j : Str) → lookup j s.conns ≡ none

cfg-on_worker_message :
    (s : Server) (id : Str) (msg : Message) (write : Option Str) (now : Time)
    → (on_worker_message s id msg write now).0.cfg ≡ s.cfg
unfolding on_worker_message on_hello check_seq
cfg-on_worker_message s id msg write now = ground arith

on_worker_message-IsShut :
    (s : Server) (id : Str) (msg : Message) (write : Option Str) (now : Time)
    → IsShut s
    → IsShut (on_worker_message s id msg write now).0
on_worker_message-IsShut s id msg write now v = record {
  no_secret = rw (cfg-on_worker_message s id msg write now) v.no_secret;
  no_conn = λ j. rw (conns-on_worker_message s id msg write now) (v.no_conn j);
}

perform-IsShut :
    (s : Server) (id : Str) (es : List Effect) (now : Time)
    → IsShut s
    → IsShut (perform s id es now).0
unfolding perform
perform-IsShut s id [] now v = v
perform-IsShut s id (append typ payload ∷ es) now v =
    perform-IsShut (WorkerWs.append s id typ payload now) id es now
      (record { no_secret = v.no_secret; no_conn = v.no_conn })
perform-IsShut s id (send_json msg ∷ es) now v = perform-IsShut s id es now v

on_message-IsShut :
    (p : Program) (id : Str) (msg : Message) (cmd_id : Str) (now : Time)
    → IsShut p.ws
    → IsShut (on_message p id msg cmd_id now).0.ws
unfolding on_message
on_message-IsShut p id msg cmd_id now v =
    perform-IsShut p.ws id (Loop.on_message p.dispatcher id msg cmd_id now).1 now v

on_debug_vad-IsShut :
    (p : Program) (id : Str) (msgs : List Message) (cmd_id : Str) (now : Time)
    → IsShut p.ws
    → IsShut (on_debug_vad p id msgs cmd_id now).0.ws
unfolding on_debug_vad
on_debug_vad-IsShut p id [] cmd_id now v = v
on_debug_vad-IsShut p id (msg ∷ msgs) cmd_id now v = on_message-IsShut p id msg cmd_id now v

on_read-IsShut :
    (p : Program) (id : Str) (read : Read) (write : Option Str) (cmd_id : Str) (now : Time)
    → IsShut p.ws
    → IsShut (on_read p id read write cmd_id now).0.ws
unfolding on_read disconnect on_invalid_message
on_read-IsShut p id read_fails write cmd_id now v = record {
  no_secret = v.no_secret;
  no_conn = λ j. ground (arith, lookup-delete id j p.ws.conns, v.no_conn j);
}
on_read-IsShut p id other_type write cmd_id now v = v
on_read-IsShut p id (undecoded err) write cmd_id now v = record {
  no_secret = v.no_secret;
  no_conn = v.no_conn;
}
on_read-IsShut p id (decoded msg) write cmd_id now v =
    let (ws, writes, msg') = on_worker_message p.ws id msg write now in
    on_message-IsShut (record p { ws = ws }) id msg' cmd_id now
      (on_worker_message-IsShut p.ws id msg write now v)

step-IsShut :
    (c : Crypto) (p : Program) (a : Action) (now : Time)
    → IsShut p.ws
    → IsShut (step c p a now).0.ws
unfolding step on_bot_log
step-IsShut c p (connects id authz conn) now v =
    let refused : (sid : Str) → admit c p.ws id authz now ≢ admitted sid = λ sid e.
      let has = (admit-MayConnect c p.ws id authz sid now e).1.has_secret in
      ground (arith, has, v.no_secret) in
    rw (on_admission-refused p (admit c p.ws id authz now) conn now refused) v
step-IsShut c p (reads id read write cmd_id) now v = on_read-IsShut p id read write cmd_id now v
step-IsShut c p (creates daily id) now v = record { no_secret = v.no_secret; no_conn = v.no_conn }
step-IsShut c p (starts req id launch) now v = record {
  no_secret = v.no_secret;
  no_conn = v.no_conn;
}
step-IsShut c p (ends id) now v = record { no_secret = v.no_secret; no_conn = v.no_conn }
step-IsShut c p (debug_vad req id typ cmd_id) now v =
    on_debug_vad-IsShut p id (handle_debug_vad p.cfg (backend p) req true id typ now).1 cmd_id now v
step-IsShut c p (bot_exits id err) now v = record { no_secret = v.no_secret; no_conn = v.no_conn }
step-IsShut c p (bot_logs id stream line) now v = record {
  no_secret = v.no_secret;
  no_conn = v.no_conn;
}

unwritten :
    (conns : Map ℕ) (writes : List Write)
    → ((j : Str) → lookup j conns ≡ none)
    → AreRegistered conns writes
    → writes ≡ []
unwritten conns [] no_conn h = refl
unwritten conns ((conn, msg) ∷ writes) no_conn (h, hs) = ground (arith, no_conn msg.session_id, h)

module _ (c : Crypto) (cfg : Config) (ws_cfg : WorkerConfig) (timeout_sec : ℤ)
    (worker_cmd : Str) where
  reach-IsShut :
      {p : Program}
      → is_empty ws_cfg.token_secret ≡ true
      → Reach c (new_program cfg ws_cfg timeout_sec worker_cmd) p
      → IsShut p.ws
  unfolding new_program lookup
  reach-IsShut none_set here = record { no_secret = none_set; no_conn = λ j. refl }
  reach-IsShut none_set (next {q} reach a now enabled) =
      step-IsShut c q a now (reach-IsShut none_set reach)

-- Where the secret for the tokens of workers is empty, in any run of the backend no worker has a
-- connection, whatever it shows, and no step writes anything.
pub nothing_without_secret :
    (c : Crypto) (cfg : Config) (ws_cfg : WorkerConfig) (timeout_sec : ℤ) (worker_cmd : Str)
    (p : Program) (a : Action) (now : Time) (j : Str)
    → is_empty ws_cfg.token_secret ≡ true
    → Reach c (new_program cfg ws_cfg timeout_sec worker_cmd) p
    → (lookup j p.ws.conns ≡ none) × ((step c p a now).1 ≡ [])
nothing_without_secret c cfg ws_cfg timeout_sec worker_cmd p a now j none_set reach =
    let v = reach-IsShut c cfg ws_cfg timeout_sec worker_cmd none_set reach in
    (v.no_conn j, unwritten p.ws.conns (step c p a now).1 v.no_conn (step-AreRegistered c p a now))
