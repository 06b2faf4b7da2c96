-- ===== src/Program/Isolation.antt =====
-- What the backend has of a session, and which steps of it change that.
use yuzu_agent_webrtc_toy.Prelude.{
  ℕ, ◌≡◌, refl, subst, true, false, List, [], ◌∷◌, Option, none, some, ◌∙◌,
}
use yuzu_agent_webrtc_toy.Prelude.Int.{ℤ}
use yuzu_agent_webrtc_toy.Text.{Str, str_eq}
use yuzu_agent_webrtc_toy.Maps.{lookup, insert, lookup-insert}
use yuzu_agent_webrtc_toy.Clock.{Time}
use yuzu_agent_webrtc_toy.Auth.{Crypto}
use yuzu_agent_webrtc_toy.Store.Log.{IsCapped}
use yuzu_agent_webrtc_toy.Store.Isolation.{Stored, stored, is_known}
use yuzu_agent_webrtc_toy.Bot.Isolation.{Ran, ran}
use yuzu_agent_webrtc_toy.Loop.{Message, SessState, Effect, append, send_json, state, handle}
use yuzu_agent_webrtc_toy.WorkerWs.{
  Server, Admission, admitted, bad_request, not_found, unauthorized, admit, connect,
}
use yuzu_agent_webrtc_toy.WorkerWs.Connections.{admit-MayConnect}
use yuzu_agent_webrtc_toy.WorkerWs.Messages.{on_worker_message}
use yuzu_agent_webrtc_toy.WorkerWs.Isolation.{
  Serves, same-Serves, both-Serves, append-Serves, connect-Serves, disconnect-Serves,
  on_invalid_message-Serves, on_worker_message-Serves,
}
use yuzu_agent_webrtc_toy.Api.{Backend}
use yuzu_agent_webrtc_toy.Api.Dev.{handle_debug_vad}
use yuzu_agent_webrtc_toy.Api.Isolation.{
  Within, append-Within, handle_create_session-Within, handle_start_session-Within,
  handle_end_session-Within, process_exits-Within,
}
use yuzu_agent_webrtc_toy.Program.{
  Program, backend, with_backend, perform, on_message, Read, read_fails, other_type, undecoded,
  decoded, on_read, on_admission, on_debug_vad, on_bot_log, Action, connects, reads, creates,
  starts, ends, debug_vad, bot_exits, bot_logs, step,
}
use yuzu_agent_webrtc_toy.Loop
use yuzu_agent_webrtc_toy.WorkerWs

-- What the program has of a session.
pub record View : Type 0 where
  pub stored : Stored
  pub ran : Ran
  pub conn : Option ℕ
  pub last_seq : Option ℤ
  pub floor : Option SessState

unfoldable pub view : Str → Program → View
view j p = record {
  stored = stored j p.ws.store;
  ran = ran j p.runner;
  conn = lookup j p.ws.conns;
  last_seq = lookup j p.ws.last_seq;
  floor = lookup j p.dispatcher.sessions;
}

-- `q` differs from `p` in the session `id` only, has that session if `p` has it, and has its logs within the
-- cap if `p` has.
pub record Affects (id : Str) (p q : Program) : Type 0 where
  pub others : (j : Str) → str_eq id j ≡ false → view j q ≡ view j p
  pub kept : is_known p.ws.store id ≡ true → is_known q.ws.store id ≡ true
  pub capped : IsCapped p.ws.store → IsCapped q.ws.store

same-Affects : (id : Str) (p : Program) → Affects id p p
same-Affects id p = record { others = λ j other. refl; kept = λ h. h; capped = λ h. h }

both-Affects : {id : Str} {p q r : Program} → Affects id p q → Affects id q r → Affects id p r
both-Affects f g = record {
  others = λ j other. g.others j other ∙ f.others j other;
  kept = λ h. g.kept (f.kept h);
  capped = λ h. g.capped (f.capped h);
}

-- Of a change of the workers' server, and of one of the part of the API.
ws-Affects :
    {id : Str} (p : Program) (s : Server) → Serves id p.ws s → Affects id p (record p { ws = s })
unfolding view
ws-Affects p s f = record {
  others = λ j other. rw (f.store.others j other, f.conns j other, f.last_seq j other) refl;
  kept = f.store.kept;
  capped = f.store.capped;
}

with_backend-Affects :
    {id : Str} (p : Program) (b : Backend)
    → Within id (backend p) b
    → Affects id p (with_backend p b)
unfolding view
with_backend-Affects p b f = record {
  others = λ j other. rw (f.store.others j other, f.runner j other) refl;
  kept = f.store.kept;
  capped = f.store.capped;
}

perform-Serves :
    (s : Server) (id : Str) (es : List Effect) (now : Time) → Serves id s (perform s id es now).0
unfolding perform
perform-Serves s id [] now = same-Serves id s
perform-Serves s id (append typ payload ∷ es) now =
    both-Serves (append-Serves s id typ payload now)
      (perform-Serves (WorkerWs.append s id typ payload now) id es now)
perform-Serves s id (send_json msg ∷ es) now = perform-Serves s id es now

floor-Affects :
    (p : Program) (id : Str) (s : SessState)
    → Affects id p (record p {
      dispatcher = record p.dispatcher { sessions = insert id s p.dispatcher.sessions };
    })
unfolding view
floor-Affects p id s = record {
  others = λ j other. rw (lookup-insert id j s p.dispatcher.sessions, other) refl;
  kept = λ h. h;
  capped = λ h. h;
}

module _ (p : Program) (id cmd_id : Str) (now : Time) where
  on_message-Affects : (msg : Message) → Affects id p (on_message p id msg cmd_id now).0
  unfolding on_message Loop.on_message
  on_message-Affects msg =
      let (s, es) = handle (state p.dispatcher id) p.dispatcher.tts_timeout_sec id msg cmd_id now in
      both-Affects (floor-Affects p id s)
        (ws-Affects _ (perform p.ws id es now).0 (perform-Serves p.ws id es now))

  on_debug_vad-Affects : (msgs : List Message) → Affects id p (on_debug_vad p id msgs cmd_id now).0
  unfolding on_debug_vad
  on_debug_vad-Affects [] = same-Affects id p
  on_debug_vad-Affects (msg ∷ msgs) = on_message-Affects msg

module _ (p : Program) (id cmd_id : Str) (now : Time) where
  on_read-Affects :
      (read : Read) (write : Option Str) → Affects id p (on_read p id read write cmd_id now).0
  unfolding on_read
  on_read-Affects read_fails write = ws-Affects p _ (disconnect-Serves p.ws id now)
  on_read-Affects other_type write = same-Affects id p
  on_read-Affects (undecoded err) write = ws-Affects p _ (on_invalid_message-Serves p.ws id now err)
  on_read-Affects (decoded msg) write =
      let (ws, writes, msg') = on_worker_message p.ws id msg write now in
      both-Affects (ws-Affects p ws (on_worker_message-Serves p.ws id msg write now))
        (on_message-Affects (record p { ws = ws }) id cmd_id now msg')

-- The session of an action.
unfoldable pub session_of : Action → Str
session_of (connects session_id authz conn) = session_id
session_of (reads session_id read write cmd_id) = session_id
session_of (creates daily id) = id
session_of (starts req id launch) = id
session_of (ends id) = id
session_of (debug_vad req id typ cmd_id) = id
session_of (bot_exits id err) = id
session_of (bot_logs id stream line) = id

on_admission-Affects :
    (p : Program) (id : Str) (a : Admission) (conn : Option ℕ) (now : Time)
    → ((sid : Str) → a ≡ admitted sid → sid ≡ id)
    → Affects id p (on_admission p a conn now)
unfolding on_admission
on_admission-Affects p id (admitted sid) (some conn) now h =
    subst (λ (x : Str). Affects x p (record p { ws = connect p.ws sid conn now })) (h sid refl)
      (ws-Affects p (connect p.ws sid conn now) (connect-Serves p.ws sid now conn))
on_admission-Affects p id (admitted sid) none now h = same-Affects id p
on_admission-Affects p id bad_request conn now h = same-Affects id p
on_admission-Affects p id not_found conn now h = same-Affects id p
on_admission-Affects p id unauthorized conn now h = same-Affects id p

-- A step of the backend changes what it has of one session only, that of the request, of the message
-- or of the process; it does not lose that session, and it keeps all logs within the cap.
pub step-Affects :
    (c : Crypto) (p : Program) (a : Action) (now : Time)
    → Affects (session_of a) p (step c p a now).0
unfolding step session_of on_bot_log
step-Affects c p (connects id authz conn) now =
    on_admission-Affects p id (admit c p.ws id authz now) conn now
      (λ sid e. (admit-MayConnect c p.ws id authz sid now e).0)
step-Affects c p (reads id read write cmd_id) now = on_read-Affects p id cmd_id now read write
step-Affects c p (creates daily id) now =
    with_backend-Affects p _ (handle_create_session-Within p.cfg daily (backend p) id now)
step-Affects c p (starts req id launch) now =
    with_backend-Affects p _ (handle_start_session-Within c p.cfg (backend p) req id launch now)
step-Affects c p (ends id) now =
    with_backend-Affects p _ (handle_end_session-Within (backend p) id now)
step-Affects c p (debug_vad req id typ cmd_id) now =
    on_debug_vad-Affects p id cmd_id now (handle_debug_vad p.cfg (backend p) req true id typ now).1
step-Affects c p (bot_exits id err) now =
    with_backend-Affects p _ (process_exits-Within (backend p) id err now)
step-Affects c p (bot_logs id stream line) now =
    with_backend-Affects p _ (append-Within (backend p) id _ _ now)
