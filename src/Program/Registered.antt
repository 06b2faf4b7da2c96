-- ===== src/Program/Registered.antt =====
-- To which connections cmd/server writes.
use yuzu_agent_webrtc_toy.Prelude.{
  ℕ, ◌≡◌, refl, sym, subst, Bool, true, false, List, [], ◌∷◌, ◌++◌, Option, none, some,
  if◌then◌else◌,
}
use yuzu_agent_webrtc_toy.Text.{Str, codes, str_eq}
use yuzu_agent_webrtc_toy.Maps.{Map, lookup}
use yuzu_agent_webrtc_toy.Clock.{Time}
use yuzu_agent_webrtc_toy.Auth.{Crypto}
use yuzu_agent_webrtc_toy.Loop.{Message, SessState, state, stop_command}
use yuzu_agent_webrtc_toy.Loop.Stops.{command_of, barges_in}
use yuzu_agent_webrtc_toy.WorkerWs.{written}
use yuzu_agent_webrtc_toy.WorkerWs.Messages.{policy}
use yuzu_agent_webrtc_toy.Api.Dev.{handle_debug_vad}
use yuzu_agent_webrtc_toy.Program.{
  Program, Write, on_message, Read, read_fails, other_type, undecoded, decoded, on_read,
  on_debug_vad, Action, connects, reads, creates, starts, ends, debug_vad, bot_exits, bot_logs,
  step, backend,
}
use yuzu_agent_webrtc_toy.Program.Writes.{policies, write_all, on_message-writes, on_read-writes}

-- Each message is written to the connection that is registered for the session that it names.
abbrev pub AreRegistered : Map ℕ → List Write → Type 0
AreRegistered conns [] = Unit
AreRegistered conns ((conn, msg) ∷ writes) =
    (lookup msg.session_id conns ≡ some conn) × AreRegistered conns writes

-- Messages of one session.
abbrev AreOf : Str → List Message → Type 0
AreOf session_id [] = Unit
AreOf session_id (msg ∷ msgs) = (msg.session_id ≡ session_id) × AreOf session_id msgs

write_all-AreRegistered :
    (conns : Map ℕ) (session_id : Str) (conn : Option ℕ) (msgs : List Message)
    → lookup session_id conns ≡ conn
    → AreOf session_id msgs
    → AreRegistered conns (write_all conn msgs)
unfolding write_all written
write_all-AreRegistered conns session_id conn [] h own = tt
write_all-AreRegistered conns session_id none (msg ∷ msgs) h (own, owns) =
    write_all-AreRegistered conns session_id none msgs h owns
write_all-AreRegistered conns session_id (some conn) (msg ∷ msgs) h (own, owns) =
    (rw (own, h) refl, write_all-AreRegistered conns session_id (some conn) msgs h owns)

command_of-AreOf :
    (s : SessState) (session_id : Str) (msg : Message) (cmd_id : Str) (now : Time) (b : Bool)
    → AreOf session_id (command_of s session_id msg cmd_id now b)
unfolding stop_command
command_of-AreOf s session_id msg cmd_id now true = (refl, tt)
command_of-AreOf s session_id msg cmd_id now false = tt

answers-AreOf :
    (session_id : Str) (enabled hello : Bool) (now : Time) (msgs : List Message)
    → AreOf session_id msgs
    → AreOf session_id ((if hello then policy session_id enabled now ∷ [] else []) ++ msgs)
unfolding policy
answers-AreOf session_id enabled true now msgs h = (refl, h)
answers-AreOf session_id enabled false now msgs h = h

module _ (p : Program) (session_id : Str) (write : Option Str) (cmd_id : Str) (now : Time) where
  on_message-AreRegistered :
      (msg : Message) → AreRegistered p.ws.conns (on_message p session_id msg cmd_id now).1
  on_message-AreRegistered msg =
      let s = state p.dispatcher session_id in
      rw (on_message-writes p session_id msg cmd_id now) (
        write_all-AreRegistered p.ws.conns session_id (lookup session_id p.ws.conns)
          (command_of s session_id msg cmd_id now (barges_in s msg)) refl
          (command_of-AreOf s session_id msg cmd_id now (barges_in s msg)))

  on_read-AreRegistered :
      (read : Read) → AreRegistered p.ws.conns (on_read p session_id read write cmd_id now).1
  unfolding on_read
  on_read-AreRegistered read_fails = tt
  on_read-AreRegistered other_type = tt
  on_read-AreRegistered (undecoded err) = tt
  on_read-AreRegistered (decoded msg) =
      let s = state p.dispatcher session_id in
      let stops = command_of s session_id msg cmd_id now (barges_in s msg) in
      subst (AreRegistered p.ws.conns) (sym (on_read-writes p session_id msg write cmd_id now)) (
        write_all-AreRegistered p.ws.conns session_id (lookup session_id p.ws.conns)
          (policies p.ws session_id msg now ++ stops) refl
          (answers-AreOf session_id p.ws.cfg.local_stop_enabled
            (str_eq msg.type (codes "worker_hello")) now stops
            (command_of-AreOf s session_id msg cmd_id now (barges_in s msg))))

  on_debug_vad-AreRegistered :
      (msgs : List Message) → AreRegistered p.ws.conns (on_debug_vad p session_id msgs cmd_id now).1
  unfolding on_debug_vad
  on_debug_vad-AreRegistered [] = tt
  on_debug_vad-AreRegistered (msg ∷ msgs) = on_message-AreRegistered msg

-- Whatever happens to the backend, each message that it then writes names a session, and goes to the
-- connection that is registered for that session.
pub step-AreRegistered :
    (c : Crypto) (p : Program) (a : Action) (now : Time)
    → AreRegistered p.ws.conns (step c p a now).1
unfolding step
step-AreRegistered c p (connects session_id authz conn) now = tt
step-AreRegistered c p (reads session_id read write cmd_id) now =
    on_read-AreRegistered p session_id write cmd_id now read
step-AreRegistered c p (creates daily id) now = tt
step-AreRegistered c p (starts req id launch) now = tt
step-AreRegistered c p (ends id) now = tt
step-AreRegistered c p (debug_vad req id typ cmd_id) now =
    on_debug_vad-AreRegistered p id none cmd_id now
      (handle_debug_vad p.cfg (backend p) req true id typ now).1
step-AreRegistered c p (bot_exits id err) now = tt
step-AreRegistered c p (bot_logs id stream line) now = tt
