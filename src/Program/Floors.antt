-- ===== src/Program/Floors.antt =====
-- What holds of the state of the floor of each session in any run of cmd/server.
use yuzu_agent_webrtc_toy.Prelude.{
  ℕ, ◌≡◌, ◌≢◌, subst, sym, ◌∙◌, true, List, [], ◌∷◌, Option, none, some, arith, Bool-cases,
  Option-cases, inl, inr,
}
use yuzu_agent_webrtc_toy.Prelude.Int.{ℤ}
use yuzu_agent_webrtc_toy.Text.{Str, str_eq}
use yuzu_agent_webrtc_toy.Maps.{lookup, lookup-insert}
use yuzu_agent_webrtc_toy.Clock.{Time}
use yuzu_agent_webrtc_toy.Auth.{Crypto}
use yuzu_agent_webrtc_toy.Loop.{Message, SessState, new_sess_state, state, handle}
use yuzu_agent_webrtc_toy.Loop.Invariant.{IsValid, new_sess_state-IsValid, handle-IsValid}
use yuzu_agent_webrtc_toy.WorkerWs.{
  WorkerConfig, Admission, admitted, bad_request, not_found, unauthorized, admit,
}
use yuzu_agent_webrtc_toy.WorkerWs.Messages.{on_worker_message}
use yuzu_agent_webrtc_toy.Api.{Config}
use yuzu_agent_webrtc_toy.Api.Dev.{handle_debug_vad}
use yuzu_agent_webrtc_toy.Program.{
  Program, new_program, backend, on_message, Read, read_fails, other_type, undecoded, decoded,
  on_read, on_admission, on_debug_vad, on_bot_log, Action, connects, reads, creates, starts, ends,
  debug_vad, bot_exits, bot_logs, step,
}
use yuzu_agent_webrtc_toy.Program.Sessions.{Enabled, Reach, here, next}
use yuzu_agent_webrtc_toy.Loop

-- Each state that the dispatcher has is valid.
abbrev pub HasValidFloors : Program → Type 0
HasValidFloors p = (j : Str) (s : SessState) → lookup j p.dispatcher.sessions ≡ some s → IsValid s

-- So is the state of a session that it has not met.
state-IsValid : (p : Program) (id : Str) → HasValidFloors p → IsValid (state p.dispatcher id)
unfolding state
state-IsValid p id v = elim (Option-cases (lookup id p.dispatcher.sessions)) [
  | inl e ↦ rw e new_sess_state-IsValid
  | inr (s, e) ↦ rw e (v id s e)
]

module _ (p : Program) (v : HasValidFloors p) (id cmd_id : Str) (now : Time)
    (fresh : cmd_id ≢ []) where
  on_message-floors : (msg : Message) → HasValidFloors (on_message p id msg cmd_id now).0
  unfolding on_message Loop.on_message
  on_message-floors msg j s h =
      let s' = (handle (state p.dispatcher id) p.dispatcher.tts_timeout_sec id msg cmd_id now).0 in
      let valid =
        handle-IsValid (state p.dispatcher id) p.dispatcher.tts_timeout_sec id msg cmd_id now fresh
          (state-IsValid p id v) in
      let at = sym (lookup-insert id j s' p.dispatcher.sessions) ∙ h in
      elim (Bool-cases (str_eq id j)) [
        | inl same ↦ let e : s' ≡ s = ground (arith, at, same) in subst IsValid e valid
        | inr other ↦ v j s (ground (arith, at, other))
      ]

  on_debug_vad-floors : (msgs : List Message) → HasValidFloors (on_debug_vad p id msgs cmd_id now).0
  unfolding on_debug_vad
  on_debug_vad-floors [] = v
  on_debug_vad-floors (msg ∷ msgs) = on_message-floors msg

on_read-floors :
    (p : Program) (id : Str) (read : Read) (write : Option Str) (cmd_id : Str) (now : Time)
    → cmd_id ≢ []
    → HasValidFloors p
    → HasValidFloors (on_read p id read write cmd_id now).0
unfolding on_read
on_read-floors p id read_fails write cmd_id now fresh v = v
on_read-floors p id other_type write cmd_id now fresh v = v
on_read-floors p id (undecoded err) write cmd_id now fresh v = v
on_read-floors p id (decoded msg) write cmd_id now fresh v =
    let (ws, writes, msg') = on_worker_message p.ws id msg write now in
    on_message-floors (record p { ws = ws }) v id cmd_id now fresh msg'

on_admission-floors :
    (p : Program) (a : Admission) (conn : Option ℕ) (now : Time)
    → HasValidFloors p
    → HasValidFloors (on_admission p a conn now)
unfolding on_admission
on_admission-floors p (admitted sid) (some conn) now v = v
on_admission-floors p (admitted sid) none now v = v
on_admission-floors p bad_request conn now v = v
on_admission-floors p not_found conn now v = v
on_admission-floors p unauthorized conn now v = v

step-floors :
    (c : Crypto) (p : Program) (a : Action) (now : Time)
    → Enabled p a
    → HasValidFloors p
    → HasValidFloors (step c p a now).0
unfolding step on_bot_log
step-floors c p (connects id authz conn) now enabled v =
    on_admission-floors p (admit c p.ws id authz now) conn now v
step-floors c p (reads id read write cmd_id) now enabled v =
    on_read-floors p id read write cmd_id now enabled.1 v
step-floors c p (creates daily id) now enabled v = v
step-floors c p (starts req id launch) now enabled v = v
step-floors c p (ends id) now enabled v = v
step-floors c p (debug_vad req id typ cmd_id) now enabled v =
    on_debug_vad-floors p v id cmd_id now enabled
      (handle_debug_vad p.cfg (backend p) req true id typ now).1
step-floors c p (bot_exits id err) now enabled v = v
step-floors c p (bot_logs id stream line) now enabled v = v

-- In any run of the backend, with fresh command ids that are not empty, the dispatcher has only valid
-- states: a command to stop is outstanding only while the agent speaks, exactly then a command id is
-- pending, and a silent agent has no utterance; whichever of the worker, its successors and the
-- requests for development the messages come from.
pub reach-IsValid :
    (c : Crypto) (cfg : Config) (ws_cfg : WorkerConfig) (timeout_sec : ℤ) (worker_cmd : Str)
    (p : Program)
    → Reach c (new_program cfg ws_cfg timeout_sec worker_cmd) p
    → (j : Str) (s : SessState) → lookup j p.dispatcher.sessions ≡ some s
    → IsValid s
unfolding new_program lookup
reach-IsValid c cfg ws_cfg timeout_sec worker_cmd _ here j s h = ground (arith, h)
reach-IsValid c cfg ws_cfg timeout_sec worker_cmd _ (next {q} reach a now enabled) j s h =
    step-floors c q a now enabled (reach-IsValid c cfg ws_cfg timeout_sec worker_cmd q reach) j s h
