-- ===== src/Loop/Stops.antt =====
-- When internal/loop/dispatcher.go tells a worker to stop the speech of the agent, and how often.
use mathlib.Core.List.{append-nil}
use yuzu_agent_webrtc_toy.Prelude.{
  ℕ, ◌+◌, ◌≡◌, refl, ap, ◌∙◌, Bool, true, false, not, ◌&&◌, List, [], ◌∷◌, ◌++◌, arith,
  if◌then◌else◌,
}
use yuzu_agent_webrtc_toy.Prelude.Int.{ℤ}
use yuzu_agent_webrtc_toy.Text.{Str, codes}
use yuzu_agent_webrtc_toy.Clock.{Time}
use yuzu_agent_webrtc_toy.Json.{get_text}
use yuzu_agent_webrtc_toy.Floor.{on_tts_stopped, on_vad_start}
use yuzu_agent_webrtc_toy.Loop.{
  SessState, Message, Effect, append, send_json, Kind, tts_started_kind, tts_first_audio_kind,
  tts_stopped_kind, vad_start_kind, vad_end_kind, cmd_ack_kind, worker_hello_kind, other_kind,
  dispatch, check_timeout, handle, kind_of, latency_event, or_empty, is_barge_in_source,
  stop_command,
}

-- How many commands are among the effects.
unfoldable pub commands : List Effect → ℕ
commands [] = 0
commands (append type payload ∷ es) = commands es
commands (send_json msg ∷ es) = 1 + commands es

pub commands-append : (es fs : List Effect) → commands (es ++ fs) ≡ commands es + commands fs
unfolding commands
commands-append [] fs = omega arith
commands-append (append type payload ∷ es) fs = commands-append es fs
commands-append (send_json msg ∷ es) fs = omega (arith, commands-append es fs)

-- Whether a message, in the state in which it comes, is a barge-in.
abbrev is_vad_start : Kind → Bool
is_vad_start vad_start_kind = true
is_vad_start _ = false

abbrev pub barges_in : SessState → Message → Bool
barges_in s msg =
    is_vad_start (kind_of msg.type)
    && (s.barge_in_armed
        && (is_barge_in_source (or_empty (get_text (codes "source") msg.payload))
            && (s.fsm.speaking && not s.stopping)))

module _ (s : SessState) (session_id : Str) (msg : Message) (cmd_id : Str) (now : Time) where
  commands-dispatch :
      (k : Kind)
      → commands (dispatch k s session_id msg cmd_id now).1 ≡ (
          if is_vad_start k
            && (s.barge_in_armed
                && (is_barge_in_source (or_empty (get_text (codes "source") msg.payload))
                    && (s.fsm.speaking && not s.stopping)))
          then 1
          else 0)
  unfolding commands dispatch on_vad_start on_tts_stopped latency_event
  commands-dispatch tts_started_kind = refl
  commands-dispatch tts_first_audio_kind = refl
  commands-dispatch tts_stopped_kind = ground arith
  commands-dispatch vad_start_kind = ground arith
  commands-dispatch vad_end_kind = refl
  commands-dispatch cmd_ack_kind = refl
  commands-dispatch worker_hello_kind = refl
  commands-dispatch other_kind = refl

-- A timeout is reported, and sends no command.
commands-check_timeout :
    (s : SessState) (timeout_sec : ℤ) (now : Time)
    → commands (check_timeout s timeout_sec now).1 ≡ 0
unfolding commands check_timeout
commands-check_timeout s timeout_sec now = ground arith

-- A message makes the dispatcher send one command if it is a start of speech from a source that
-- counts, while the agent's audio plays and no earlier command is outstanding; otherwise none.
pub commands-handle :
    (s : SessState) (timeout_sec : ℤ) (session_id : Str) (msg : Message) (cmd_id : Str) (now : Time)
    → commands (handle s timeout_sec session_id msg cmd_id now).1
      ≡ (if barges_in s msg then 1 else 0)
unfolding handle
commands-handle s timeout_sec session_id msg cmd_id now =
    let (s', es) = dispatch (kind_of msg.type) s session_id msg cmd_id now in
    omega (
      arith,
      commands-append es (check_timeout s' timeout_sec now).1,
      commands-check_timeout s' timeout_sec now,
      commands-dispatch s session_id msg cmd_id now (kind_of msg.type),
    )

-- The messages among the effects.
unfoldable pub messages : List Effect → List Message
messages [] = []
messages (append type payload ∷ es) = messages es
messages (send_json msg ∷ es) = msg ∷ messages es

messages-append : (es fs : List Effect) → messages (es ++ fs) ≡ messages es ++ messages fs
unfolding messages
messages-append [] fs = refl
messages-append (append type payload ∷ es) fs = messages-append es fs
messages-append (send_json msg ∷ es) fs = ap (λ ms. msg ∷ ms) (messages-append es fs)

-- The command of a barge-in, where a message of that kind is one.
abbrev pub command_of : SessState → Str → Message → Str → Time → Bool → List Message
command_of s session_id msg cmd_id now b =
    if b then stop_command session_id cmd_id s.fsm.active_utterance_id now ∷ [] else []

module _ (s : SessState) (session_id : Str) (msg : Message) (cmd_id : Str) (now : Time) where
  messages-dispatch :
      (k : Kind)
      → messages (dispatch k s session_id msg cmd_id now).1
        ≡ command_of s session_id msg cmd_id now (
            is_vad_start k
            && (s.barge_in_armed
                && (is_barge_in_source (or_empty (get_text (codes "source") msg.payload))
                    && (s.fsm.speaking && not s.stopping))))
  unfolding messages dispatch on_vad_start on_tts_stopped latency_event
  messages-dispatch tts_started_kind = refl
  messages-dispatch tts_first_audio_kind = refl
  messages-dispatch tts_stopped_kind = ground arith
  messages-dispatch vad_start_kind = ground arith
  messages-dispatch vad_end_kind = refl
  messages-dispatch cmd_ack_kind = refl
  messages-dispatch worker_hello_kind = refl
  messages-dispatch other_kind = refl

  messages-check_timeout : (timeout_sec : ℤ) → messages (check_timeout s timeout_sec now).1 ≡ []
  unfolding messages check_timeout
  messages-check_timeout timeout_sec = ground arith

pub messages-handle :
    (s : SessState) (timeout_sec : ℤ) (session_id : Str) (msg : Message) (cmd_id : Str) (now : Time)
    → messages (handle s timeout_sec session_id msg cmd_id now).1
      ≡ command_of s session_id msg cmd_id now (barges_in s msg)
unfolding handle
messages-handle s timeout_sec session_id msg cmd_id now =
    let (s', es) = dispatch (kind_of msg.type) s session_id msg cmd_id now in
    messages-append es (check_timeout s' timeout_sec now).1
    ∙ (ap (λ ms. messages es ++ ms)
          (messages-check_timeout s' session_id msg cmd_id now timeout_sec)
        ∙ (append-nil (messages es)
            ∙ messages-dispatch s session_id msg cmd_id now (kind_of msg.type)))
