-- ===== src/Loop/Invariant.antt =====
-- What holds of a session of the dispatcher between two messages.
use yuzu_agent_webrtc_toy.Prelude.{◌≡◌, ◌≢◌, true, false, [], arith}
use yuzu_agent_webrtc_toy.Prelude.Int.{ℤ}
use yuzu_agent_webrtc_toy.Text.{Str}
use yuzu_agent_webrtc_toy.Clock.{Time}
use yuzu_agent_webrtc_toy.Floor.{
  new_manager, on_tts_started, on_tts_stopped, on_vad_start, on_vad_end,
}
use yuzu_agent_webrtc_toy.Loop.{
  SessState, Message, new_sess_state, Kind, tts_started_kind, tts_first_audio_kind,
  tts_stopped_kind, vad_start_kind, vad_end_kind, cmd_ack_kind, worker_hello_kind, other_kind,
  dispatch, check_timeout, handle, kind_of,
}

-- A stop is outstanding only while the agent speaks, exactly then a command is pending, and a silent
-- agent has no utterance.
pub record IsValid (s : SessState) : Type 0 where
  pub stops_speech : s.stopping ≡ true → s.fsm.speaking ≡ true
  pub pending : s.stopping ≡ true → s.pending_cmd_id ≢ []
  pub none_pending : s.stopping ≡ false → s.pending_cmd_id ≡ []
  pub silent : s.fsm.speaking ≡ false → s.fsm.active_utterance_id ≡ []

pub new_sess_state-IsValid : IsValid new_sess_state
unfolding new_sess_state
new_sess_state-IsValid = ground arith

module _ (s : SessState) (v : IsValid s) (session_id : Str) (msg : Message) (cmd_id : Str)
    (now : Time) (fresh : cmd_id ≢ []) where
  dispatch-IsValid : (k : Kind) → IsValid (dispatch k s session_id msg cmd_id now).0
  unfolding dispatch on_tts_started on_tts_stopped on_vad_start on_vad_end new_manager
  dispatch-IsValid tts_started_kind = ground arith
  dispatch-IsValid tts_first_audio_kind = ground arith
  dispatch-IsValid tts_stopped_kind = ground arith
  dispatch-IsValid vad_start_kind = ground arith
  dispatch-IsValid vad_end_kind = ground arith
  dispatch-IsValid cmd_ack_kind = v
  dispatch-IsValid worker_hello_kind = ground arith
  dispatch-IsValid other_kind = v

check_timeout-IsValid :
    (s : SessState) (timeout_sec : ℤ) (now : Time)
    → IsValid s
    → IsValid (check_timeout s timeout_sec now).0
unfolding check_timeout new_manager
check_timeout-IsValid s timeout_sec now v = ground arith

-- A message, handled with a fresh command id that is not empty, keeps a session valid: a stop is
-- outstanding only while the agent speaks, and exactly then a command is pending.
pub handle-IsValid :
    (s : SessState) (timeout_sec : ℤ) (session_id : Str) (msg : Message) (cmd_id : Str) (now : Time)
    → cmd_id ≢ []
    → IsValid s
    → IsValid (handle s timeout_sec session_id msg cmd_id now).0
unfolding handle
handle-IsValid s timeout_sec session_id msg cmd_id now fresh v =
    check_timeout-IsValid _ timeout_sec now
      (dispatch-IsValid s v session_id msg cmd_id now fresh (kind_of msg.type))
