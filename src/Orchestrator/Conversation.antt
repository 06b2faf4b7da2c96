-- ===== src/Orchestrator/Conversation.antt =====
-- internal/orchestrator/conversation.go, the handlers of the turn taking, with `setState` of
-- server.go.
use yuzu_agent_webrtc_toy.Prelude.{ℕ, Bool, true, false, List, [], ◌∷◌, ◌++◌, ltb, if◌then◌else◌}
use yuzu_agent_webrtc_toy.Prelude.Int.{pos}
use yuzu_agent_webrtc_toy.Text.{Str, codes, str_eq}
use yuzu_agent_webrtc_toy.Clock.{Time}
use yuzu_agent_webrtc_toy.Orchestrator.State.{
  Phase, unset, idle, listening, processing, speaking_phase, SessionState, Effect, observe,
  transition, spawn_llm, tts_first_audio,
}
use yuzu_agent_webrtc_toy.Orchestrator.Env.{Getenv, env_guard_ms}
use yuzu_agent_webrtc_toy.Orchestrator.Vad.{arm_barge_in_guard, reset_vad_state}

-- `from == to` on phases.
abbrev pub same_phase : Phase → Phase → Bool
same_phase unset unset = true
same_phase idle idle = true
same_phase listening listening = true
same_phase processing processing = true
same_phase speaking_phase speaking_phase = true
same_phase _ _ = false

-- `setState`
unfoldable pub set_state : SessionState → Phase → SessionState × List Effect
set_state st to =
    if same_phase st.state to
    then (st, [])
    else (record st { state = to }, transition st.state to ∷ [])

-- `handleTTSEvent`. The threshold is already a `uint32`, so `uint32(st.minRMS)` is itself.
unfoldable pub handle_tts_event :
    Getenv → SessionState → Str → ℕ → Time → SessionState × List Effect
unfolding set_state
handle_tts_event getenv st type first_audio_ms now =
    if str_eq type (codes "started")
    then set_state (reset_vad_state st) speaking_phase
    else if str_eq type (codes "first_audio")
    then (
      arm_barge_in_guard st (env_guard_ms getenv) st.min_rms now,
      if ltb 0 first_audio_ms then observe tts_first_audio (pos first_audio_ms) ∷ [] else [],
    )
    else if str_eq type (codes "stopped")
    then set_state st listening
    else (st, [])

-- `handleTranscriptFinal`
unfoldable pub handle_transcript_final :
    SessionState → Str → Str → Time → SessionState × List Effect
unfolding set_state
handle_transcript_final st sid text now =
    let (st', moved) = set_state st processing in
    (
      record st' { last_transcript_final = now; llm_first_sentence = false },
      moved ++ spawn_llm sid text ∷ [],
    )
