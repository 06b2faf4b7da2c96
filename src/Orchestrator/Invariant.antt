-- ===== src/Orchestrator/Invariant.antt =====
-- What holds of every session of the orchestrator between two steps of the process.
use yuzu_agent_webrtc_toy.Prelude.{
  ℕ, ◌<◌, ◌≡◌, ◌≢◌, true, false, [], inl, inr, none, some, arith, Bool-cases, Option-cases,
}
use yuzu_agent_webrtc_toy.Prelude.Int.{ℤ, pos, negsuc}
use yuzu_agent_webrtc_toy.Text.{Str, str_eq, str_eq_iff}
use yuzu_agent_webrtc_toy.Maps.{Map, lookup, insert, lookup-insert}
use yuzu_agent_webrtc_toy.Clock.{Time, to_u32}
use yuzu_agent_webrtc_toy.Orchestrator.State.{
  SessionState, Server, Rms, new_session, GatewayEvent, session_open, vad_start, vad_end,
  transcript_interim, transcript_final, tts, gateway_error, feature, other, Phase,
}
use yuzu_agent_webrtc_toy.Orchestrator.Env.{Getenv, env_min_rms}
use yuzu_agent_webrtc_toy.Orchestrator.Vad.{
  handle_gateway_vad_primary, trigger_barge_in, cancel_llm, process_feature, process_gateway_vad,
  arm_barge_in_guard, reset_vad_state, handle_feature_primary,
}
use yuzu_agent_webrtc_toy.Orchestrator.Conversation.{
  set_state, handle_tts_event, handle_transcript_final,
}
use yuzu_agent_webrtc_toy.Orchestrator.Server.{
  handle_session_open, handle_event, get_or_create_session,
}

-- The detector is between its thresholds, which never change, and a session has a cancel function
-- exactly while it says that a language model stream is active.
pub record IsValid (key : Str) (st : SessionState) : Type 0 where
  pub named : st.id ≡ key
  pub start : st.min_start ≡ 2
  pub hang : st.hangover ≡ 20
  pub below_start : st.speaking ≡ false → st.consec_speech < st.min_start
  pub below_hang : st.non_speech < st.hangover
  pub held : st.llm_active ≡ true → st.llm_cancel ≢ none
  pub released : st.llm_active ≡ false → st.llm_cancel ≡ none
  pub threshold : st.min_rms < 4294967296

pub new_session-IsValid : (sid : Str) → IsValid sid (new_session sid)
unfolding new_session
new_session-IsValid sid = ground arith

pub to_u32-lt : (z : ℤ) → to_u32 z < 4294967296
to_u32-lt (pos n) = omega arith
to_u32-lt (negsuc n) = omega arith

env_min_rms-lt : (getenv : Getenv) → env_min_rms getenv < 4294967296
unfolding env_min_rms
env_min_rms-lt getenv = to_u32-lt _

module _ (key : Str) (st : SessionState) (v : IsValid key st) where
  handle_feature_primary-IsValid :
      (rms : Rms) (now : Time) (sid : Str) → IsValid key (handle_feature_primary st rms now sid).0
  unfolding handle_feature_primary trigger_barge_in cancel_llm
  handle_feature_primary-IsValid rms now sid = ground arith

  set_state-IsValid : (to : Phase) → IsValid key (set_state st to).0
  unfolding set_state
  set_state-IsValid to = ground arith

  process_gateway_vad-IsValid :
      (source : Str) (now : Time) (sid : Str)
      → IsValid key (process_gateway_vad source st now sid).0
  unfolding process_gateway_vad handle_gateway_vad_primary cancel_llm
  process_gateway_vad-IsValid source now sid = ground arith

  process_feature-IsValid :
      (source : Str) (rms : Rms) (now : Time) (sid : Str)
      → IsValid key (process_feature source st rms now sid).0
  unfolding process_feature handle_feature_primary trigger_barge_in cancel_llm
  process_feature-IsValid source rms now sid = ground arith

  handle_session_open-IsValid :
      (getenv : Getenv) (sid : Str) (now : Time)
      → IsValid key (handle_session_open getenv st sid now).0
  unfolding handle_session_open
  handle_session_open-IsValid getenv sid now = ground (arith, env_min_rms-lt getenv)

  handle_tts_event-IsValid :
      (getenv : Getenv) (type : Str) (first_audio_ms : ℕ) (now : Time)
      → IsValid key (handle_tts_event getenv st type first_audio_ms now).0
  unfolding handle_tts_event reset_vad_state arm_barge_in_guard
  handle_tts_event-IsValid getenv type first_audio_ms now = ground arith

  handle_transcript_final-IsValid :
      (sid text : Str) (now : Time) → IsValid key (handle_transcript_final st sid text now).0
  unfolding handle_transcript_final
  handle_transcript_final-IsValid sid text now = ground arith

  pub handle_event-IsValid :
      (getenv : Getenv) (source sid : Str) (ev : GatewayEvent) (now : Time)
      → IsValid key (handle_event getenv source st sid ev now).0
  unfolding handle_event
  handle_event-IsValid getenv source sid (session_open room) now =
      handle_session_open-IsValid getenv sid now
  handle_event-IsValid getenv source sid (feature rms) now =
      process_feature-IsValid source rms now sid
  handle_event-IsValid getenv source sid (vad_start ts) now =
      process_gateway_vad-IsValid source now sid
  handle_event-IsValid getenv source sid (tts type reason ms) now =
      handle_tts_event-IsValid getenv type ms now
  handle_event-IsValid getenv source sid (transcript_final utterance text) now =
      handle_transcript_final-IsValid sid text now
  handle_event-IsValid getenv source sid (vad_end ts) now = v
  handle_event-IsValid getenv source sid (transcript_interim utterance text) now = v
  handle_event-IsValid getenv source sid (gateway_error code message) now = v
  handle_event-IsValid getenv source sid other now = v

-- Every session of the map is valid under its key.
abbrev pub AllValid : Map SessionState → Type 0
AllValid m = (k : Str) (st : SessionState) → lookup k m ≡ some st → IsValid k st

pub AllValid-empty : AllValid []
unfolding lookup
AllValid-empty k st e = cc

pub AllValid-insert :
    (key : Str) (st : SessionState) (m : Map SessionState)
    → IsValid key st
    → AllValid m
    → AllValid (insert key st m)
AllValid-insert key st m v all k st' e = elim (Bool-cases (str_eq key k)) [
  | inl same ↦ ground (arith, str_eq_iff key k, lookup-insert key k st m)
  | inr differs ↦ all k st' (ground (arith, lookup-insert key k st m))
]

pub get_or_create_session-IsValid :
    (s : Server) (sid : Str) → AllValid s.sess → IsValid sid (get_or_create_session s sid)
unfolding get_or_create_session
get_or_create_session-IsValid s sid all = elim (Option-cases (lookup sid s.sess)) [
  | inl e ↦ rw e (new_session-IsValid sid)
  | inr (st, e) ↦ rw e (all sid st e)
]
