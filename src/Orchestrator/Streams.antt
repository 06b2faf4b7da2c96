-- ===== src/Orchestrator/Streams.antt =====
-- Which language model streams internal/orchestrator can still cancel: a stream whose cancel function
-- no session holds runs until it ends by itself.
use yuzu_agent_webrtc_toy.Prelude.{
  ℕ, ◌+◌, ◌≡◌, ◌≢◌, refl, true, List, [], ◌∷◌, ◌++◌, inl, inr, some, arith, Bool-cases,
  Option-cases,
}
use yuzu_agent_webrtc_toy.Text.{Str, str_eq}
use yuzu_agent_webrtc_toy.Maps.{Map, lookup, insert, lookup-insert}
use yuzu_agent_webrtc_toy.Clock.{Time}
use yuzu_agent_webrtc_toy.Orchestrator.State.{
  SessionState, Server, Effect, Rms, new_session, GatewayEvent, session_open, vad_start, vad_end,
  transcript_interim, transcript_final, tts, gateway_error, feature, other, vad_agree_gateway_ms,
  vad_agree_feature_ms,
}
use yuzu_agent_webrtc_toy.Orchestrator.Env.{Getenv}
use yuzu_agent_webrtc_toy.Orchestrator.Vad.{
  cancel_llm, trigger_barge_in, observe_latency, observe_agreement, process_feature,
  process_gateway_vad, handle_feature_primary, handle_gateway_vad_primary, reset_vad_state,
  arm_barge_in_guard,
}
use yuzu_agent_webrtc_toy.Orchestrator.Conversation.{handle_tts_event, handle_transcript_final}
use yuzu_agent_webrtc_toy.Orchestrator.Llm.{attach_llm, detach_llm}
use yuzu_agent_webrtc_toy.Orchestrator.Server.{
  handle_event, handle_session_open, get_or_create_session, Action, event, llm_started, llm_message,
  llm_closed, gateway_closed,
}
use yuzu_agent_webrtc_toy.Orchestrator.Effects.{
  count_effects, count_effects-append, is_cancel, count_effects-observe_agreement,
  count_effects-observe_latency,
}
use yuzu_agent_webrtc_toy.Orchestrator.Goroutines.{attach_llm_keeps, detach_llm_keeps}

-- No session of the map holds the cancel function.
abbrev pub NotHeld : ℕ → Map SessionState → Type 0
NotHeld h m = (k : Str) (st : SessionState) → lookup k m ≡ some st → st.llm_cancel ≢ some h

-- A step that is not the start or the end of the stream itself.
abbrev pub IsOfOthers : ℕ → Action → Type 0
IsOfOthers h (event raw ev) = Unit
IsOfOthers h (llm_started sid text handle calls) = handle ≢ h
IsOfOthers h (llm_message sid m) = Unit
IsOfOthers h (llm_closed sid handle) = handle ≢ h
IsOfOthers h (gateway_closed sid) = Unit

abbrev pub AllOfOthers : ℕ → List (Action × Time) → Type 0
AllOfOthers h [] = Unit
AllOfOthers h ((a, now) ∷ rest) = IsOfOthers h a × AllOfOthers h rest

-- The session does not come to hold the cancel function, and it is not called.
pub record Spares (h : ℕ) (st : SessionState) (es : List Effect) : Type 0 where
  pub not_held : st.llm_cancel ≢ some h
  pub not_called : count_effects (is_cancel h) es ≡ 0

cancel_llm-Spares :
    (h : ℕ) (st : SessionState)
    → st.llm_cancel ≢ some h
    → Spares h (cancel_llm st).0 (cancel_llm st).1
unfolding cancel_llm count_effects
cancel_llm-Spares h st free = ground arith

module _ (h : ℕ) (st : SessionState) (free : st.llm_cancel ≢ some h) (now : Time) (sid : Str) where
  trigger_barge_in-Spares : let (st', es, b) = trigger_barge_in st now sid in Spares h st' es
  unfolding trigger_barge_in count_effects
  trigger_barge_in-Spares =
      let st' = record st { speaking = true; non_speech = 0; last_feature_start = now } in
      let (quiet, cancelled) = cancel_llm st' in
      let spared = cancel_llm-Spares h st' free in
      let latency = observe_latency quiet now in
      let agreement = observe_agreement vad_agree_gateway_ms quiet.last_gateway_start now in
      record {
        not_held = spared.not_held;
        not_called = omega (
          arith,
          spared.not_called,
          count_effects-append (is_cancel h) cancelled (latency ++ agreement),
          count_effects-append (is_cancel h) latency agreement,
          count_effects-observe_latency (is_cancel h) quiet now (λ m v. refl),
          count_effects-observe_agreement (is_cancel h) vad_agree_gateway_ms
              quiet.last_gateway_start now (λ m v. refl),
        );
      }

  handle_gateway_vad_primary-Spares :
      let (st', es, b) = handle_gateway_vad_primary st now sid in Spares h st' es
  unfolding handle_gateway_vad_primary count_effects
  handle_gateway_vad_primary-Spares =
      let (quiet, cancelled) = cancel_llm st in
      let spared = cancel_llm-Spares h st free in
      let agreement = observe_agreement vad_agree_feature_ms quiet.last_feature_start now in
      record {
        not_held = spared.not_held;
        not_called = omega (
          arith,
          spared.not_called,
          count_effects-append (is_cancel h) cancelled agreement,
          count_effects-observe_agreement (is_cancel h) vad_agree_feature_ms
              quiet.last_feature_start now (λ m v. refl),
        );
      }

module _ (h : ℕ) (st : SessionState) (free : st.llm_cancel ≢ some h) (now : Time) (sid : Str) where
  handle_feature_primary-Spares :
      (rms : Rms) → let (st', es, b) = handle_feature_primary st rms now sid in Spares h st' es
  unfolding handle_feature_primary count_effects
  handle_feature_primary-Spares rms = ground (
    arith,
    trigger_barge_in-Spares h (record st { consec_speech = st.consec_speech + 1 }) free now sid,
  )

  process_gateway_vad-Spares :
      (source : Str) → let (st', es, b) = process_gateway_vad source st now sid in Spares h st' es
  unfolding process_gateway_vad count_effects
  process_gateway_vad-Spares source = ground (
    arith,
    handle_gateway_vad_primary-Spares h (record st { last_gateway_start = now }) free now sid,
    count_effects-observe_agreement (is_cancel h) vad_agree_gateway_ms st.last_feature_start now
        (λ m v. refl),
  )

  pub handle_event-Spares :
      (getenv : Getenv) (source : Str) (ev : GatewayEvent)
      → let (st', es) = handle_event getenv source st sid ev now in Spares h st' es
  unfolding handle_event handle_session_open process_feature handle_tts_event reset_vad_state
      arm_barge_in_guard handle_transcript_final count_effects
  handle_event-Spares getenv source (session_open room) = ground arith
  handle_event-Spares getenv source (feature rms) =
      ground (arith, handle_feature_primary-Spares rms)
  handle_event-Spares getenv source (vad_start ts) = process_gateway_vad-Spares source
  handle_event-Spares getenv source (tts type reason ms) = ground arith
  handle_event-Spares getenv source (transcript_final utterance text) = ground arith
  handle_event-Spares getenv source (vad_end ts) = ground arith
  handle_event-Spares getenv source (transcript_interim utterance text) = ground arith
  handle_event-Spares getenv source (gateway_error code message) = ground arith
  handle_event-Spares getenv source other = ground arith

module _ (h : ℕ) where
  pub NotHeld-insert :
      (sid : Str) (st : SessionState) (m : Map SessionState)
      → st.llm_cancel ≢ some h
      → NotHeld h m
      → NotHeld h (insert sid st m)
  NotHeld-insert sid st m f all k st' e = elim (Bool-cases (str_eq sid k)) [
    | inl same ↦ ground (arith, lookup-insert sid k st m)
    | inr differs ↦ all k st' (ground (arith, lookup-insert sid k st m))
  ]

  pub get_or_create_session-free :
      (s : Server) (sid : Str)
      → NotHeld h s.sess
      → (get_or_create_session s sid).llm_cancel ≢ some h
  unfolding get_or_create_session new_session
  get_or_create_session-free s sid all = elim (Option-cases (lookup sid s.sess)) [
    | inl e ↦ rw e (λ e'. cc)
    | inr (st, e) ↦ rw e (all sid st e)
  ]

  pub attach_llm-NotHeld :
      (s : Server) (sid : Str) (handle : ℕ)
      → handle ≢ h
      → NotHeld h s.sess
      → NotHeld h (attach_llm s sid handle).sess
  attach_llm-NotHeld s sid handle ne all =
      attach_llm_keeps (NotHeld h) s sid handle
        (λ st e. NotHeld-insert sid _ s.sess (ground arith) all) all

  pub detach_llm-NotHeld :
      (s : Server) (sid : Str) → NotHeld h s.sess → NotHeld h (detach_llm s sid).sess
  detach_llm-NotHeld s sid all =
      detach_llm_keeps (NotHeld h) s sid (λ st e. NotHeld-insert sid _ s.sess (ground arith) all)
        all
