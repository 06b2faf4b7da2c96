-- ===== src/Orchestrator/Vad.antt =====
-- internal/orchestrator/vad.go: barge-in from loud audio frames or from the gateway's detector.
use yuzu_agent_webrtc_toy.Prelude.{
  ℕ, ◌+◌, ◌*◌, Bool, true, false, not, ◌&&◌, List, [], ◌∷◌, ◌++◌, none, some, leb, if◌then◌else◌,
}
use yuzu_agent_webrtc_toy.Prelude.Int.{pos, leb_ℤ}
use yuzu_agent_webrtc_toy.Text.{Str, codes, str_eq}
use yuzu_agent_webrtc_toy.Clock.{Time, is_zero, before, after, sub_time, milliseconds, millisecond}
use yuzu_agent_webrtc_toy.Orchestrator.State.{
  SessionState, Rms, rms_ge, rms_lt, Effect, send, inc, observe, cancel, stop_tts, Histogram,
  vad_features, vad_starts, vad_ends, barge_in, barge_in_total, barge_in_guard_blocks,
  barge_in_latency, vad_agree_gateway_ms, vad_agree_feature_ms,
}

-- The outcome of a handler: the session, what it did, and the Boolean that it returns.
abbrev pub Handled : Type 0
Handled = SessionState × List Effect × Bool

-- `cancelLLM`
unfoldable pub cancel_llm : SessionState → SessionState × List Effect
cancel_llm st =
    if st.llm_active
    then elim st.llm_cancel [
      | none ↦ (st, [])
      | some handle ↦ (record st { llm_active = false; llm_cancel = none }, cancel handle ∷ [])
    ]
    else (st, [])

-- The latency metric of a barge-in that came after the guard.
unfoldable pub observe_latency : SessionState → Time → List Effect
observe_latency st now =
    if not (is_zero st.guard_until) && after now st.guard_until
    then observe barge_in_latency (milliseconds (sub_time now st.guard_until)) ∷ []
    else []

-- The metric of the agreement with the other detector, which started at `start`.
unfoldable pub observe_agreement : Histogram → Time → Time → List Effect
observe_agreement h start now =
    if not (is_zero start) && leb_ℤ (pos 0) (sub_time now start)
    then observe h (milliseconds (sub_time now start)) ∷ []
    else []

-- The part of `handleFeaturePrimary` behind `consecSpeech >= minStart`.
unfoldable pub trigger_barge_in : SessionState → Time → Str → Handled
trigger_barge_in st now sid =
    let st' = record st { speaking = true; non_speech = 0; last_feature_start = now } in
    let (quiet, cancelled) = cancel_llm st' in
    (
      quiet,
      inc vad_starts
          ∷ send sid (stop_tts (codes "barge_in"))
          ∷ inc barge_in
          ∷ inc barge_in_total
          ∷ (cancelled
              ++ (observe_latency quiet now
                  ++ observe_agreement vad_agree_gateway_ms quiet.last_gateway_start now)),
      true,
    )

-- `handleFeaturePrimary` while the candidate is silent.
unfoldable pub feature_silent : SessionState → Rms → Time → Str → Handled
feature_silent st rms now sid =
    if before now st.guard_until && rms_ge rms st.min_rms
    then (st, inc barge_in_guard_blocks ∷ [], false)
    else if rms_ge rms st.min_rms
    then (let st' = record st { consec_speech = st.consec_speech + 1 } in
        if leb st'.min_start st'.consec_speech
        then trigger_barge_in st' now sid
        else (st', [], false))
    else (record st { consec_speech = 0 }, [], false)

-- The reset for the next utterance, behind `nonSpeech >= hangover`.
abbrev pub end_speech : SessionState → SessionState
end_speech st = record st {
  speaking = false;
  consec_speech = 0;
  non_speech = 0;
  last_feature_start = 0;
  last_gateway_start = 0;
}

-- `handleFeaturePrimary` while the candidate speaks.
unfoldable pub feature_speaking : SessionState → Rms → Handled
feature_speaking st rms =
    if rms_lt rms st.min_rms
    then (let st' = record st { non_speech = st.non_speech + 1 } in
        if leb st'.hangover st'.non_speech
        then (end_speech st', inc vad_ends ∷ [], false)
        else (st', [], false))
    else (record st { non_speech = 0 }, [], false)

-- `handleFeaturePrimary`
unfoldable pub handle_feature_primary : SessionState → Rms → Time → Str → Handled
unfolding feature_silent feature_speaking
handle_feature_primary st rms now sid =
    if st.speaking then feature_speaking st rms else feature_silent st rms now sid

-- `recordFeatureAgreement`
unfoldable pub record_feature_agreement : SessionState → Rms → Time → SessionState
record_feature_agreement st rms now =
    if rms_ge rms st.min_rms && is_zero st.last_feature_start
    then record st { last_feature_start = now }
    else st

-- `processFeature`; `source` is the server's `vadSource`.
unfoldable pub process_feature : Str → SessionState → Rms → Time → Str → Handled
unfolding handle_feature_primary record_feature_agreement
process_feature source st rms now sid =
    if str_eq source (codes "feature")
    then (let (st', effects, triggered) = handle_feature_primary st rms now sid in
        (st', inc vad_features ∷ effects, triggered))
    else (record_feature_agreement st rms now, inc vad_features ∷ [], false)

-- `handleGatewayVADPrimary`
unfoldable pub handle_gateway_vad_primary : SessionState → Time → Str → Handled
handle_gateway_vad_primary st now sid =
    let (quiet, cancelled) = cancel_llm st in
    (
      quiet,
      send sid (stop_tts (codes "barge_in"))
          ∷ inc barge_in
          ∷ inc barge_in_total
          ∷ (cancelled ++ observe_agreement vad_agree_feature_ms quiet.last_feature_start now),
      true,
    )

-- `recordGatewayAgreement`
unfoldable pub record_gateway_agreement : SessionState → Time → List Effect
record_gateway_agreement st now = observe_agreement vad_agree_gateway_ms st.last_feature_start now

-- `processGatewayVAD`
unfoldable pub process_gateway_vad : Str → SessionState → Time → Str → Handled
unfolding record_gateway_agreement
process_gateway_vad source st now sid =
    let st' = record st { last_gateway_start = now } in
    if str_eq source (codes "gateway")
    then handle_gateway_vad_primary st' now sid
    else (st', record_gateway_agreement st' now, false)

-- `armBargeIn`; `guard_ms` and `min_rms` are `uint32`.
unfoldable pub arm_barge_in_guard : SessionState → ℕ → ℕ → Time → SessionState
arm_barge_in_guard st guard_ms min_rms now = record st {
  min_rms = min_rms;
  armed_at = now;
  guard_until = now + guard_ms * millisecond;
}

-- `resetVADState`
unfoldable pub reset_vad_state : SessionState → SessionState
reset_vad_state st = record st { speaking = false; consec_speech = 0; non_speech = 0 }
