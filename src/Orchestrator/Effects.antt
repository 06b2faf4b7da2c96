-- ===== src/Orchestrator/Effects.antt =====
-- Counting what the orchestrator does: commands, metrics, and calls of cancel functions.
use yuzu_agent_webrtc_toy.Prelude.{
  ℕ, ◌+◌, ◌≤◌, ◌≡◌, Bool, true, false, not, ◌&&◌, List, [], ◌∷◌, ◌++◌, arith, ◌==◌, if◌then◌else◌,
}
use yuzu_agent_webrtc_toy.Prelude.Int.{ℤ}
use yuzu_agent_webrtc_toy.Text.{Str, str_eq, codes}
use yuzu_agent_webrtc_toy.Clock.{Time}
use yuzu_agent_webrtc_toy.Orchestrator.State.{
  SessionState, Effect, send, inc, observe, transition, cancel, spawn_llm, start_mic_to_stt,
  start_tts, stop_tts, arm_barge_in, Counter, vad_starts, barge_in, barge_in_total, Histogram,
  vad_agree_gateway_ms, vad_agree_feature_ms,
}
use yuzu_agent_webrtc_toy.Orchestrator.Vad.{
  cancel_llm, observe_latency, observe_agreement, trigger_barge_in, handle_gateway_vad_primary,
}

-- How many effects pass a test.
unfoldable pub count_effects : (Effect → Bool) → List Effect → ℕ
count_effects p [] = 0
count_effects p (e ∷ es) = (if p e then 1 else 0) + count_effects p es

pub count_effects-append :
    (p : Effect → Bool) (es fs : List Effect)
    → count_effects p (es ++ fs) ≡ count_effects p es + count_effects p fs
unfolding count_effects
count_effects-append p [] fs = omega arith
count_effects-append p (e ∷ es) fs = omega (arith, count_effects-append p es fs)

-- A `StopTTS` command, to whichever session.
abbrev pub is_stop : Effect → Bool
is_stop (send sid (stop_tts reason)) = true
is_stop (send sid start_mic_to_stt) = false
is_stop (send sid (start_tts text)) = false
is_stop (send sid (arm_barge_in guard_ms min_rms)) = false
is_stop (inc c) = false
is_stop (observe h v) = false
is_stop (transition a b) = false
is_stop (cancel h) = false
is_stop (spawn_llm sid text) = false

-- A `StopTTS` command to one session.
abbrev pub is_stop_to : Str → Effect → Bool
is_stop_to k (send sid c) = str_eq sid k && is_stop (send sid c)
is_stop_to k (inc c) = false
is_stop_to k (observe h v) = false
is_stop_to k (transition a b) = false
is_stop_to k (cancel h) = false
is_stop_to k (spawn_llm sid text) = false

-- A command to any session but one.
abbrev pub is_sent_past : Str → Effect → Bool
is_sent_past k (send sid c) = not (str_eq sid k)
is_sent_past k (inc c) = false
is_sent_past k (observe h v) = false
is_sent_past k (transition a b) = false
is_sent_past k (cancel h) = false
is_sent_past k (spawn_llm sid text) = false

abbrev is_same : Counter → Counter → Bool
is_same barge_in barge_in = true
is_same barge_in_total barge_in_total = true
is_same _ _ = false

-- An increment of the metric of barge-ins, or of the one of all barge-ins.
abbrev pub is_inc : Counter → Effect → Bool
is_inc k (inc c) = is_same k c
is_inc k (send sid c) = false
is_inc k (observe h v) = false
is_inc k (transition a b) = false
is_inc k (cancel h) = false
is_inc k (spawn_llm sid text) = false

-- The call of one cancel function.
abbrev pub is_cancel : ℕ → Effect → Bool
is_cancel k (cancel h) = h == k
is_cancel k (inc c) = false
is_cancel k (send sid c) = false
is_cancel k (observe h v) = false
is_cancel k (transition a b) = false
is_cancel k (spawn_llm sid text) = false

-- The latency and agreement metrics are observations and nothing else.
abbrev IgnoresObserve : (Effect → Bool) → Type 0
IgnoresObserve p = (h : Histogram) (v : ℤ) → p (observe h v) ≡ false

pub count_effects-observe_latency :
    (p : Effect → Bool) (st : SessionState) (now : Time)
    → IgnoresObserve p
    → count_effects p (observe_latency st now) ≡ 0
unfolding count_effects observe_latency
count_effects-observe_latency p st now none = grind (arith, none)

pub count_effects-observe_agreement :
    (p : Effect → Bool) (h : Histogram) (start now : Time)
    → IgnoresObserve p
    → count_effects p (observe_agreement h start now) ≡ 0
unfolding count_effects observe_agreement
count_effects-observe_agreement p h start now none = grind (arith, none)

-- A test that no observation and no cancellation passes.
abbrev pub OnlyCommands : (Effect → Bool) → Type 0
OnlyCommands p = IgnoresObserve p × ((h : ℕ) → p (cancel h) ≡ false)

count_effects-cancel_llm :
    (p : Effect → Bool) (st : SessionState) → OnlyCommands p → count_effects p (cancel_llm st).1 ≡ 0
unfolding count_effects cancel_llm
count_effects-cancel_llm p st only = grind (arith, only.1)

-- A barge-in of the frame detector is a start of speech, a stop and two metrics, to such a test.
pub count_effects-trigger_barge_in :
    (p : Effect → Bool) (st : SessionState) (now : Time) (sid : Str)
    → OnlyCommands p
    → count_effects p (trigger_barge_in st now sid).1
      ≡ count_effects p (
          inc vad_starts
          ∷ send sid (stop_tts (codes "barge_in"))
          ∷ inc barge_in
          ∷ inc barge_in_total
          ∷ [])
unfolding trigger_barge_in count_effects
count_effects-trigger_barge_in p st now sid only =
    let st' = record st { speaking = true; non_speech = 0; last_feature_start = now } in
    let (quiet, cancelled) = cancel_llm st' in
    let latency = observe_latency quiet now in
    let agreement = observe_agreement vad_agree_gateway_ms quiet.last_gateway_start now in
    omega (
      arith,
      count_effects-append p cancelled (latency ++ agreement),
      count_effects-append p latency agreement,
      count_effects-cancel_llm p st' only,
      count_effects-observe_latency p quiet now only.0,
      count_effects-observe_agreement p vad_agree_gateway_ms quiet.last_gateway_start now only.0,
    )

-- The same of the gateway's detector as the primary one.
pub count_effects-handle_gateway_vad_primary :
    (p : Effect → Bool) (st : SessionState) (now : Time) (sid : Str)
    → OnlyCommands p
    → count_effects p (handle_gateway_vad_primary st now sid).1
      ≡ count_effects p
          (send sid (stop_tts (codes "barge_in")) ∷ inc barge_in ∷ inc barge_in_total ∷ [])
unfolding handle_gateway_vad_primary count_effects
count_effects-handle_gateway_vad_primary p st now sid only =
    let (quiet, cancelled) = cancel_llm st in
    let agreement = observe_agreement vad_agree_feature_ms quiet.last_feature_start now in
    omega (
      arith,
      count_effects-append p cancelled agreement,
      count_effects-cancel_llm p st only,
      count_effects-observe_agreement p vad_agree_feature_ms quiet.last_feature_start now only.0,
    )

stop_to-le :
    (k : Str) (e : Effect) → (if is_stop_to k e then 1 else 0) ≤ (if is_stop e then 1 else 0)
stop_to-le k e = ground arith

-- Stops to one session are stops.
pub stops_to-le :
    (k : Str) (es : List Effect) → count_effects (is_stop_to k) es ≤ count_effects is_stop es
unfolding count_effects
stops_to-le k [] = omega arith
stops_to-le k (e ∷ es) = omega (arith, stop_to-le k e, stops_to-le k es)
