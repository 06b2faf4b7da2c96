-- ===== src/Orchestrator/Debounce.antt =====
-- How often the frame detector of internal/orchestrator/vad.go can trigger a barge-in.
use yuzu_agent_webrtc_toy.Prelude.{
  ℕ, suc, ◌+◌, ◌*◌, ◌≤◌, ◌<◌, ◌≡◌, Bool, true, false, List, [], ◌∷◌, arith, if◌then◌else◌,
}
use yuzu_agent_webrtc_toy.Text.{Str}
use yuzu_agent_webrtc_toy.Clock.{Time, before}
use yuzu_agent_webrtc_toy.Orchestrator.State.{SessionState, Rms, rms_ge, rms_lt}
use yuzu_agent_webrtc_toy.Orchestrator.Vad.{handle_feature_primary, trigger_barge_in, cancel_llm}

-- A session fed with frames: its last state, and how often a barge-in was triggered.
abbrev add_trigger : Bool → ℕ → ℕ
add_trigger true n = suc n
add_trigger false n = n

unfoldable pub run_features : Str → SessionState → List (Rms × Time) → SessionState × ℕ
run_features sid st [] = (st, 0)
run_features sid st ((rms, now) ∷ frames) =
    let (st', effects, triggered) = handle_feature_primary st rms now sid in
    let (st'', n) = run_features sid st' frames in (st'', add_trigger triggered n)

-- The frames at or above a threshold, and those below it.
abbrev pub loud_frames : ℕ → List (Rms × Time) → ℕ
loud_frames t [] = 0
loud_frames t ((rms, now) ∷ frames) = (if rms_ge rms t then 1 else 0) + loud_frames t frames

abbrev pub quiet_frames : ℕ → List (Rms × Time) → ℕ
quiet_frames t [] = 0
quiet_frames t ((rms, now) ∷ frames) = (if rms_lt rms t then 1 else 0) + quiet_frames t frames

-- What the current counters already contribute to the next barge-in.
abbrev credit : SessionState → ℕ
credit st = if st.speaking then 0 else st.consec_speech

abbrev allowance : SessionState → ℕ
allowance st = if st.speaking then st.non_speech else st.hangover

-- What one frame does to the detector, with the barge-in's other effects left out.
record FrameLaw (st : SessionState) (rms : Rms) (next : SessionState) (triggered : Bool)
    : Type 0 where
  same_start : next.min_start ≡ st.min_start
  same_hang : next.hangover ≡ st.hangover
  same_threshold : next.min_rms ≡ st.min_rms
  loud_cost :
      (if triggered then st.min_start else 0) + credit next
      ≤ (if rms_ge rms st.min_rms then 1 else 0) + credit st
  quiet_cost :
      (if triggered then st.hangover else 0) + allowance next
      ≤ (if rms_lt rms st.min_rms then 1 else 0) + allowance st
  valid : next.speaking ≡ true → next.non_speech < next.hangover

frame_law :
    (st : SessionState) (rms : Rms) (now : Time) (sid : Str)
    → 0 < st.hangover
    → (st.speaking ≡ true → st.non_speech < st.hangover)
    → FrameLaw st rms
        (handle_feature_primary st rms now sid).0
        (handle_feature_primary st rms now sid).2
unfolding handle_feature_primary trigger_barge_in cancel_llm
frame_law st rms now sid h v = ground arith

add_trigger_step :
    (t : Bool) (n m one rest before now : ℕ)
    → (if t then m else 0) + now ≤ one + before
    → n * m ≤ rest + now
    → add_trigger t n * m ≤ one + rest + before
add_trigger_step true n m one rest before now h k = omega (arith, h, k)
add_trigger_step false n m one rest before now h k = omega (arith, h, k)

-- The counters and the thresholds of the session, the latter by their values.
record Config (st : SessionState) (m h t : ℕ) : Type 0 where
  start : st.min_start ≡ m
  hang : st.hangover ≡ h
  threshold : st.min_rms ≡ t
  positive : 0 < h
  valid : st.speaking ≡ true → st.non_speech < h

-- One frame: the session stays configured, and the counters pay for a barge-in.
module _ (sid : Str) {m h t : ℕ} (st : SessionState) (rms : Rms) (now : Time)
    (c : Config st m h t) where
  frame_costs :
      let (st', effects, b) = handle_feature_primary st rms now sid in
      Config st' m h t
      × ((if b then m else 0) + credit st' ≤ (if rms_ge rms t then 1 else 0) + credit st)
      × ((if b then h else 0) + allowance st' ≤ (if rms_lt rms t then 1 else 0) + allowance st)
  frame_costs =
      let law = frame_law st rms now sid (ground (arith, c)) (ground (arith, c)) in ground arith

module _ (sid : Str) (m h t : ℕ) where
  bounds :
      (st : SessionState) (frames : List (Rms × Time))
      → Config st m h t
      → ((run_features sid st frames).1 * m ≤ loud_frames t frames + credit st)
        × ((run_features sid st frames).1 * h ≤ quiet_frames t frames + allowance st)
  unfolding run_features
  bounds st [] c = (omega arith, omega arith)
  bounds st ((rms, now) ∷ frames) c =
      let (st', effects, b) = handle_feature_primary st rms now sid in
      let costs = frame_costs sid st rms now c in
      let ih = bounds st' frames costs.0 in
      (
        add_trigger_step b _ m _ (loud_frames t frames) (credit st) (credit st') costs.1 ih.0,
        add_trigger_step b _ h _ (quiet_frames t frames) (allowance st) (allowance st') costs.2
            ih.1,
      )

-- Over any frames at all: each barge-in takes `minStart` loud frames of its own, which may have begun
-- with those counted already, and between two barge-ins lie `hangover` quiet frames.
pub run_features_bounds :
    (sid : Str) (st : SessionState) (frames : List (Rms × Time))
    → 0 < st.hangover
    → st.non_speech < st.hangover
    → ((run_features sid st frames).1 * st.min_start
        ≤ loud_frames st.min_rms frames + (if st.speaking then 0 else st.consec_speech))
      × ((run_features sid st frames).1 * st.hangover
          ≤ quiet_frames st.min_rms frames + (if st.speaking then st.non_speech else st.hangover))
unfolding run_features
run_features_bounds sid st frames h v = bounds sid _ _ _ st frames (ground arith)
