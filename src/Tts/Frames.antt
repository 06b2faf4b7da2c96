-- ===== src/Tts/Frames.antt =====
-- The frames that internal/tts/server.go cuts its audio into.
use yuzu_agent_webrtc_toy.Prelude.{
  ℕ, zero, suc, ◌+◌, ◌-◌, ◌≤◌, ◌<◌, ◌≡◌, refl, ap, Bool, true, false, List, [], ◌∷◌, ◌++◌, Option,
  none, some, arith, length, take, drop, length-take, length-drop, take-append-drop, ltb,
  if◌then◌else◌, Bool-cases, ltb→lt, inl, inr,
}
use yuzu_agent_webrtc_toy.Text.{Str, joined}
use yuzu_agent_webrtc_toy.Tts.{
  connected, error_message, audio, stream_error, success, total_duration_ms, Effect, send,
  send_failed, synthesis, observe, frame_bytes, frame_end, slice, first_observed, audio_loop,
  on_audio,
}

-- The reference: the bytes in frames of `frame_bytes`, the last one shorter. The count of rounds is
-- the length, which is enough.
unfoldable pub frames_of : ℕ → Str → List Str
frames_of zero b = []
frames_of (suc n) b =
    let rest = frames_of n (drop frame_bytes b) in
    if ltb 0 (length b) then take frame_bytes b ∷ rest else []

-- The audio frames that were sent.
unfoldable pub sent_frames : List Effect → List Str
sent_frames [] = []
sent_frames (send (audio chunk) ∷ es) = chunk ∷ sent_frames es
sent_frames (send (connected id) ∷ es) = sent_frames es
sent_frames (send (error_message code message) ∷ es) = sent_frames es
sent_frames (send_failed m ∷ es) = sent_frames es
sent_frames (synthesis label ∷ es) = sent_frames es
sent_frames (observe h ∷ es) = sent_frames es

-- The outcomes that were counted.
unfoldable pub outcomes : List Effect → ℕ
outcomes [] = 0
outcomes (synthesis label ∷ es) = 1 + outcomes es
outcomes (send m ∷ es) = outcomes es
outcomes (send_failed m ∷ es) = outcomes es
outcomes (observe h ∷ es) = outcomes es

drop_nil : (n : ℕ) → drop n (let b : Str = [] in b) ≡ []
drop_nil zero = refl
drop_nil (suc n) = refl

drop-drop : (m n : ℕ) (b : Str) → drop m (drop n b) ≡ drop (n + m) b
drop-drop m zero b = let e : 0 + m ≡ m = omega arith in rw e
drop-drop m (suc n) [] = rw (drop_nil m, drop_nil (suc n + m))
drop-drop m (suc n) (x ∷ b) =
    let e : suc n + m ≡ suc (n + m) = omega arith in rw e (drop-drop m n b)

take_all : (n : ℕ) (b : Str) → length b ≤ n → take n b ≡ b
take_all zero [] h = refl
take_all zero (x ∷ b) h = absurd (omega arith)
take_all (suc n) [] h = refl
take_all (suc n) (x ∷ b) h = ap (λ (s : Str). x ∷ s) (take_all n b (omega arith))

drop_all : (n : ℕ) (b : Str) → length b ≤ n → drop n b ≡ []
drop_all zero [] h = refl
drop_all zero (x ∷ b) h = absurd (omega arith)
drop_all (suc n) [] h = refl
drop_all (suc n) (x ∷ b) h = drop_all n b (omega arith)

-- A round of the loop cuts a frame of the reference, and leaves what the reference leaves.
module _ (pcm : Str) (pos : ℕ) where
  frame_end_bounds : pos < length pcm → (pos < frame_end pcm pos) × (frame_end pcm pos ≤ length pcm)
  unfolding frame_end
  frame_end_bounds h = ground arith

  slice-frame_end : slice pcm pos (frame_end pcm pos) ≡ take frame_bytes (drop pos pcm)
  unfolding frame_end
  slice-frame_end = elim (Bool-cases (ltb (length pcm) (pos + frame_bytes))) [
    | inl e ↦ rw (
      e,
      take_all (length pcm - pos) (drop pos pcm) (omega (arith, length-drop pos pcm)),
      take_all frame_bytes (drop pos pcm) (omega (arith, length-drop pos pcm, ltb→lt _ _ e)),
    )
    | inr e ↦ let same : pos + frame_bytes - pos ≡ frame_bytes = omega arith in rw (e, same)
  ]

  drop-frame_end : drop (frame_end pcm pos) pcm ≡ drop frame_bytes (drop pos pcm)
  unfolding frame_end
  drop-frame_end = elim (Bool-cases (ltb (length pcm) (pos + frame_bytes))) [
    | inl e ↦ rw (
      e,
      drop_all (length pcm) pcm (omega arith),
      drop_all frame_bytes (drop pos pcm) (omega (arith, length-drop pos pcm, ltb→lt _ _ e)),
    )
    | inr e ↦ rw (e, drop-drop frame_bytes pos pcm)
  ]

-- What a loop that ended has done: the frames it sent are the first ones of the reference, and all of
-- them where it was done, as it was where no send fails.
pub record Ended (frames : List Str) (fails : ℕ → Bool) (r : Option (List Effect × Bool))
    : Type 0 where
  pub effects : List Effect
  pub done : Bool
  pub unsent : List Str
  pub ended : r ≡ some (effects, done)
  pub split : frames ≡ sent_frames effects ++ unsent
  pub complete : done ≡ true → unsent ≡ []
  pub counted : outcomes effects ≡ (if done then 0 else 1)
  pub reliable : ((i : ℕ) → fails i ≡ false) → done ≡ true

sent_frames-first :
    (first : Bool) (es : List Effect) → sent_frames (first_observed first ++ es) ≡ sent_frames es
unfolding sent_frames
sent_frames-first true es = refl
sent_frames-first false es = refl

outcomes-first :
    (first : Bool) (es : List Effect) → outcomes (first_observed first ++ es) ≡ outcomes es
unfolding outcomes
outcomes-first true es = refl
outcomes-first false es = refl

pub outcomes-append : (es fs : List Effect) → outcomes (es ++ fs) ≡ outcomes es + outcomes fs
unfolding outcomes
outcomes-append [] fs = omega arith
outcomes-append (synthesis label ∷ es) fs = omega (arith, outcomes-append es fs)
outcomes-append (send m ∷ es) fs = outcomes-append es fs
outcomes-append (send_failed m ∷ es) fs = outcomes-append es fs
outcomes-append (observe h ∷ es) fs = outcomes-append es fs

-- From any position, and whatever sends fail, the loop ends within one round more than the bytes that
-- are left: it sends the first frames of the reference, all of them where it reports that it is done,
-- and it is done where no send fails.
pub audio_loop-Ended :
    (fuel : ℕ) (pcm : Str) (pos : ℕ) (first : Bool) (fails : ℕ → Bool)
    → pos ≤ length pcm
    → length pcm ≤ pos + fuel
    → Ended (frames_of fuel (drop pos pcm)) fails (audio_loop (suc fuel) pcm pos first fails)
unfolding audio_loop frames_of sent_frames outcomes
audio_loop-Ended zero pcm pos first fails le h =
    let over : ltb pos (length pcm) ≡ false = ground arith in
    record {
      effects = [];
      done = true;
      unsent = [];
      ended = rw over;
      split = refl;
      complete = λ _. refl;
      counted = refl;
      reliable = λ _. refl;
    }
audio_loop-Ended (suc fuel) pcm pos first fails le h = elim (Bool-cases (ltb pos (length pcm))) [
  | inr over ↦
      let empty : ltb 0 (length (drop pos pcm)) ≡ false = ground (arith, length-drop pos pcm) in
      record {
        effects = [];
        done = true;
        unsent = [];
        ended = rw over;
        split = rw empty;
        complete = λ _. refl;
        counted = refl;
        reliable = λ _. refl;
      }
  | inl more ↦
      let some_left : ltb 0 (length (drop pos pcm)) ≡ true = ground (arith, length-drop pos pcm) in
      let to = frame_end pcm pos in
      let (up, low) = frame_end_bounds pcm pos (ltb→lt _ _ more) in
      let rest = audio_loop-Ended fuel pcm to false fails low (omega (arith, up)) in
      elim (Bool-cases (fails pos)) [
        | inl broken ↦ record {
          effects = send_failed (audio (slice pcm pos to)) ∷ (synthesis stream_error ∷ []);
          done = false;
          unsent = frames_of (suc fuel) (drop pos pcm);
          ended = rw (more, broken);
          split = refl;
          complete = λ e. cc;
          counted = omega arith;
          reliable = λ all. cc (all pos);
        }
        | inr works ↦ record {
          effects = send (audio (slice pcm pos to)) ∷ (first_observed first ++ rest.effects);
          done = rest.done;
          unsent = rest.unsent;
          ended = rw (more, works, rest.ended);
          split = rw (
            some_left,
            sent_frames-first first rest.effects,
            slice-frame_end pcm pos,
            ← drop-frame_end pcm pos,
            rest.split,
          );
          complete = rest.complete;
          counted = rw (outcomes-first first rest.effects) rest.counted;
          reliable = rest.reliable;
        }
      ]
]

-- The frames of the reference, in a row, are the bytes.
joined-frames_of : (n : ℕ) (b : Str) → length b ≤ n → joined (frames_of n b) ≡ b
unfolding joined frames_of
joined-frames_of zero [] h = refl
joined-frames_of zero (x ∷ b) h = absurd (omega arith)
joined-frames_of (suc n) b h = elim (Bool-cases (ltb 0 (length b))) [
  | inl e ↦ rw (
    e,
    joined-frames_of n (drop frame_bytes b)
        (omega (arith, length-drop frame_bytes b, ltb→lt _ _ e)),
    take-append-drop frame_bytes b,
  )
  | inr e ↦ rw e (take_all 0 b (ground arith))
]

-- Each frame of the reference has between one and `frame_bytes` bytes.
abbrev pub AllFrames : List Str → Type 0
AllFrames [] = Unit
AllFrames (c ∷ cs) = (0 < length c) × (length c ≤ frame_bytes) × AllFrames cs

frames_of-AllFrames : (n : ℕ) (b : Str) → AllFrames (frames_of n b)
unfolding frames_of
frames_of-AllFrames zero b = tt
frames_of-AllFrames (suc n) b = elim (Bool-cases (ltb 0 (length b))) [
  | inl e ↦ rw e (
    omega (arith, length-take frame_bytes b, ltb→lt _ _ e),
    omega (arith, length-take frame_bytes b),
    frames_of-AllFrames n (drop frame_bytes b),
  )
  | inr e ↦ rw e tt
]

sent_frames-append :
    (es fs : List Effect) → sent_frames (es ++ fs) ≡ sent_frames es ++ sent_frames fs
unfolding sent_frames
sent_frames-append [] fs = refl
sent_frames-append (send (audio chunk) ∷ es) fs = rw (sent_frames-append es fs)
sent_frames-append (send (connected id) ∷ es) fs = sent_frames-append es fs
sent_frames-append (send (error_message code message) ∷ es) fs = sent_frames-append es fs
sent_frames-append (send_failed m ∷ es) fs = sent_frames-append es fs
sent_frames-append (synthesis label ∷ es) fs = sent_frames-append es fs
sent_frames-append (observe h ∷ es) fs = sent_frames-append es fs

-- Where an answer has audio and no send fails, the frames that are sent have between one and 1920 bytes
-- each, and put in a row they are the audio: nothing is lost, added or moved.
pub on_audio_whole :
    (pcm : Str) (fails : ℕ → Bool)
    → 0 < length pcm
    → ((i : ℕ) → fails i ≡ false)
    → (es : List Effect) × (on_audio pcm none fails ≡ some es)
      × AllFrames (sent_frames es)
      × (joined (sent_frames es) ≡ pcm)
unfolding on_audio sent_frames
on_audio_whole [] fails h works = absurd (omega arith)
on_audio_whole (b ∷ pcm) fails h works =
    let n = length (b ∷ pcm) in
    let run = audio_loop-Ended n (b ∷ pcm) 0 true fails (omega arith) (omega arith) in
    let tail = observe total_duration_ms ∷ (synthesis success ∷ []) in
    let done = run.reliable works in
    let ended : on_audio (b ∷ pcm) none fails ≡ some (run.effects ++ tail) = rw (run.ended, done) in
    let frames : frames_of n (b ∷ pcm) ≡ sent_frames (run.effects ++ tail) =
      rw (sent_frames-append run.effects tail, run.split, run.complete done) in
    (
      run.effects ++ tail,
      ended,
      rw (← frames) (frames_of-AllFrames n (b ∷ pcm)),
      rw (← frames) (joined-frames_of n (b ∷ pcm) (omega arith)),
    )
