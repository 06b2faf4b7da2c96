-- ===== src/Tts/Outcomes.antt =====
-- Each session of internal/tts/server.go ends in one outcome.
use yuzu_agent_webrtc_toy.Prelude.{
  ℕ, ◌/◌, ◌≡◌, refl, Bool, true, List, [], ◌∷◌, Option, none, some, arith, length, ◌==◌, Bool-cases,
  inl, inr,
}
use yuzu_agent_webrtc_toy.Text.{Str, is_empty}
use yuzu_agent_webrtc_toy.Tts.{
  StartRequest, SpeechRequest, speech_request, Effect, send, synthesis, observe, HttpResult,
  request_fails, call_fails, response, connected, prepend, fail_with, on_audio, on_http, synthesize,
  success, total_duration_ms, eleven_labs_latency_ms,
}
use yuzu_agent_webrtc_toy.Tts.Frames.{outcomes, outcomes-append, audio_loop-Ended}

-- Effects were produced, and count one outcome.
abbrev pub CountsOnce : Option (List Effect) → Type 0
CountsOnce none = ⊥
CountsOnce (some es) = outcomes es ≡ 1

on_audio-CountsOnce :
    (pcm : Str) (err : Option Str) (fails : ℕ → Bool) → CountsOnce (on_audio pcm err fails)
unfolding on_audio fail_with outcomes
on_audio-CountsOnce pcm (some err) fails = omega arith
on_audio-CountsOnce [] none fails = omega arith
on_audio-CountsOnce (b ∷ pcm) none fails =
    let n = length (b ∷ pcm) in
    let run = audio_loop-Ended n (b ∷ pcm) 0 true fails (omega arith) (omega arith) in
    let tail = observe total_duration_ms ∷ (synthesis success ∷ []) in
    elim (Bool-cases run.done) [
      | inl e ↦
          let none_yet : outcomes run.effects ≡ 0 = rw (run.counted, e) in
          rw (run.ended, e) (omega (arith, outcomes-append run.effects tail))
      | inr e ↦ rw (run.ended, e) (rw (run.counted, e))
    ]

-- Effects in front that count no outcome.
prepend-CountsOnce :
    (e : Effect) (es : Option (List Effect))
    → outcomes (e ∷ []) ≡ 0
    → CountsOnce es
    → CountsOnce (prepend (e ∷ []) es)
prepend-CountsOnce e none h k = absurd k
prepend-CountsOnce e (some es) h k = omega (arith, outcomes-append (e ∷ []) es)

on_http-CountsOnce : (http : HttpResult) (fails : ℕ → Bool) → CountsOnce (on_http http fails).0
unfolding on_http fail_with outcomes
on_http-CountsOnce (request_fails err) fails = omega arith
on_http-CountsOnce (call_fails err) fails = omega arith
on_http-CountsOnce (response status body err) fails = elim (Bool-cases (status / 100 == 2)) [
  | inl e ↦ rw e (
      prepend-CountsOnce (observe eleven_labs_latency_ms) (on_audio body err fails) refl
        (on_audio-CountsOnce body err fails))
  | inr e ↦ rw e refl
]

-- A session whose start request came in always comes to its end, and counts exactly one outcome,
-- whatever the key, the request, the answer of ElevenLabs and the sends that fail.
pub synthesize-CountsOnce :
    (api_key : Str) (start : StartRequest) (http : SpeechRequest → HttpResult) (fails : ℕ → Bool)
    → CountsOnce (synthesize api_key start http fails).0
unfolding synthesize fail_with outcomes
synthesize-CountsOnce api_key start http fails = elim (Bool-cases (is_empty api_key)) [
  | inl e ↦ rw e refl
  | inr e ↦
      let answer = http (speech_request api_key start) in
      rw e (
        prepend-CountsOnce (send (connected start.session_id)) (on_http answer fails).0 refl
          (on_http-CountsOnce answer fails))
]
