-- ===== src/Examples/Tts.antt =====
-- Runs of internal/tts/server.go on concrete inputs.
use yuzu_agent_webrtc_toy.Prelude.{
  ℕ, ◌≡◌, refl, ◌==◌, Bool, false, List, [], ◌∷◌, ◌++◌, none, some, arith, replicate,
}
use yuzu_agent_webrtc_toy.Text.{Str, codes, joined}
use yuzu_agent_webrtc_toy.Tts.{Effect, response, on_audio, synthesize}
use yuzu_agent_webrtc_toy.Tts.Frames.{AllFrames, sent_frames, on_audio_whole}
use yuzu_agent_webrtc_toy.Tts.Outcomes.{CountsOnce, synthesize-CountsOnce}

-- A whole frame and a shorter one, whose send fails.
abbrev pcm : Str
pcm = replicate 2000 7

abbrev second_fails : ℕ → Bool
second_fails pos = pos == 1920

on_audio_whole_example :
    (es : List Effect) × (on_audio pcm none (λ i. false) ≡ some es)
    × AllFrames (sent_frames es)
    × (joined (sent_frames es) ≡ pcm)
on_audio_whole_example = on_audio_whole pcm (λ i. false) (omega arith) (λ i. refl)

synthesize-CountsOnce_example :
    CountsOnce
      (synthesize
        (codes "key")
        (record { session_id = codes "s1"; voice_id = codes "v1"; text = codes "Hi." })
        (λ req. response 200 pcm none)
        second_fails).0
synthesize-CountsOnce_example =
    synthesize-CountsOnce (codes "key")
      (record { session_id = codes "s1"; voice_id = codes "v1"; text = codes "Hi." })
      (λ req. response 200 pcm none) second_fails

-- Two samples.
abbrev samples : Str
samples = 1 ∷ (2 ∷ (255 ∷ (254 ∷ [])))

-- A file whose format chunk has no bytes and stands at its end.
abbrev short_file : Str
short_file =
    codes "RIFF"
    ++ (0
        ∷ (0
            ∷ (0
                ∷ (0
                    ∷ (codes "WAVEJUNK"
                        ++ (24
                            ∷ (0
                                ∷ (0
                                    ∷ (0
                                        ∷ (replicate 24 0
                                            ++ (codes "fmt "
                                                ++ (0 ∷ (0 ∷ (0 ∷ (0 ∷ [])))))))))))))))
