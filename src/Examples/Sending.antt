-- ===== src/Examples/Sending.antt =====
-- Runs of the goroutine of internal/stt/deepgram.go that sends audio, on concrete inputs.
use yuzu_agent_webrtc_toy.Prelude.{◌*◌, ◌≡◌, refl, true, false, [], ◌∷◌}
use yuzu_agent_webrtc_toy.Text.{Str, codes}
use yuzu_agent_webrtc_toy.Clock.{second}
use yuzu_agent_webrtc_toy.Stt.Sending.{
  Wire, new_wire, new_sender, send, dialled, hung_up, frame, writes, round,
}
use yuzu_agent_webrtc_toy.Stt.Sending.Queue.{
  IsAccounted, here, next, sends, dials, runs, audio-IsAccounted, frame_after_hangup_panics,
}

abbrev getenv : Str → Str
getenv key = []

abbrev connected : Wire
connected = dialled new_wire 1 second

-- Two connections, whose goroutines take a frame each before the second one writes.
abbrev two_taken : Wire
two_taken =
    round getenv
      (round getenv (send (send (dialled connected 2 second) (codes "a")).0 (codes "b")).0 0 frame
        second false)
      1 frame second false

audio-IsAccounted_example : IsAccounted (round getenv two_taken 1 writes second false)
audio-IsAccounted_example =
    audio-IsAccounted getenv (round getenv two_taken 1 writes second false) (
      next
        (next
          (next
            (next (next (next (next here (dials 1 second)) (dials 2 second)) (sends (codes "a")))
              (sends (codes "b")))
            (runs 0 frame second false))
          (runs 1 frame second false))
        (runs 1 writes second false))

-- The left-over goroutine writes behind the other one: "b" goes first.
overtaken :
    (round getenv (round getenv two_taken 1 writes second false) 0 writes second false).written
    ≡ (2, codes "b") ∷ ((2, codes "a") ∷ [])
unfolding new_wire dialled send round
overtaken = refl

frame_after_hangup_panics_example :
    (round getenv
      (round getenv (send (hung_up connected) (codes "a")).0 0 frame (2 * second) false)
      0
      writes
      (2 * second)
      false).crashed
    ≡ true
unfolding new_wire dialled
frame_after_hangup_panics_example =
    frame_after_hangup_panics getenv connected 0 (new_sender second) (codes "a") (2 * second)
      (2 * second) false refl refl refl refl
