-- ===== src/Examples/Stt.antt =====
-- Runs of internal/stt/session.go on concrete inputs.
use yuzu_agent_webrtc_toy.Prelude.{ℕ, ◌+◌, ◌*◌, ◌≡◌, ◌≤◌, refl, List, [], ◌∷◌, if◌then◌else◌}
use yuzu_agent_webrtc_toy.Text.{Str, codes, trim_space, decimal}
use yuzu_agent_webrtc_toy.Clock.{Time, millisecond, unix_epoch}
use yuzu_agent_webrtc_toy.Stt.Session.{
  Session, interim, final, utterance_end, limits, new_session, start_utterance, on_dg_event,
  on_interim, guardrail, commit_interim, first_interim, on_final, forward_final, observe_drain,
  on_utterance_end, new_utterance_id,
}
use yuzu_agent_webrtc_toy.Stt.Finals.{
  Input, provides, on_input, run_inputs, finals, openings, finals_bounded,
}
use yuzu_agent_webrtc_toy.Stt.Utterances.{forwarded}

abbrev pub no_env : Str → Str
no_env key = []

abbrev earliest_env : Str → Str
earliest_env key = codes "Earliest"

abbrev pub at : ℕ → Time
at ms = unix_epoch + ms * millisecond

abbrev pub session : Session
session = start_utterance (new_session no_env (codes "s1") (at 0)) (codes "u1") (at 0)

abbrev eager : Session
eager = start_utterance (new_session earliest_env (codes "s1") (at 0)) (codes "u1") (at 0)

abbrev talk : List (Input × Time)
talk =
    (provides (interim (codes "hello th")), at 300)
    ∷ ((provides (final (codes "hello there")), at 900)
        ∷ ((provides utterance_end, at 1500)
            ∷ ((provides (interim (codes "how are you")), at 4000)
                ∷ ((provides (final (codes "how are you")), at 4800) ∷ []))))

talk-forwarded :
    forwarded (run_inputs (limits no_env) session talk).1
    ≡ (codes "u1", codes "hello there") ∷ ((codes "utt-4000", codes "how are you") ∷ [])
unfolding forwarded run_inputs limits new_session start_utterance on_dg_event on_input on_interim
    guardrail commit_interim first_interim on_final trim_space forward_final observe_drain
    on_utterance_end new_utterance_id decimal
talk-forwarded = refl

finals_bounded_example :
    finals (run_inputs (limits no_env) session talk).1
    ≤ openings (run_inputs (limits no_env) session talk).1
      + (if session.final_emitted then 0 else 1)
finals_bounded_example = finals_bounded (limits no_env) session talk
