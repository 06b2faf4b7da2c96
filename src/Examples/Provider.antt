-- ===== src/Examples/Provider.antt =====
-- Runs of internal/stt/deepgram.go on concrete inputs.
use yuzu_agent_webrtc_toy.Prelude.{◌*◌, ◌≡◌, refl, true, false, List, [], ◌∷◌, none, arith}
use yuzu_agent_webrtc_toy.Text.{codes, trim_space}
use yuzu_agent_webrtc_toy.Clock.{millisecond}
use yuzu_agent_webrtc_toy.Stt.Session.{meta, limits, new_session, start_utterance, on_dg_event}
use yuzu_agent_webrtc_toy.Stt.Provider.{
  DeepgramConn, new_deepgram_conn, pumped, add_failure, recent, on_frames, Frame,
}
use yuzu_agent_webrtc_toy.Stt.Circuit.{IsOpen, Round, dials, open_circuit_never_dials}
use yuzu_agent_webrtc_toy.Stt.Finals.{run_inputs, on_input}
use yuzu_agent_webrtc_toy.Stt.Utterances.{forwarded}
use yuzu_agent_webrtc_toy.Stt.Pipeline.{
  emit_all, events, arrivals, results_frame, end_frame, final_forwarded_once,
}
use yuzu_agent_webrtc_toy.Examples.Stt.{no_env, session, at}

-- A connection whose first three dials fail, with the pauses of one and two seconds between them.
abbrev refused_thrice : DeepgramConn
refused_thrice =
    (add_failure (add_failure (add_failure new_deepgram_conn (at 0)).0 (at 1100)).0 (at 3200)).0

refused_thrice-IsOpen : IsOpen refused_thrice (at 3200)
unfolding add_failure recent new_deepgram_conn
refused_thrice-IsOpen = record {
  older = at 0 ∷ [];
  previous = at 1100;
  fails = refl;
  ordered = omega arith;
  circuit = refl;
}

-- Rounds in which the provider would have answered.
abbrev answered : Round
answered = record { wait = millisecond; work = 501 * millisecond; service = pumped [] none }

open_circuit_never_dials_example : dials refused_thrice (at 3200) (answered ∷ (answered ∷ [])) ≡ 0
open_circuit_never_dials_example =
    open_circuit_never_dials refused_thrice (at 3200) (answered ∷ (answered ∷ []))
      refused_thrice-IsOpen ((omega arith, omega arith), ((omega arith, omega arith), tt))

abbrev spoken : List Frame
spoken =
    results_frame false (codes " hello")
    ∷ (results_frame true (codes " hello there ") ∷ (end_frame ∷ []))

final_forwarded_once_example :
    forwarded
      (run_inputs (limits no_env) session (
        arrivals
          (emit_all (meta ∷ []) (
            events
              (on_frames new_deepgram_conn
                (results_frame true (codes " hello there ") ∷ (end_frame ∷ []))).1))
          (at 899 ∷ (at 900 ∷ (at 901 ∷ (at 902 ∷ [])))))).1
    ≡ (codes "u1", codes "hello there") ∷ []
unfolding start_utterance new_session trim_space run_inputs on_input on_dg_event forwarded
final_forwarded_once_example =
    final_forwarded_once (limits no_env) new_deepgram_conn session (meta ∷ [])
      (codes " hello there ") (at 899 ∷ []) (at 900) (at 901) (at 902) (omega arith) refl refl refl
