-- ===== src/Examples/Orchestrator.antt =====
-- internal/orchestrator on the sessions of vad_test.go and on a short call.
use yuzu_agent_webrtc_toy.Prelude.{
  ◌+◌, ◌*◌, ◌≤◌, ◌≡◌, refl, true, false, List, [], ◌∷◌, none, some, arith,
}
use yuzu_agent_webrtc_toy.Text.{Str, codes, str_eq}
use yuzu_agent_webrtc_toy.Maps.{lookup, insert}
use yuzu_agent_webrtc_toy.Clock.{Time, second, millisecond}
use yuzu_agent_webrtc_toy.Orchestrator.State.{
  Server, Rms, level, Effect, new_session, session_open, vad_start, tts, transcript_final, feature,
}
use yuzu_agent_webrtc_toy.Orchestrator.Env.{Getenv, env_guard_ms, env_min_rms}
use yuzu_agent_webrtc_toy.Orchestrator.Conversation.{handle_tts_event, handle_transcript_final}
use yuzu_agent_webrtc_toy.Orchestrator.Streams.{NotHeld}
use yuzu_agent_webrtc_toy.Orchestrator.Vad.{
  process_feature, process_gateway_vad, handle_feature_primary, trigger_barge_in, cancel_llm,
  observe_latency, observe_agreement, reset_vad_state, arm_barge_in_guard,
}
use yuzu_agent_webrtc_toy.Orchestrator.Llm.{
  LlmCalls, Opened, sentence, start_llm, start_request, on_llm_message, first_sentence,
}
use yuzu_agent_webrtc_toy.Orchestrator.Server.{
  new_server, on_event, handle_event, handle_session_open, get_or_create_session, Action, event,
  llm_started, llm_message, llm_closed, step, run,
}
use yuzu_agent_webrtc_toy.Orchestrator.Invariant.{AllValid}
use yuzu_agent_webrtc_toy.Orchestrator.Reachable.{run-AllValid}
use yuzu_agent_webrtc_toy.Orchestrator.Debounce.{run_features, run_features_bounds}
use yuzu_agent_webrtc_toy.Orchestrator.Effects.{count_effects, is_stop_to, is_sent_past, is_cancel}
use yuzu_agent_webrtc_toy.Orchestrator.Traffic.{Balanced, run-Balanced}
use yuzu_agent_webrtc_toy.Orchestrator.Isolation.{step_isolated}
use yuzu_agent_webrtc_toy.Orchestrator.Guard.{no_stop_before_first_audio}
use yuzu_agent_webrtc_toy.Orchestrator.Orphans.{overlapping_stream_never_cancelled}

-- No variable is set.
abbrev no_env : Getenv
no_env key = []

abbrev sid : Str
sid = codes "s1"

abbrev noon : Time
noon = 63000000000 * second

abbrev all_good : LlmCalls
all_good = record {
  dialled = some 5;
  first_open = Opened.opened;
  waited = true;
  redialled = none;
  dialled_again = none;
  second_open = false;
  sent = true;
}

abbrev short_call : List (Action × Time)
short_call =
    (event sid (session_open (codes "room")), noon)
    ∷ (event sid (feature (level 5000)), noon + 1 * second)
    ∷ (event sid (transcript_final (codes "u1") (codes "hello")), noon + 2 * second)
    ∷ (llm_started sid (codes "hello") 7 all_good, noon + 2 * second)
    ∷ (llm_message sid (sentence (codes "Hi.")), noon + 3 * second)
    ∷ (event sid (tts (codes "started") [] 0), noon + 3 * second)
    ∷ (event sid (tts (codes "first_audio") [] 120), noon + 4 * second)
    ∷ (event sid (feature (level 5000)), noon + 6 * second)
    ∷ (event sid (feature (level 5000)), noon + 6 * second + 20 * millisecond)
    ∷ []

run-AllValid_example : AllValid (run no_env (new_server no_env) short_call).0.sess
run-AllValid_example = run-AllValid no_env short_call

run-Balanced_example : Balanced (run no_env (new_server no_env) short_call).1
run-Balanced_example = run-Balanced no_env (new_server no_env) short_call

-- The call, with all that it runs through.
short_run : Server × List Effect
unfolding run step new_server on_event handle_event process_feature process_gateway_vad
    handle_feature_primary trigger_barge_in cancel_llm observe_latency observe_agreement start_llm
    on_llm_message first_sentence handle_session_open handle_tts_event handle_transcript_final
    get_or_create_session new_session env_guard_ms env_min_rms reset_vad_state arm_barge_in_guard
    start_request lookup insert str_eq count_effects
short_run = run no_env (new_server no_env) short_call

-- Of the loud frames the first comes under the guard, and the last two interrupt the agent.
barge_in_stops : count_effects (is_stop_to sid) short_run.1 ≡ 1
unfolding short_run
barge_in_stops = refl

-- The interruption cancels the stream of the language model.
barge_in_cancels : count_effects (is_cancel 7) short_run.1 ≡ 1
unfolding short_run
barge_in_cancels = refl

-- TestVADSpeechStart and TestVADSpeechEnd: two loud frames start speech, twenty quiet ones end it.
abbrev frames : List (Rms × Time)
frames = (level 1500, noon) ∷ (level 1500, noon) ∷ (level 500, noon) ∷ []

run_features_bounds_example :
    ((run_features sid (new_session sid) frames).1 * 2 ≤ 2)
    × ((run_features sid (new_session sid) frames).1 * 20 ≤ 21)
unfolding new_session
run_features_bounds_example =
    run_features_bounds sid (new_session sid) frames (omega arith) (omega arith)

step_isolated_example :
    (lookup (codes "s2") (step no_env (new_server no_env) (event sid (vad_start 5)) noon).0.sess
      ≡ lookup (codes "s2") (new_server no_env).sess)
    × (count_effects
          (is_sent_past sid)
          (step no_env (new_server no_env) (event sid (vad_start 5)) noon).1
        ≡ 0)
unfolding str_eq
step_isolated_example =
    step_isolated no_env (new_server no_env) (event sid (vad_start 5)) noon (codes "s2") refl

-- Loud frames in the guard.
abbrev shouting : List (Action × Time)
shouting =
    (event sid (feature (level 5000)), noon + 1 * second)
    ∷ (event sid (feature (level 5000)), noon + 2 * second)
    ∷ (event sid (feature (level 5000)), noon + 3 * second)
    ∷ []

no_stop_before_first_audio_example :
    count_effects
      (is_stop_to sid)
      (run no_env
        (new_server no_env)
        ((event sid (session_open (codes "room")), noon) ∷ shouting)).1
    ≡ 0
unfolding new_server
no_stop_before_first_audio_example =
    no_stop_before_first_audio no_env (new_server no_env) sid (codes "room") noon shouting refl (
      (omega arith, omega arith, λ e. refl),
      ((omega arith, omega arith, λ e. refl), ((omega arith, omega arith, λ e. refl), tt)),
    )

-- The first stream of the session is 1; the second one, 2, starts while it runs.
abbrev talking : Server
talking = record {
  sess = (sid, record (new_session sid) { llm_active = true; llm_cancel = some 1 }) ∷ [];
  vad_source = codes "gateway";
  llm_conn = some 5;
  llm_client = some 5;
}

talking_free : NotHeld 2 talking.sess
unfolding lookup
talking_free k st e = ground arith

overlapping_stream_never_cancelled_example :
    count_effects
      (is_cancel 2)
      (run no_env talking (
        (llm_started sid (codes "and now") 2 all_good, noon)
        ∷ (llm_closed sid 1, noon)
        ∷ (event sid (vad_start 5), noon)
        ∷ [])).1
    ≡ 0
unfolding start_llm
overlapping_stream_never_cancelled_example =
    overlapping_stream_never_cancelled no_env talking sid (codes "and now") 1 2 all_good noon
      ((event sid (vad_start 5), noon) ∷ []) talking_free (omega arith) (λ e. cc) (tt, tt)
