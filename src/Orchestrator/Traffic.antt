-- ===== src/Orchestrator/Traffic.antt =====
-- Every command to stop the speech of the agent is counted as a barge-in, and nothing else is.
use yuzu_agent_webrtc_toy.Prelude.{
  ℕ, ◌+◌, ◌≡◌, refl, true, List, [], ◌∷◌, ◌++◌, inl, inr, arith, Bool-cases,
}
use yuzu_agent_webrtc_toy.Text.{Str, codes, str_eq}
use yuzu_agent_webrtc_toy.Clock.{Time}
use yuzu_agent_webrtc_toy.Orchestrator.State.{
  SessionState, Server, Effect, send, inc, Rms, barge_in, barge_in_total, GatewayEvent,
  session_open, vad_start, vad_end, transcript_interim, transcript_final, tts, gateway_error,
  feature, other, vad_agree_gateway_ms, vad_agree_feature_ms, stop_tts,
}
use yuzu_agent_webrtc_toy.Orchestrator.Env.{Getenv}
use yuzu_agent_webrtc_toy.Orchestrator.Vad.{
  handle_gateway_vad_primary, cancel_llm, observe_latency, observe_agreement, process_feature,
  process_gateway_vad, handle_feature_primary, trigger_barge_in,
}
use yuzu_agent_webrtc_toy.Orchestrator.Conversation.{handle_tts_event, handle_transcript_final}
use yuzu_agent_webrtc_toy.Orchestrator.Llm.{
  LlmCalls, LlmMessage, sentence, token, llm_error, usage, connected, start_llm, first_sentence,
  on_llm_message, on_llm_closed,
}
use yuzu_agent_webrtc_toy.Orchestrator.Server.{
  handle_event, on_event, get_or_create_session, session_id, Action, event, llm_started,
  llm_message, llm_closed, gateway_closed, step, run,
}
use yuzu_agent_webrtc_toy.Orchestrator.Effects.{
  count_effects, count_effects-append, is_stop, is_inc,
}

-- The stops and the two metrics of barge-ins agree.
abbrev pub Balanced : List Effect → Type 0
Balanced es =
    (count_effects is_stop es ≡ count_effects (is_inc barge_in) es)
    × (count_effects (is_inc barge_in) es ≡ count_effects (is_inc barge_in_total) es)

-- None of these effects at all.
pub record Silent (es : List Effect) : Type 0 where
  pub stops : count_effects is_stop es ≡ 0
  pub barge_ins : count_effects (is_inc barge_in) es ≡ 0
  pub totals : count_effects (is_inc barge_in_total) es ≡ 0

Balanced-append : (es fs : List Effect) → Balanced es → Balanced fs → Balanced (es ++ fs)
Balanced-append es fs h k = omega (
  arith,
  count_effects-append is_stop es fs,
  count_effects-append (is_inc barge_in) es fs,
  count_effects-append (is_inc barge_in_total) es fs,
)

Silent-append : (es fs : List Effect) → Silent es → Silent fs → Silent (es ++ fs)
Silent-append es fs h k = omega (
  arith,
  count_effects-append is_stop es fs,
  count_effects-append (is_inc barge_in) es fs,
  count_effects-append (is_inc barge_in_total) es fs,
)

cancel_llm-Silent : (st : SessionState) → Silent (cancel_llm st).1
unfolding cancel_llm count_effects
cancel_llm-Silent st = ground arith

observe_latency-Silent : (st : SessionState) (now : Time) → Silent (observe_latency st now)
unfolding observe_latency count_effects
observe_latency-Silent st now = ground arith

observe_agreement-Silent : (h : _) (start now : Time) → Silent (observe_agreement h start now)
unfolding observe_agreement count_effects
observe_agreement-Silent h start now = ground arith

-- The effects of a barge-in: a stop and its two metrics before silent ones.
barge_in-Balanced :
    (sid reason : Str) (es : List Effect)
    → Silent es
    → Balanced (send sid (stop_tts reason) ∷ inc barge_in ∷ inc barge_in_total ∷ es)
unfolding count_effects
barge_in-Balanced sid reason es h = omega (arith, h)

trigger_barge_in-Balanced :
    (st : SessionState) (now : Time) (sid : Str) → Balanced (trigger_barge_in st now sid).1
unfolding trigger_barge_in count_effects
trigger_barge_in-Balanced st now sid =
    let st' = record st { speaking = true; non_speech = 0; last_feature_start = now } in
    let (quiet, cancelled) = cancel_llm st' in
    let silent = Silent-append cancelled _ (cancel_llm-Silent st') (
      Silent-append (observe_latency quiet now) _ (observe_latency-Silent quiet now)
        (observe_agreement-Silent vad_agree_gateway_ms quiet.last_gateway_start now)) in
    omega (arith, barge_in-Balanced sid (codes "barge_in") _ silent)

handle_feature_primary-Balanced :
    (st : SessionState) (rms : Rms) (now : Time) (sid : Str)
    → Balanced (handle_feature_primary st rms now sid).1
unfolding handle_feature_primary count_effects
handle_feature_primary-Balanced st rms now sid =
    ground (
      arith,
      trigger_barge_in-Balanced (record st { consec_speech = st.consec_speech + 1 }) now sid,
    )

process_gateway_vad-Balanced :
    (source : Str) (st : SessionState) (now : Time) (sid : Str)
    → Balanced (process_gateway_vad source st now sid).1
unfolding process_gateway_vad handle_gateway_vad_primary
process_gateway_vad-Balanced source st now sid =
    elim (Bool-cases (str_eq source (codes "gateway"))) [
      | inl primary ↦
          rw (primary, process_gateway_vad, handle_gateway_vad_primary)
            (barge_in-Balanced sid (codes "barge_in") _ (
              Silent-append (cancel_llm st').1 _ (cancel_llm-Silent st') (
                observe_agreement-Silent vad_agree_feature_ms (cancel_llm st').0.last_feature_start
                  now)))
      | inr secondary ↦
          rw (secondary, process_gateway_vad)
            (let quiet = observe_agreement-Silent vad_agree_gateway_ms st'.last_feature_start now in
              omega (arith, quiet))
    ]
  where
    st' : SessionState
    st' = record st { last_gateway_start = now }

handle_event-Balanced :
    (getenv : Getenv) (source : Str) (st : SessionState) (sid : Str) (ev : GatewayEvent)
    (now : Time)
    → Balanced (handle_event getenv source st sid ev now).1
unfolding handle_event process_feature handle_tts_event handle_transcript_final count_effects
handle_event-Balanced getenv source st sid (session_open room) now = ground arith
handle_event-Balanced getenv source st sid (feature rms) now =
    ground (arith, handle_feature_primary-Balanced st rms now sid)
handle_event-Balanced getenv source st sid (vad_start ts) now =
    process_gateway_vad-Balanced source st now sid
handle_event-Balanced getenv source st sid (tts type reason ms) now = ground arith
handle_event-Balanced getenv source st sid (transcript_final utterance text) now = ground arith
handle_event-Balanced getenv source st sid (vad_end ts) now = ground arith
handle_event-Balanced getenv source st sid (transcript_interim utterance text) now = ground arith
handle_event-Balanced getenv source st sid (gateway_error code message) now = ground arith
handle_event-Balanced getenv source st sid other now = ground arith

-- A language model goroutine stops no speech.
pub start_llm-Silent :
    (getenv : Getenv) (s : Server) (sid text : Str) (handle : ℕ) (calls : LlmCalls)
    → Silent (start_llm getenv s sid text handle calls).1
unfolding start_llm count_effects
start_llm-Silent getenv s sid text handle calls = ground arith

pub on_llm_message-Silent :
    (s : Server) (sid : Str) (m : LlmMessage) (now : Time) → Silent (on_llm_message s sid m now).1
unfolding on_llm_message first_sentence count_effects
on_llm_message-Silent s sid (sentence text) now = ground arith
on_llm_message-Silent s sid (token text) now = ground arith
on_llm_message-Silent s sid (llm_error message) now = ground arith
on_llm_message-Silent s sid usage now = ground arith
on_llm_message-Silent s sid connected now = ground arith

step-Balanced :
    (getenv : Getenv) (s : Server) (a : Action) (now : Time) → Balanced (step getenv s a now).1
unfolding step on_event on_llm_closed count_effects
step-Balanced getenv s (event raw ev) now =
    let sid = session_id raw in
    handle_event-Balanced getenv s.vad_source (get_or_create_session s sid) sid ev now
step-Balanced getenv s (llm_started sid text handle calls) now =
    omega (arith, start_llm-Silent getenv s sid text handle calls)
step-Balanced getenv s (llm_message sid m) now = omega (arith, on_llm_message-Silent s sid m now)
step-Balanced getenv s (llm_closed sid handle) now = ground arith
step-Balanced getenv s (gateway_closed sid) now = ground arith

-- Over every history of the process, from any server, the commands to stop the speech of the agent
-- are as many as the increments of either of the two metrics of barge-ins.
pub run-Balanced :
    (getenv : Getenv) (s : Server) (acts : List (Action × Time)) → Balanced (run getenv s acts).1
unfolding run count_effects
run-Balanced getenv s [] = (refl, refl)
run-Balanced getenv s ((a, now) ∷ rest) =
    let (s', effects) = step getenv s a now in
    Balanced-append effects _ (step-Balanced getenv s a now) (run-Balanced getenv s' rest)
