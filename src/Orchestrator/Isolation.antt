-- ===== src/Orchestrator/Isolation.antt =====
-- A step for one session of the orchestrator touches no other.
use yuzu_agent_webrtc_toy.Prelude.{ℕ, ◌+◌, ◌≡◌, refl, false, List, Option, arith}
use yuzu_agent_webrtc_toy.Text.{Str, str_eq, str_eq_refl}
use yuzu_agent_webrtc_toy.Maps.{Map, lookup, insert, lookup-insert}
use yuzu_agent_webrtc_toy.Clock.{Time}
use yuzu_agent_webrtc_toy.Orchestrator.State.{
  SessionState, Server, Effect, Rms, GatewayEvent, session_open, vad_start, vad_end,
  transcript_interim, transcript_final, tts, gateway_error, feature, other, vad_agree_gateway_ms,
}
use yuzu_agent_webrtc_toy.Orchestrator.Env.{Getenv}
use yuzu_agent_webrtc_toy.Orchestrator.Vad.{
  process_feature, process_gateway_vad, handle_feature_primary,
}
use yuzu_agent_webrtc_toy.Orchestrator.Conversation.{handle_tts_event, handle_transcript_final}
use yuzu_agent_webrtc_toy.Orchestrator.Llm.{
  LlmCalls, LlmMessage, sentence, token, llm_error, usage, connected, attach_llm, detach_llm,
  start_llm, first_sentence, on_llm_message, on_llm_closed,
}
use yuzu_agent_webrtc_toy.Orchestrator.Server.{
  handle_event, on_event, get_or_create_session, session_id, Action, event, llm_started,
  llm_message, llm_closed, gateway_closed, step,
}
use yuzu_agent_webrtc_toy.Orchestrator.Effects.{
  count_effects, is_sent_past, count_effects-trigger_barge_in,
  count_effects-handle_gateway_vad_primary, count_effects-observe_agreement,
}
use yuzu_agent_webrtc_toy.Orchestrator.Goroutines.{
  attach_llm_keeps, detach_llm_keeps, on_llm_message_keeps, start_llm_keeps,
}

-- The session that a step is about.
abbrev pub action_session : Action → Str
action_session (event raw ev) = session_id raw
action_session (llm_started sid text handle calls) = sid
action_session (llm_message sid m) = sid
action_session (llm_closed sid handle) = sid
action_session (gateway_closed sid) = sid

-- An entry is read as before.
abbrev Reads : Str → Option SessionState → Map SessionState → Type 0
Reads k before m = lookup k m ≡ before

module _ (k sid : Str) (differs : str_eq sid k ≡ false) (before : Option SessionState) where
  insert-Reads :
      (st : SessionState) (m : Map SessionState)
      → Reads k before m
      → Reads k before (insert sid st m)
  insert-Reads st m h = rw (lookup-insert sid k st m, differs) h

  attach_llm-Reads :
      (handle : ℕ) (s : Server)
      → Reads k before s.sess
      → Reads k before (attach_llm s sid handle).sess
  attach_llm-Reads handle s h =
      attach_llm_keeps (Reads k before) s sid handle (λ st e. insert-Reads _ s.sess h) h

  detach_llm-Reads : (s : Server) → Reads k before s.sess → Reads k before (detach_llm s sid).sess
  detach_llm-Reads s h = detach_llm_keeps (Reads k before) s sid (λ st e. insert-Reads _ s.sess h) h

-- No command goes past the session, for each of the handlers.
module _ (sid : Str) where
  abbrev SendsOnly : List Effect → Type 0
  SendsOnly es = count_effects (is_sent_past sid) es ≡ 0

  handle_feature_primary-SendsOnly :
      (st : SessionState) (rms : Rms) (now : Time)
      → SendsOnly (handle_feature_primary st rms now sid).1
  unfolding handle_feature_primary count_effects
  handle_feature_primary-SendsOnly st rms now = ground (
    arith,
    str_eq_refl sid,
    count_effects-trigger_barge_in (is_sent_past sid)
        (record st { consec_speech = st.consec_speech + 1 }) now sid ((λ h v. refl), (λ h. refl)),
  )

  process_gateway_vad-SendsOnly :
      (source : Str) (st : SessionState) (now : Time)
      → SendsOnly (process_gateway_vad source st now sid).1
  unfolding process_gateway_vad count_effects
  process_gateway_vad-SendsOnly source st now =
      let st' = record st { last_gateway_start = now } in
      ground (
        arith,
        str_eq_refl sid,
        count_effects-handle_gateway_vad_primary (is_sent_past sid) st' now sid
            ((λ h v. refl), (λ h. refl)),
        count_effects-observe_agreement (is_sent_past sid) vad_agree_gateway_ms
            st.last_feature_start now (λ h v. refl),
      )

  handle_event-SendsOnly :
      (getenv : Getenv) (source : Str) (st : SessionState) (ev : GatewayEvent) (now : Time)
      → SendsOnly (handle_event getenv source st sid ev now).1
  unfolding handle_event process_feature handle_tts_event handle_transcript_final count_effects
  handle_event-SendsOnly getenv source st (session_open room) now = ground (arith, str_eq_refl sid)
  handle_event-SendsOnly getenv source st (feature rms) now =
      ground (arith, handle_feature_primary-SendsOnly st rms now)
  handle_event-SendsOnly getenv source st (vad_start ts) now =
      process_gateway_vad-SendsOnly source st now
  handle_event-SendsOnly getenv source st (tts type reason ms) now = ground arith
  handle_event-SendsOnly getenv source st (transcript_final utterance text) now = ground arith
  handle_event-SendsOnly getenv source st (vad_end ts) now = refl
  handle_event-SendsOnly getenv source st (transcript_interim utterance text) now = refl
  handle_event-SendsOnly getenv source st (gateway_error code message) now = refl
  handle_event-SendsOnly getenv source st other now = refl

  start_llm-SendsOnly :
      (getenv : Getenv) (s : Server) (text : Str) (handle : ℕ) (calls : LlmCalls)
      → SendsOnly (start_llm getenv s sid text handle calls).1
  unfolding start_llm count_effects
  start_llm-SendsOnly getenv s text handle calls = ground arith

  on_llm_message-SendsOnly :
      (s : Server) (m : LlmMessage) (now : Time) → SendsOnly (on_llm_message s sid m now).1
  unfolding on_llm_message first_sentence count_effects
  on_llm_message-SendsOnly s (sentence text) now = ground (arith, str_eq_refl sid)
  on_llm_message-SendsOnly s (token text) now = refl
  on_llm_message-SendsOnly s (llm_error message) now = refl
  on_llm_message-SendsOnly s usage now = refl
  on_llm_message-SendsOnly s connected now = refl

-- A step for a session leaves every other session of the server as it was.
pub lookup-step_other :
    (getenv : Getenv) (s : Server) (a : Action) (now : Time) (k : Str)
    → str_eq (action_session a) k ≡ false
    → lookup k (step getenv s a now).0.sess ≡ lookup k s.sess
unfolding step on_event on_llm_closed
lookup-step_other getenv s (event raw ev) now k differs =
    rw (lookup-insert (session_id raw) k _ s.sess, differs)
lookup-step_other getenv s (llm_started sid text handle calls) now k differs =
    let before = lookup k s.sess in
    start_llm_keeps (Reads k before) getenv sid text handle
      (attach_llm-Reads k sid differs before handle) (detach_llm-Reads k sid differs before) s calls
      refl
lookup-step_other getenv s (llm_message sid m) now k differs =
    let before = lookup k s.sess in
    on_llm_message_keeps (Reads k before) s sid m now
      (λ st e. insert-Reads k sid differs before _ s.sess refl) refl
lookup-step_other getenv s (llm_closed sid handle) now k differs =
    detach_llm-Reads k sid differs (lookup k s.sess) s refl
lookup-step_other getenv s (gateway_closed sid) now k differs = refl

-- Every command that a step sends goes to the session of the step.
pub step-sends_to_session :
    (getenv : Getenv) (s : Server) (a : Action) (now : Time)
    → count_effects (is_sent_past (action_session a)) (step getenv s a now).1 ≡ 0
unfolding step on_event on_llm_closed count_effects
step-sends_to_session getenv s (event raw ev) now =
    let sid = session_id raw in
    handle_event-SendsOnly sid getenv s.vad_source (get_or_create_session s sid) ev now
step-sends_to_session getenv s (llm_started sid text handle calls) now =
    start_llm-SendsOnly sid getenv s text handle calls
step-sends_to_session getenv s (llm_message sid m) now = on_llm_message-SendsOnly sid s m now
step-sends_to_session getenv s (llm_closed sid handle) now = refl
step-sends_to_session getenv s (gateway_closed sid) now = refl

-- A step for one session leaves the state of every other session as it was, and sends commands to
-- its own session only.
pub step_isolated :
    (getenv : Getenv) (s : Server) (a : Action) (now : Time) (k : Str)
    → str_eq (action_session a) k ≡ false
    → (lookup k (step getenv s a now).0.sess ≡ lookup k s.sess)
      × (count_effects (is_sent_past (action_session a)) (step getenv s a now).1 ≡ 0)
step_isolated getenv s a now k differs =
    (lookup-step_other getenv s a now k differs, step-sends_to_session getenv s a now)
