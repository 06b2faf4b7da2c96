-- ===== src/Orchestrator/Guard.antt =====
-- The guard of internal/orchestrator: from the opening of a session until its first audio plays, loud
-- frames do not interrupt the agent.
use yuzu_agent_webrtc_toy.Prelude.{
  ℕ, ◌+◌, ◌*◌, ◌≤◌, ◌<◌, ◌≡◌, refl, subst, ◌∙◌, Bool, true, false, List, [], ◌∷◌, inl, inr, some,
  arith, Bool-cases,
}
use yuzu_agent_webrtc_toy.Text.{Str, codes, str_eq, str_eq_iff, str_eq_refl}
use yuzu_agent_webrtc_toy.Maps.{Map, lookup, insert, lookup-insert}
use yuzu_agent_webrtc_toy.Clock.{Time, second}
use yuzu_agent_webrtc_toy.Orchestrator.State.{
  SessionState, Server, Effect, send, inc, observe, transition, cancel, spawn_llm, Rms,
  GatewayEvent, session_open, vad_start, vad_end, transcript_interim, transcript_final, tts,
  gateway_error, feature, other, vad_agree_gateway_ms,
}
use yuzu_agent_webrtc_toy.Orchestrator.Env.{Getenv}
use yuzu_agent_webrtc_toy.Orchestrator.Vad.{
  process_feature, process_gateway_vad, handle_feature_primary, reset_vad_state,
}
use yuzu_agent_webrtc_toy.Orchestrator.Conversation.{handle_tts_event, handle_transcript_final}
use yuzu_agent_webrtc_toy.Orchestrator.Llm.{
  LlmCalls, LlmMessage, sentence, token, llm_error, usage, connected, attach_llm, detach_llm,
  get_llm_client, reconnect_llm, drop_llm_conn, open_stream, reopen_stream, send_start, start_llm,
  first_sentence, on_llm_message, on_llm_closed,
}
use yuzu_agent_webrtc_toy.Orchestrator.Server.{
  handle_event, handle_session_open, on_event, get_or_create_session, session_id, Action, event,
  llm_started, llm_message, llm_closed, gateway_closed, step, run,
}
use yuzu_agent_webrtc_toy.Orchestrator.Effects.{
  count_effects, count_effects-append, is_stop, is_stop_to, is_sent_past, stops_to-le,
  count_effects-observe_agreement,
}
use yuzu_agent_webrtc_toy.Orchestrator.Goroutines.{on_llm_message_keeps, start_llm_keeps}
use yuzu_agent_webrtc_toy.Orchestrator.Isolation.{action_session, step_isolated}
use yuzu_agent_webrtc_toy.Orchestrator.Traffic.{start_llm-Silent, on_llm_message-Silent}

-- A report that the first audio of the agent's speech plays.
abbrev pub is_first_audio : GatewayEvent → Bool
is_first_audio (tts type reason ms) = str_eq type (codes "first_audio")
is_first_audio (session_open room) = false
is_first_audio (vad_start ts) = false
is_first_audio (vad_end ts) = false
is_first_audio (transcript_interim utterance text) = false
is_first_audio (transcript_final utterance text) = false
is_first_audio (gateway_error code message) = false
is_first_audio (feature rms) = false
is_first_audio other = false

abbrev pub action_is_first_audio : Action → Bool
action_is_first_audio (event raw ev) = is_first_audio ev
action_is_first_audio (llm_started sid text handle calls) = false
action_is_first_audio (llm_message sid m) = false
action_is_first_audio (llm_closed sid handle) = false
action_is_first_audio (gateway_closed sid) = false

-- The guard set at `opened`.
abbrev pub day : ℕ
day = 24 * 3600 * second

-- A step within a day of the opening that does not report first audio of the session.
abbrev pub IsUnarmed : Str → Time → Action × Time → Type 0
IsUnarmed sid opened (a, now) =
    (opened ≤ now)
    × (now < opened + day)
    × (str_eq (action_session a) sid ≡ true → action_is_first_audio a ≡ false)

-- Of all steps of a history.
abbrev pub AllUnarmed : Str → Time → List (Action × Time) → Type 0
AllUnarmed sid opened [] = Unit
AllUnarmed sid opened (a ∷ rest) = IsUnarmed sid opened a × AllUnarmed sid opened rest

-- The guard of the session lasts for the day, and no stop was sent.
record Quiet (opened : Time) (st : SessionState) (es : List Effect) : Type 0 where
  guarded : opened + day ≤ st.guard_until
  no_stop : count_effects is_stop es ≡ 0

module _ (opened now : Time) (st : SessionState) (from : opened ≤ now) (to : now < opened + day)
    (guarded : opened + day ≤ st.guard_until) where
  process_feature-Quiet :
      (sid : Str) (rms : Rms)
      → let (st', es, b) = process_feature (codes "feature") st rms now sid in Quiet opened st' es
  unfolding process_feature handle_feature_primary count_effects
  process_feature-Quiet sid rms = ground (arith, str_eq_refl (codes "feature"))

  process_gateway_vad-Quiet :
      (sid : Str)
      → let (st', es, b) = process_gateway_vad (codes "feature") st now sid in Quiet opened st' es
  unfolding process_gateway_vad count_effects str_eq
  process_gateway_vad-Quiet sid =
      let silent =
        count_effects-observe_agreement is_stop vad_agree_gateway_ms st.last_feature_start now
          (λ h v. refl) in
      ground (arith, silent)

  handle_event-Quiet :
      (getenv : Getenv) (sid : Str) (ev : GatewayEvent)
      → is_first_audio ev ≡ false
      → let (st', es) = handle_event getenv (codes "feature") st sid ev now in Quiet opened st' es
  unfolding handle_event handle_session_open handle_tts_event reset_vad_state
      handle_transcript_final count_effects
  handle_event-Quiet getenv sid (session_open room) e = ground arith
  handle_event-Quiet getenv sid (feature rms) e = process_feature-Quiet sid rms
  handle_event-Quiet getenv sid (vad_start ts) e = process_gateway_vad-Quiet sid
  handle_event-Quiet getenv sid (tts type reason ms) e = ground arith
  handle_event-Quiet getenv sid (transcript_final utterance text) e = ground arith
  handle_event-Quiet getenv sid (vad_end ts) e = ground arith
  handle_event-Quiet getenv sid (transcript_interim utterance text) e = ground arith
  handle_event-Quiet getenv sid (gateway_error code message) e = ground arith
  handle_event-Quiet getenv sid other e = ground arith

-- The session is known, and its guard lasts for the day.
abbrev Found : Str → Time → Map SessionState → Type 0
Found sid opened m =
    (st : SessionState) × (lookup sid m ≡ some st) × (opened + day ≤ st.guard_until)

module _ (sid : Str) (opened : Time) where
  insert-Found :
      (m : Map SessionState) (st : SessionState)
      → opened + day ≤ st.guard_until
      → Found sid opened (insert sid st m)
  insert-Found m st g = (st, ground (arith, lookup-insert sid sid st m, str_eq_refl sid), g)

  attach_llm-Found :
      (s : Server) (handle : ℕ)
      → Found sid opened s.sess
      → Found sid opened (attach_llm s sid handle).sess
  unfolding attach_llm
  attach_llm-Found s handle (st, e, g) = rw (e, attach_llm) (insert-Found s.sess _ g)

  detach_llm-Found :
      (s : Server) → Found sid opened s.sess → Found sid opened (detach_llm s sid).sess
  unfolding detach_llm
  detach_llm-Found s (st, e, g) = rw (e, detach_llm) (insert-Found s.sess _ g)

  on_llm_message-Found :
      (s : Server) (m : LlmMessage) (now : Time)
      → Found sid opened s.sess
      → Found sid opened (on_llm_message s sid m now).0.sess
  unfolding first_sentence
  on_llm_message-Found s m now (st, e, g) =
      on_llm_message_keeps (Found sid opened) s sid m now
        (λ st' e'. insert-Found s.sess _ (ground arith)) (st, e, g)

-- No step changes which detector is the primary one.
vad_source-start_llm :
    (getenv : Getenv) (s : Server) (sid text : Str) (handle : ℕ) (calls : LlmCalls)
    → (start_llm getenv s sid text handle calls).0.vad_source ≡ s.vad_source
unfolding start_llm get_llm_client open_stream reopen_stream reconnect_llm drop_llm_conn send_start
    attach_llm detach_llm
vad_source-start_llm getenv s sid text handle calls = ground arith

vad_source-step :
    (getenv : Getenv) (s : Server) (a : Action) (now : Time)
    → (step getenv s a now).0.vad_source ≡ s.vad_source
unfolding step on_event on_llm_message on_llm_closed detach_llm
vad_source-step getenv s (event raw ev) now = refl
vad_source-step getenv s (llm_started sid text handle calls) now =
    vad_source-start_llm getenv s sid text handle calls
vad_source-step getenv s (llm_message sid (sentence text)) now = ground arith
vad_source-step getenv s (llm_message sid (token text)) now = refl
vad_source-step getenv s (llm_message sid (llm_error message)) now = refl
vad_source-step getenv s (llm_message sid usage) now = refl
vad_source-step getenv s (llm_message sid connected) now = refl
vad_source-step getenv s (llm_closed sid handle) now = ground arith
vad_source-step getenv s (gateway_closed sid) now = refl

-- A stop to a session is a command to it.
stops_to_other :
    (own k : Str) (es : List Effect)
    → str_eq own k ≡ false
    → count_effects (is_sent_past own) es ≡ 0
    → count_effects (is_stop_to k) es ≡ 0
unfolding count_effects
stops_to_other own k [] d h = refl
stops_to_other own k (send sid c ∷ es) d h =
    ground (arith, str_eq_iff sid own, stops_to_other own k es d)
stops_to_other own k (inc c ∷ es) d h = omega (arith, stops_to_other own k es d (omega arith))
stops_to_other own k (observe m v ∷ es) d h = omega (arith, stops_to_other own k es d (omega arith))
stops_to_other own k (transition a b ∷ es) d h =
    omega (arith, stops_to_other own k es d (omega arith))
stops_to_other own k (cancel c ∷ es) d h = omega (arith, stops_to_other own k es d (omega arith))
stops_to_other own k (spawn_llm sid t ∷ es) d h =
    omega (arith, stops_to_other own k es d (omega arith))

-- After a step the session is still guarded, and the step sent it no stop.
abbrev Guarded : Str → Time → Server × List Effect → Type 0
Guarded sid opened (s, es) = Found sid opened s.sess × (count_effects (is_stop_to sid) es ≡ 0)

module _ (getenv : Getenv) (s : Server) (opened now : Time)
    (source : s.vad_source ≡ codes "feature") (from : opened ≤ now) (to : now < opened + day) where
  event-Guarded :
      (raw : Str) (ev : GatewayEvent)
      → is_first_audio ev ≡ false
      → Found (session_id raw) opened s.sess
      → Guarded (session_id raw) opened (on_event getenv s raw ev now)
  unfolding on_event get_or_create_session
  event-Guarded raw ev e (st, known, g) =
      let sid = session_id raw in
      let quiet = handle_event-Quiet opened now st from to g getenv sid ev e in
      let (st', es) = handle_event getenv (codes "feature") st sid ev now in
      rw (known, get_or_create_session, source)
        (
          insert-Found sid opened s.sess st' quiet.guarded,
          omega (arith, stops_to-le sid es, quiet.no_stop),
        )

  own-Guarded :
      (a : Action)
      → action_is_first_audio a ≡ false
      → Found (action_session a) opened s.sess
      → Guarded (action_session a) opened (step getenv s a now)
  unfolding step on_llm_closed count_effects
  own-Guarded (event raw ev) e h = event-Guarded raw ev e h
  own-Guarded (llm_started sid text handle calls) e h = (
    start_llm_keeps (Found sid opened) getenv sid text handle
        (λ s' f. attach_llm-Found sid opened s' handle f) (λ s' f. detach_llm-Found sid opened s' f)
        s calls h,
    omega (
      arith,
      stops_to-le sid (start_llm getenv s sid text handle calls).1,
      start_llm-Silent getenv s sid text handle calls,
    ),
  )
  own-Guarded (llm_message sid m) e h = (
    on_llm_message-Found sid opened s m now h,
    omega
        (arith, stops_to-le sid (on_llm_message s sid m now).1, on_llm_message-Silent s sid m now),
  )
  own-Guarded (llm_closed sid handle) e h = (detach_llm-Found sid opened s h, refl)
  own-Guarded (gateway_closed raw) e h = (h, refl)

  step-Guarded :
      (sid : Str) (a : Action)
      → IsUnarmed sid opened (a, now)
      → Found sid opened s.sess
      → Guarded sid opened (step getenv s a now)
  step-Guarded sid a u h = elim (Bool-cases (str_eq (action_session a) sid)) [
    | inl same ↦
        subst (λ k. Found k opened s.sess → Guarded k opened (step getenv s a now))
          ((str_eq_iff (action_session a) sid).0 same) (own-Guarded a (u.2 same)) h
    | inr differs ↦
        let other_step = step_isolated getenv s a now sid differs in
        (
          (h.0, other_step.0 ∙ h.1, h.2),
          stops_to_other (action_session a) sid (step getenv s a now).1 differs other_step.1,
        )
  ]

run-Guarded :
    (getenv : Getenv) (sid : Str) (opened : Time) (s : Server) (acts : List (Action × Time))
    → s.vad_source ≡ codes "feature"
    → Found sid opened s.sess
    → AllUnarmed sid opened acts
    → count_effects (is_stop_to sid) (run getenv s acts).1 ≡ 0
unfolding run count_effects
run-Guarded getenv sid opened s [] source h u = refl
run-Guarded getenv sid opened s ((a, now) ∷ rest) source h u =
    let (s', es) = step getenv s a now in
    let g = step-Guarded getenv s opened now source u.0.0 u.0.1 sid a u.0 h in
    let ih =
      run-Guarded getenv sid opened s' rest (vad_source-step getenv s a now ∙ source) g.0 u.1 in
    omega (arith, count_effects-append (is_stop_to sid) es (run getenv s' rest).1, g.1, ih)

-- Opening a session sets its guard, and sends no stop.
handle_session_open-Quiet :
    (getenv : Getenv) (st : SessionState) (sid : Str) (opened : Time)
    → let (st', es) = handle_session_open getenv st sid opened in Quiet opened st' es
unfolding handle_session_open count_effects
handle_session_open-Quiet getenv st sid opened = ground arith

session_open-Guarded :
    (getenv : Getenv) (s : Server) (raw room : Str) (opened : Time)
    → Guarded (session_id raw) opened (on_event getenv s raw (session_open room) opened)
unfolding on_event handle_event
session_open-Guarded getenv s raw room opened =
    let sid = session_id raw in
    let st = get_or_create_session s sid in
    let quiet = handle_session_open-Quiet getenv st sid opened in
    (
      insert-Found sid opened s.sess (handle_session_open getenv st sid opened).0 quiet.guarded,
      omega (arith, stops_to-le sid (handle_session_open getenv st sid opened).1, quiet.no_stop),
    )

-- With the frame detector as the primary one: from the opening of a session, for a day, and through
-- any steps of the process of which none reports first audio of that session, no command to stop the
-- speech is sent to it.
pub no_stop_before_first_audio :
    (getenv : Getenv) (s : Server) (raw room : Str) (opened : Time) (acts : List (Action × Time))
    → s.vad_source ≡ codes "feature"
    → AllUnarmed (session_id raw) opened acts
    → count_effects
        (is_stop_to (session_id raw))
        (run getenv s ((event raw (session_open room), opened) ∷ acts)).1
      ≡ 0
unfolding run step
no_stop_before_first_audio getenv s raw room opened acts source u =
    let sid = session_id raw in
    let (s', es) = on_event getenv s raw (session_open room) opened in
    let g = session_open-Guarded getenv s raw room opened in
    let kept = vad_source-step getenv s (event raw (session_open room)) opened ∙ source in
    omega (
      arith,
      count_effects-append (is_stop_to sid) es (run getenv s' acts).1,
      g.1,
      run-Guarded getenv sid opened s' acts kept g.0 u,
    )
