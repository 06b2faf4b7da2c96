-- ===== src/Orchestrator/Orphans.antt =====
-- A stream of internal/orchestrator whose cancel function was dropped: no handler calls it any more.
use yuzu_agent_webrtc_toy.Prelude.{
  ℕ, ◌≡◌, ◌≢◌, refl, false, List, [], ◌∷◌, inl, inr, none, some, arith, Bool-cases, Option-cases,
  if◌then◌else◌, ◌==◌,
}
use yuzu_agent_webrtc_toy.Text.{Str, str_eq, str_eq_iff}
use yuzu_agent_webrtc_toy.Maps.{Map, lookup, insert, lookup-insert}
use yuzu_agent_webrtc_toy.Clock.{Time}
use yuzu_agent_webrtc_toy.Orchestrator.State.{SessionState, Server, Effect, cancel, GatewayEvent}
use yuzu_agent_webrtc_toy.Orchestrator.Env.{Getenv}
use yuzu_agent_webrtc_toy.Orchestrator.Llm.{
  LlmCalls, LlmMessage, sentence, token, llm_error, usage, connected, attach_llm, detach_llm,
  send_start, start_llm, first_sentence, on_llm_message, on_llm_closed,
}
use yuzu_agent_webrtc_toy.Orchestrator.Server.{
  on_event, get_or_create_session, session_id, Action, event, llm_started, llm_message, llm_closed,
  gateway_closed, step, run,
}
use yuzu_agent_webrtc_toy.Orchestrator.Effects.{count_effects, count_effects-append, is_cancel}
use yuzu_agent_webrtc_toy.Orchestrator.Goroutines.{
  attach_llm_keeps, detach_llm_keeps, on_llm_message_keeps, start_llm_keeps,
}
use yuzu_agent_webrtc_toy.Orchestrator.Streams.{
  NotHeld, IsOfOthers, AllOfOthers, handle_event-Spares, NotHeld-insert, get_or_create_session-free,
  attach_llm-NotHeld, detach_llm-NotHeld,
}

-- After a step no session holds the cancel function, and the step did not call it.
abbrev SparesAll : ℕ → Server × List Effect → Type 0
SparesAll h (s, es) = NotHeld h s.sess × (count_effects (is_cancel h) es ≡ 0)

not_called-on_llm_message :
    (h : ℕ) (s : Server) (sid : Str) (m : LlmMessage) (now : Time)
    → count_effects (is_cancel h) (on_llm_message s sid m now).1 ≡ 0
unfolding on_llm_message first_sentence count_effects
not_called-on_llm_message h s sid (sentence text) now = ground arith
not_called-on_llm_message h s sid (token text) now = refl
not_called-on_llm_message h s sid (llm_error message) now = refl
not_called-on_llm_message h s sid usage now = refl
not_called-on_llm_message h s sid connected now = refl

-- A stream whose request was sent was not cancelled by its start.
started_not_cancelled :
    (getenv : Getenv) (s : Server) (sid text : Str) (h : ℕ) (calls : LlmCalls)
    → (start_llm getenv s sid text h calls).2 ≢ none
    → count_effects (is_cancel h) (start_llm getenv s sid text h calls).1 ≡ 0
unfolding start_llm send_start count_effects
started_not_cancelled getenv s sid text h calls sent = ground arith

not_same : (a b : ℕ) → a ≢ b → ◌≡◌ {A = ℕ} (if a == b then 1 else 0) 0
not_same a b ne = ground arith

module _ (h : ℕ) (s : Server) (all : NotHeld h s.sess) where
  on_event-SparesAll :
      (getenv : Getenv) (raw : Str) (ev : GatewayEvent) (now : Time)
      → SparesAll h (on_event getenv s raw ev now)
  unfolding on_event
  on_event-SparesAll getenv raw ev now =
      let sid = session_id raw in
      let free = get_or_create_session-free h s sid all in
      let spared =
        handle_event-Spares h (get_or_create_session s sid) free now sid getenv s.vad_source ev in
      (NotHeld-insert h sid _ s.sess spared.not_held all, spared.not_called)

  start_llm-SparesAll :
      (getenv : Getenv) (sid text : Str) (handle : ℕ) (calls : LlmCalls)
      → handle ≢ h
      → let (s', es, sent) = start_llm getenv s sid text handle calls in SparesAll h (s', es)
  unfolding start_llm send_start count_effects
  start_llm-SparesAll getenv sid text handle calls ne = (
    start_llm_keeps (NotHeld h) getenv sid text handle
        (λ s' f. attach_llm-NotHeld h s' sid handle ne f) (λ s' f. detach_llm-NotHeld h s' sid f) s
        calls all,
    ground arith,
  )

  on_llm_message-SparesAll :
      (sid : Str) (m : LlmMessage) (now : Time) → SparesAll h (on_llm_message s sid m now)
  unfolding first_sentence
  on_llm_message-SparesAll sid m now = (
    on_llm_message_keeps (NotHeld h) s sid m now
        (λ st e. NotHeld-insert h sid _ s.sess (let free = all sid st e in ground arith) all) all,
    not_called-on_llm_message h s sid m now,
  )

  step-SparesAll :
      (getenv : Getenv) (a : Action) (now : Time)
      → IsOfOthers h a
      → SparesAll h (step getenv s a now)
  unfolding step on_llm_closed count_effects
  step-SparesAll getenv (event raw ev) now o = on_event-SparesAll getenv raw ev now
  step-SparesAll getenv (llm_started sid text handle calls) now o =
      start_llm-SparesAll getenv sid text handle calls o
  step-SparesAll getenv (llm_message sid m) now o = on_llm_message-SparesAll sid m now
  step-SparesAll getenv (llm_closed sid handle) now o =
      (detach_llm-NotHeld h s sid all, ground arith)
  step-SparesAll getenv (gateway_closed sid) now o = (all, refl)

-- A stream whose cancel function no session holds: nothing calls that function, in any history in
-- which the stream itself neither starts nor ends.
pub NotHeld-never_cancelled :
    (getenv : Getenv) (h : ℕ) (s : Server) (acts : List (Action × Time))
    → NotHeld h s.sess
    → AllOfOthers h acts
    → count_effects (is_cancel h) (run getenv s acts).1 ≡ 0
unfolding run count_effects
NotHeld-never_cancelled getenv h s [] all o = refl
NotHeld-never_cancelled getenv h s ((a, now) ∷ rest) all o =
    let (s', es) = step getenv s a now in
    let spared = step-SparesAll h s all getenv a now o.0 in
    omega (
      arith,
      count_effects-append (is_cancel h) es (run getenv s' rest).1,
      spared.1,
      NotHeld-never_cancelled getenv h s' rest spared.0 o.1,
    )

-- No session but one holds the cancel function.
abbrev HeldAtMostBy : Str → ℕ → Map SessionState → Type 0
HeldAtMostBy sid h m =
    (k : Str) (st : SessionState)
    → lookup k m ≡ some st
    → str_eq sid k ≡ false
    → st.llm_cancel ≢ some h

module _ (sid : Str) (h : ℕ) where
  HeldAtMostBy-insert :
      (st : SessionState) (m : Map SessionState)
      → HeldAtMostBy sid h m
      → HeldAtMostBy sid h (insert sid st m)
  HeldAtMostBy-insert st m all k st' e d = all k st' (ground (arith, lookup-insert sid k st m)) d

  attach_llm-HeldAtMostBy :
      (handle : ℕ) (s : Server)
      → HeldAtMostBy sid h s.sess
      → HeldAtMostBy sid h (attach_llm s sid handle).sess
  attach_llm-HeldAtMostBy handle s all =
      attach_llm_keeps (HeldAtMostBy sid h) s sid handle (λ st e. HeldAtMostBy-insert _ s.sess all)
        all

  detach_llm-HeldAtMostBy :
      (s : Server) → HeldAtMostBy sid h s.sess → HeldAtMostBy sid h (detach_llm s sid).sess
  detach_llm-HeldAtMostBy s all =
      detach_llm_keeps (HeldAtMostBy sid h) s sid (λ st e. HeldAtMostBy-insert _ s.sess all) all

  insert-drops :
      (st : SessionState) (m : Map SessionState)
      → st.llm_cancel ≢ some h
      → HeldAtMostBy sid h m
      → NotHeld h (insert sid st m)
  insert-drops st m free all k st' e = elim (Bool-cases (str_eq sid k)) [
    | inl same ↦ ground (arith, lookup-insert sid k st m)
    | inr differs ↦ all k st' (ground (arith, lookup-insert sid k st m)) differs
  ]

  absent-drops : (m : Map SessionState) → lookup sid m ≡ none → HeldAtMostBy sid h m → NotHeld h m
  absent-drops m missing all k st e = elim (Bool-cases (str_eq sid k)) [
    | inl same ↦ ground (arith, str_eq_iff sid k)
    | inr differs ↦ all k st e differs
  ]

  -- The end of any stream of the session takes the cancel function of its latest one away.
  detach_llm-drops : (s : Server) → HeldAtMostBy sid h s.sess → NotHeld h (detach_llm s sid).sess
  unfolding detach_llm
  detach_llm-drops s all = elim (Option-cases (lookup sid s.sess)) [
    | inl missing ↦ rw missing (absent-drops s.sess missing all)
    | inr (st, found) ↦ rw found (insert-drops _ s.sess (ground arith) all)
  ]

  NotHeld→HeldAtMostBy : (m : Map SessionState) → NotHeld h m → HeldAtMostBy sid h m
  NotHeld→HeldAtMostBy m all k st e d = all k st e

  start_llm-HeldAtMostBy :
      (getenv : Getenv) (s : Server) (text : Str) (handle : ℕ) (calls : LlmCalls)
      → HeldAtMostBy sid h s.sess
      → HeldAtMostBy sid h (start_llm getenv s sid text handle calls).0.sess
  start_llm-HeldAtMostBy getenv s text handle calls =
      start_llm_keeps (HeldAtMostBy sid h) getenv sid text handle (attach_llm-HeldAtMostBy handle)
        detach_llm-HeldAtMostBy s calls

-- A second transcript starts a second stream of the session, whose cancel function no session holds yet,
-- and the request of it is sent; then the first stream ends. In any history from there on, in which the
-- second stream neither starts again nor ends, no handler calls its cancel function, whatever barge-ins
-- there are. (The end of the gateway's stream that started it may be among the steps: it ends the
-- context of the request through that of its parent, which is not a call of the function.)
pub overlapping_stream_never_cancelled :
    (getenv : Getenv) (s : Server) (sid text : Str) (first second : ℕ) (calls : LlmCalls)
    → (now : Time) (acts : List (Action × Time)) → NotHeld second s.sess
    → first ≢ second
    → (start_llm getenv s sid text second calls).2 ≢ none
    → AllOfOthers second acts
    → count_effects
        (is_cancel second)
        (run getenv s
          ((llm_started sid text second calls, now) ∷ (llm_closed sid first, now) ∷ acts)).1
      ≡ 0
unfolding run step on_llm_closed count_effects
overlapping_stream_never_cancelled getenv s sid text first second calls now acts free ne sent o =
    let s' = (start_llm getenv s sid text second calls).0 in
    let held =
      start_llm-HeldAtMostBy sid second getenv s text second calls
        (NotHeld→HeldAtMostBy sid second s.sess free) in
    let dropped = detach_llm-drops sid second s' held in
    let later = NotHeld-never_cancelled getenv second (detach_llm s' sid) acts dropped o in
    omega (
      arith,
      count_effects-append (is_cancel second) (start_llm getenv s sid text second calls).1
          (cancel first ∷ (run getenv (detach_llm s' sid) acts).1),
      started_not_cancelled getenv s sid text second calls sent,
      not_same first second ne,
      later,
    )
