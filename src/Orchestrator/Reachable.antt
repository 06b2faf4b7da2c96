-- ===== src/Orchestrator/Reachable.antt =====
-- The invariant of internal/orchestrator along every history of the process.
use yuzu_agent_webrtc_toy.Prelude.{ℕ, List, [], ◌∷◌, arith}
use yuzu_agent_webrtc_toy.Text.{Str}
use yuzu_agent_webrtc_toy.Clock.{Time}
use yuzu_agent_webrtc_toy.Orchestrator.State.{Server, GatewayEvent}
use yuzu_agent_webrtc_toy.Orchestrator.Env.{Getenv}
use yuzu_agent_webrtc_toy.Orchestrator.Llm.{
  LlmMessage, attach_llm, detach_llm, first_sentence, on_llm_message, on_llm_closed,
}
use yuzu_agent_webrtc_toy.Orchestrator.Server.{
  new_server, on_event, session_id, get_or_create_session, Action, event, llm_started, llm_message,
  llm_closed, gateway_closed, step, run,
}
use yuzu_agent_webrtc_toy.Orchestrator.Goroutines.{
  attach_llm_keeps, detach_llm_keeps, on_llm_message_keeps, start_llm_keeps,
}
use yuzu_agent_webrtc_toy.Orchestrator.Invariant.{
  AllValid, AllValid-empty, AllValid-insert, get_or_create_session-IsValid, handle_event-IsValid,
}

attach_llm-AllValid :
    (s : Server) (sid : Str) (handle : ℕ)
    → AllValid s.sess
    → AllValid (attach_llm s sid handle).sess
attach_llm-AllValid s sid handle all =
    attach_llm_keeps AllValid s sid handle
      (λ st e. AllValid-insert sid _ s.sess (let v = all sid st e in ground arith) all) all

detach_llm-AllValid : (s : Server) (sid : Str) → AllValid s.sess → AllValid (detach_llm s sid).sess
detach_llm-AllValid s sid all =
    detach_llm_keeps AllValid s sid
      (λ st e. AllValid-insert sid _ s.sess (let v = all sid st e in ground arith) all) all

on_llm_message-AllValid :
    (s : Server) (sid : Str) (m : LlmMessage) (now : Time)
    → AllValid s.sess
    → AllValid (on_llm_message s sid m now).0.sess
unfolding first_sentence
on_llm_message-AllValid s sid m now all =
    on_llm_message_keeps AllValid s sid m now
      (λ st e. AllValid-insert sid _ s.sess (let v = all sid st e in ground arith) all) all

on_event-AllValid :
    (getenv : Getenv) (s : Server) (sid : Str) (ev : GatewayEvent) (now : Time)
    → AllValid s.sess
    → AllValid (on_event getenv s sid ev now).0.sess
unfolding on_event
on_event-AllValid getenv s raw ev now all =
    let sid = session_id raw in
    AllValid-insert sid _ s.sess
      (handle_event-IsValid sid (get_or_create_session s sid)
        (get_or_create_session-IsValid s sid all) getenv s.vad_source sid ev now)
      all

step-AllValid :
    (getenv : Getenv) (s : Server) (a : Action) (now : Time)
    → AllValid s.sess
    → AllValid (step getenv s a now).0.sess
unfolding step on_llm_closed
step-AllValid getenv s (event sid ev) now all = on_event-AllValid getenv s sid ev now all
step-AllValid getenv s (llm_started sid text handle calls) now all =
    start_llm_keeps AllValid getenv sid text handle (λ s' h. attach_llm-AllValid s' sid handle h)
      (λ s' h. detach_llm-AllValid s' sid h) s calls all
step-AllValid getenv s (llm_message sid m) now all = on_llm_message-AllValid s sid m now all
step-AllValid getenv s (llm_closed sid handle) now all = detach_llm-AllValid s sid all
step-AllValid getenv s (gateway_closed sid) now all = all

pub run_from-AllValid :
    (getenv : Getenv) (s : Server) (acts : List (Action × Time))
    → AllValid s.sess
    → AllValid (run getenv s acts).0.sess
unfolding run
run_from-AllValid getenv s [] all = all
run_from-AllValid getenv s ((a, now) ∷ rest) all =
    run_from-AllValid getenv (step getenv s a now).0 rest (step-AllValid getenv s a now all)

-- After every history of events and language model steps, in any order and with any results of the
-- calls, each session of a new server is valid.
pub run-AllValid :
    (getenv : Getenv) (acts : List (Action × Time))
    → AllValid (run getenv (new_server getenv) acts).0.sess
unfolding new_server
run-AllValid getenv acts = run_from-AllValid getenv _ acts AllValid-empty
