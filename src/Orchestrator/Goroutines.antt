-- ===== src/Orchestrator/Goroutines.antt =====
-- What a property of the session map needs so that the language model goroutines of
-- internal/orchestrator keep it.
use yuzu_agent_webrtc_toy.Prelude.{
  ℕ, ◌≡◌, refl, Bool, true, false, inl, inr, Option, none, some, arith, Bool-cases, Option-cases,
}
use yuzu_agent_webrtc_toy.Text.{Str, is_empty}
use yuzu_agent_webrtc_toy.Maps.{Map, lookup, insert}
use yuzu_agent_webrtc_toy.Clock.{Time}
use yuzu_agent_webrtc_toy.Orchestrator.State.{SessionState, Server}
use yuzu_agent_webrtc_toy.Orchestrator.Env.{Getenv}
use yuzu_agent_webrtc_toy.Orchestrator.Llm.{
  LlmCalls, LlmMessage, sentence, token, llm_error, usage, connected, Opened, attach_llm,
  detach_llm, get_llm_client, drop_llm_conn, reconnect_llm, reopen_stream, open_stream, send_start,
  start_llm, first_sentence, on_llm_message,
}

-- Getting, dropping and redialling the client leaves the sessions alone.
sess-get_llm_client : (s : Server) (d : Option ℕ) → (get_llm_client s d).0.sess ≡ s.sess
unfolding get_llm_client
sess-get_llm_client s d = ground arith

sess-reconnect_llm :
    (s : Server) (waited : Bool) (d : Option ℕ) → (reconnect_llm s waited d).0.sess ≡ s.sess
unfolding reconnect_llm drop_llm_conn
sess-reconnect_llm s waited d = ground arith

sess-reopen_stream : (s : Server) (calls : LlmCalls) → (reopen_stream s calls).0.sess ≡ s.sess
unfolding reopen_stream
sess-reopen_stream s calls = ground (
  arith,
  sess-reconnect_llm s calls.waited calls.redialled,
  sess-get_llm_client (reconnect_llm s calls.waited calls.redialled).0 calls.dialled_again,
)

sess-open_stream :
    (s : Server) (calls : LlmCalls) (o : Opened) → (open_stream s calls o).0.sess ≡ s.sess
unfolding open_stream
sess-open_stream s calls Opened.opened = refl
sess-open_stream s calls Opened.other_error = refl
sess-open_stream s calls Opened.unavailable = sess-reopen_stream s calls
sess-open_stream s calls Opened.resource_exhausted = sess-reopen_stream s calls

module _ (P : Map SessionState → Type 0) where
  -- Attaching to a session, and detaching from it.
  pub attach_llm_keeps :
      (s : Server) (sid : Str) (handle : ℕ)
      → ((st : SessionState)
          → lookup sid s.sess ≡ some st
          → P (insert sid (record st { llm_cancel = some handle; llm_active = true }) s.sess))
      → P s.sess
      → P (attach_llm s sid handle).sess
  unfolding attach_llm
  attach_llm_keeps s sid handle write p = elim (Option-cases (lookup sid s.sess)) [
    | inl e ↦ rw e p
    | inr (st, e) ↦ rw e (write st e)
  ]

  pub detach_llm_keeps :
      (s : Server) (sid : Str)
      → ((st : SessionState)
          → lookup sid s.sess ≡ some st
          → P (insert sid (record st { llm_active = false; llm_cancel = none }) s.sess))
      → P s.sess
      → P (detach_llm s sid).sess
  unfolding detach_llm
  detach_llm_keeps s sid write p = elim (Option-cases (lookup sid s.sess)) [
    | inl e ↦ rw e p
    | inr (st, e) ↦ rw e (write st e)
  ]

  pub on_llm_message_keeps :
      (s : Server) (sid : Str) (m : LlmMessage) (now : Time)
      → ((st : SessionState)
          → lookup sid s.sess ≡ some st
          → P (insert sid (first_sentence st now).0 s.sess))
      → P s.sess
      → P (on_llm_message s sid m now).0.sess
  unfolding on_llm_message
  on_llm_message_keeps s sid (sentence text) now write p = elim (Bool-cases (is_empty text)) [
    | inl blank ↦ rw blank p
    | inr said ↦ elim (Option-cases (lookup sid s.sess)) [
      | inl e ↦ rw (said, e, on_llm_message) p
      | inr (st, e) ↦ rw (said, e, on_llm_message) (write st e)
    ]
  ]
  on_llm_message_keeps s sid (token text) now write p = p
  on_llm_message_keeps s sid (llm_error message) now write p = p
  on_llm_message_keeps s sid usage now write p = p
  on_llm_message_keeps s sid connected now write p = p

module _ (P : Map SessionState → Type 0) (getenv : Getenv) (sid text : Str) (handle : ℕ)
    (attach : (s : Server) → P s.sess → P (attach_llm s sid handle).sess)
    (detach : (s : Server) → P s.sess → P (detach_llm s sid).sess) where
  send_start_keeps :
      (s : Server) (sent : Bool) → P s.sess → P (send_start getenv s sid text handle sent).0.sess
  unfolding send_start
  send_start_keeps s true p = attach s p
  send_start_keeps s false p = detach (attach_llm s sid handle) (attach s p)

  -- `startLLM`, with all results of its calls.
  pub start_llm_keeps :
      (s : Server) (calls : LlmCalls)
      → P s.sess
      → P (start_llm getenv s sid text handle calls).0.sess
  unfolding start_llm
  start_llm_keeps s calls p =
      let s' = (get_llm_client s calls.dialled).0 in
      let p' : P s'.sess = rw (sess-get_llm_client s calls.dialled) p in
      let p'' : P (open_stream s' calls calls.first_open).0.sess =
        rw (sess-open_stream s' calls calls.first_open) p' in
      elim (Option-cases (get_llm_client s calls.dialled).1) [
        | inl e ↦ rw (e, start_llm) p'
        | inr (c, e) ↦
            rw (e, start_llm)
              (elim (Bool-cases (open_stream s' calls calls.first_open).1) [
                | inl up ↦ rw up (send_start_keeps _ calls.sent p'')
                | inr down ↦ rw down p''
              ])
      ]
