-- ===== src/Orchestrator/Llm.antt =====
-- internal/orchestrator/llm_client.go, session.go and the language model part of conversation.go.
-- The results of the gRPC calls are arguments.
use Prim.Native.Nat.{min}
use yuzu_agent_webrtc_toy.Prelude.{
  ℕ, ◌+◌, ◌*◌, ◌^◌, Bool, true, false, not, ◌&&◌, List, [], ◌∷◌, ◌++◌, Option, none, some,
  if◌then◌else◌,
}
use yuzu_agent_webrtc_toy.Prelude.Int.{pos, ltb_ℤ}
use yuzu_agent_webrtc_toy.Text.{Str, codes, is_empty}
use yuzu_agent_webrtc_toy.Maps.{lookup, insert}
use yuzu_agent_webrtc_toy.Clock.{Time, is_zero, sub_time, milliseconds, millisecond}
use yuzu_agent_webrtc_toy.Orchestrator.State.{
  SessionState, Server, Effect, send, observe, cancel, start_tts, llm_sentence_latency,
}
use yuzu_agent_webrtc_toy.Orchestrator.Env.{Getenv}

-- `attachLLM`
attach_session : Str → ℕ → Server → Option SessionState → Server
attach_session sid handle s none = s
attach_session sid handle s (some st) = record s {
  sess = insert sid (record st { llm_cancel = some handle; llm_active = true }) s.sess;
}

unfoldable pub attach_llm : Server → Str → ℕ → Server
unfolding attach_session
attach_llm s sid handle = attach_session sid handle s (lookup sid s.sess)

-- `detachLLM`
detach_session : Str → Server → Option SessionState → Server
detach_session sid s none = s
detach_session sid s (some st) = record s {
  sess = insert sid (record st { llm_active = false; llm_cancel = none }) s.sess;
}

unfoldable pub detach_llm : Server → Str → Server
unfolding detach_session
detach_llm s sid = detach_session sid s (lookup sid s.sess)

-- `getLLMClient`; `dialled` is the result of `grpc.DialContext`. The result is the client.
dial_client : Server → Option ℕ → Server × Option ℕ
dial_client s none = (s, none)
dial_client s (some conn) = (record s { llm_conn = some conn; llm_client = some conn }, some conn)

unfoldable pub get_llm_client : Server → Option ℕ → Server × Option ℕ
unfolding dial_client
get_llm_client s dialled = elim s.llm_client [
  | some client ↦ (s, some client)
  | none ↦ dial_client s dialled
]

-- The time that `reconnectLLM` waits, in nanoseconds; `jitter` is drawn below 200 ms.
unfoldable pub reconnect_delay : ℕ → ℕ → ℕ
reconnect_delay attempt jitter = 2 ^ min attempt 5 * (200 * millisecond) + jitter

-- The part of `reconnectLLM` before the wait: it drops the connection.
unfoldable pub drop_llm_conn : Server → Server
drop_llm_conn s = elim s.llm_conn [
  | none ↦ s
  | some conn ↦ record s { llm_conn = none; llm_client = none }
]

-- `reconnectLLM`; `waited` says that the timer fired before the context was cancelled. The result
-- is whether it returned no error.
unfoldable pub reconnect_llm : Server → Bool → Option ℕ → Server × Bool
unfolding drop_llm_conn get_llm_client
reconnect_llm s waited dialled =
    if waited
    then (let (s', client) = get_llm_client (drop_llm_conn s) dialled in
        (s', elim client [ none ↦ false | some c ↦ true ]))
    else (drop_llm_conn s, false)

-- What a call of `client.Session` returns: a stream, or an error with its gRPC code.
pub data Opened : Type 0 where
  opened unavailable resource_exhausted other_error : Opened

-- The results of the calls that `startLLM` makes, in its order.
pub record LlmCalls : Type 0 where
  pub dialled : Option ℕ
  pub first_open : Opened
  pub waited : Bool
  pub redialled : Option ℕ
  pub dialled_again : Option ℕ
  pub second_open : Bool
  pub sent : Bool

-- The reconnection, and the second try on the new connection: whether that opened a stream.
unfoldable pub reopen_stream : Server → LlmCalls → Server × Bool
unfolding reconnect_llm get_llm_client
reopen_stream s calls =
    let (s', reconnected) = reconnect_llm s calls.waited calls.redialled in
    if reconnected
    then (let (s'', client) = get_llm_client s' calls.dialled_again in
        (s'', elim client [ none ↦ false | some c ↦ calls.second_open ]))
    else (s', false)

-- `client.Session(ctx)` with its one reconnection: whether a stream was opened.
unfoldable pub open_stream : Server → LlmCalls → Opened → Server × Bool
unfolding reopen_stream
open_stream s calls opened = (s, true)
open_stream s calls other_error = (s, false)
open_stream s calls unavailable = reopen_stream s calls
open_stream s calls resource_exhausted = reopen_stream s calls

-- The `StartRequest`, but for its `RequestId`, which is the time of day.
pub record StartRequest : Type 0 where
  pub session_id : Str
  pub deployment : Str
  pub api_version : Str
  pub messages : List (Str × Str)
  pub stream : Bool

-- `if v == "" { v = w }`
abbrev pub or_else : Str → Str → Str
or_else v w = if is_empty v then w else v

abbrev default_prompt : Str
default_prompt =
    codes "You are a friendly voice assistant. Respond in 1-2 short sentences. "
    ++ (codes "Be conversational and natural. Never use bullet points, lists, markdown, "
        ++ codes "or special formatting. Your responses will be spoken aloud via text-to-speech.")

-- The request that `startLLM` builds from the environment.
unfoldable pub start_request : Getenv → Str → Str → StartRequest
start_request getenv sid text = record {
  session_id = sid;
  deployment = or_else (getenv (codes "LLM_DEPLOYMENT")) (getenv (codes "AZURE_OPENAI_DEPLOYMENT"));
  api_version =
      or_else
        (or_else (getenv (codes "LLM_API_VERSION")) (getenv (codes "AZURE_OPENAI_API_VERSION")))
        (codes "2024-02-15-preview");
  messages =
      (codes "system", or_else (getenv (codes "LLM_SYSTEM_PROMPT")) default_prompt)
      ∷ (codes "user", text)
      ∷ [];
  stream = true;
}

-- `startLLM` from the opened stream on: the session holds the cancel function while it sends.
unfoldable pub send_start :
    Getenv → Server → Str → Str → ℕ → Bool → Server × List Effect × Option StartRequest
unfolding attach_llm detach_llm
send_start getenv s sid text handle sent =
    let s' = attach_llm s sid handle in
    if sent
    then (s', [], some (start_request getenv sid text))
    else (detach_llm s' sid, cancel handle ∷ [], none)

-- `startLLM`; `handle` is the cancel function of its context. The result is the request that was
-- sent, and then its goroutine reads the stream.
unfoldable pub start_llm :
    Getenv → Server → Str → Str → ℕ → LlmCalls → Server × List Effect × Option StartRequest
unfolding get_llm_client open_stream send_start
start_llm getenv s sid text handle calls =
    let (s', client) = get_llm_client s calls.dialled in
    elim client [
      | none ↦ (s', cancel handle ∷ [], none)
      | some c ↦
          let (s'', has_stream) = open_stream s' calls calls.first_open in
          if has_stream
          then send_start getenv s'' sid text handle calls.sent
          else (s'', cancel handle ∷ [], none)
    ]

-- The messages of the language model service.
pub data LlmMessage : Type 0 where
  sentence token llm_error : Str → LlmMessage
  usage connected : LlmMessage

-- The first sentence behind a final transcript: its latency, and that it was seen.
unfoldable pub first_sentence : SessionState → Time → SessionState × List Effect
first_sentence st now =
    if not st.llm_first_sentence && not (is_zero st.last_transcript_final)
    then (
      record st { llm_first_sentence = true },
      if ltb_ℤ (pos 0) (sub_time now st.last_transcript_final)
          then observe llm_sentence_latency (milliseconds (sub_time now st.last_transcript_final))
            ∷ []
          else [],
    )
    else (st, [])

see_sentence : Str → Server → Time → Option SessionState → Server × List Effect
unfolding first_sentence
see_sentence sid s now none = (s, [])
see_sentence sid s now (some st) =
    let (st', seen) = first_sentence st now in (record s { sess = insert sid st' s.sess }, seen)

-- The body of the loop of `streamLLMResponses`, after a successful `Recv`.
unfoldable pub on_llm_message : Server → Str → LlmMessage → Time → Server × List Effect
unfolding see_sentence
on_llm_message s sid (sentence text) now =
    if is_empty text
    then (s, [])
    else (let (s', seen) = see_sentence sid s now (lookup sid s.sess) in
        (s', seen ++ send sid (start_tts text) ∷ []))
on_llm_message s sid (token text) now = (s, [])
on_llm_message s sid (llm_error message) now = (s, [])
on_llm_message s sid usage now = (s, [])
on_llm_message s sid connected now = (s, [])

-- The end of `streamLLMResponses`, by an error of `Recv`: its deferred calls.
unfoldable pub on_llm_closed : Server → Str → ℕ → Server × List Effect
unfolding detach_llm
on_llm_closed s sid handle = (detach_llm s sid, cancel handle ∷ [])
