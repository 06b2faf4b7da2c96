-- ===== src/Orchestrator/Server.antt =====
-- internal/orchestrator/server.go: the server, the loop body of its `Session` stream, and a step of
-- the whole process, which is an event of a stream or a step of a language model goroutine.
use yuzu_agent_webrtc_toy.Prelude.{
  ℕ, ◌+◌, ◌*◌, List, [], ◌∷◌, ◌++◌, Option, none, some, if◌then◌else◌,
}
use yuzu_agent_webrtc_toy.Text.{Str, codes, is_empty}
use yuzu_agent_webrtc_toy.Maps.{lookup, insert}
use yuzu_agent_webrtc_toy.Clock.{Time, second}
use yuzu_agent_webrtc_toy.Orchestrator.State.{
  Phase, unset, idle, listening, processing, speaking_phase, SessionState, Server, Effect, send,
  arm_barge_in, start_mic_to_stt, new_session, GatewayEvent, session_open, vad_start, vad_end,
  transcript_interim, transcript_final, tts, gateway_error, feature, other,
}
use yuzu_agent_webrtc_toy.Orchestrator.Env.{Getenv, env_guard_ms, env_min_rms}
use yuzu_agent_webrtc_toy.Orchestrator.Vad.{process_feature, process_gateway_vad}
use yuzu_agent_webrtc_toy.Orchestrator.Conversation.{
  set_state, handle_tts_event, handle_transcript_final,
}
use yuzu_agent_webrtc_toy.Orchestrator.Llm.{
  LlmCalls, LlmMessage, start_llm, on_llm_message, on_llm_closed,
}

-- `NewServer`
unfoldable pub new_server : Getenv → Server
new_server getenv =
    let source = getenv (codes "ORCH_VAD_SOURCE") in
    record {
      sess = [];
      vad_source = if is_empty source then codes "feature" else source;
      llm_conn = none;
      llm_client = none;
    }

-- `getOrCreateSession`: the session of the map, or the new one that it puts there.
abbrev or_new : Str → Option SessionState → SessionState
or_new sid none = new_session sid
or_new sid (some st) = st

unfoldable pub get_or_create_session : Server → Str → SessionState
get_or_create_session s sid = or_new sid (lookup sid s.sess)

-- `if st.state == "" { s.setState(st, "IDLE") }`
abbrev open_state : Phase → SessionState → SessionState × List Effect
open_state unset st = set_state st idle
open_state idle st = (st, [])
open_state listening st = (st, [])
open_state processing st = (st, [])
open_state speaking_phase st = (st, [])

-- `handleSessionOpen`
unfoldable pub handle_session_open : Getenv → SessionState → Str → Time → SessionState × List Effect
unfolding set_state
handle_session_open getenv st sid now =
    let (st', moved) = open_state st.state st in
    (
      record st' { min_rms = env_min_rms getenv; guard_until = now + 24 * 3600 * second },
      moved
          ++ send sid (arm_barge_in (env_guard_ms getenv) (env_min_rms getenv))
            ∷ send sid start_mic_to_stt
            ∷ [],
    )

-- The switch of `Session` over the event.
unfoldable pub handle_event :
    Getenv → Str → SessionState → Str → GatewayEvent → Time → SessionState × List Effect
unfolding handle_session_open
handle_event getenv source st sid (session_open room_url) now =
    handle_session_open getenv st sid now
handle_event getenv source st sid (feature rms) now =
    let (st', effects, triggered) = process_feature source st rms now sid in (st', effects)
handle_event getenv source st sid (vad_start ts_ms) now =
    let (st', effects, triggered) = process_gateway_vad source st now sid in (st', effects)
handle_event getenv source st sid (vad_end ts_ms) now = (st, [])
handle_event getenv source st sid (tts type reason first_audio_ms) now =
    handle_tts_event getenv st type first_audio_ms now
handle_event getenv source st sid (transcript_interim utterance text) now = (st, [])
handle_event getenv source st sid (transcript_final utterance text) now =
    handle_transcript_final st sid text now
handle_event getenv source st sid (gateway_error code message) now = (st, [])
handle_event getenv source st sid other now = (st, [])

-- `sid`, or "unknown" for a message without one.
abbrev pub session_id : Str → Str
session_id sid = if is_empty sid then codes "unknown" else sid

-- The body of the loop of `Session`, after a successful `Recv`.
unfoldable pub on_event : Getenv → Server → Str → GatewayEvent → Time → Server × List Effect
unfolding get_or_create_session
on_event getenv s raw_sid ev now =
    let sid = session_id raw_sid in
    let (st', effects) =
      handle_event getenv s.vad_source (get_or_create_session s sid) sid ev now in
    (record s { sess = insert sid st' s.sess }, effects)

-- What can happen next in the process. The last one is the end of a gateway stream, by a session that it
-- was for: `Session` returns, and nothing of the server changes.
pub data Action : Type 0 where
  event : Str → GatewayEvent → Action
  llm_started : Str → Str → ℕ → LlmCalls → Action
  llm_message : Str → LlmMessage → Action
  llm_closed : Str → ℕ → Action
  gateway_closed : Str → Action

unfoldable pub step : Getenv → Server → Action → Time → Server × List Effect
step getenv s (event sid ev) now = on_event getenv s sid ev now
step getenv s (llm_started sid text handle calls) now =
    let (s', effects, started) = start_llm getenv s sid text handle calls in (s', effects)
step getenv s (llm_message sid message) now = on_llm_message s sid message now
step getenv s (llm_closed sid handle) now = on_llm_closed s sid handle
step getenv s (gateway_closed sid) now = (s, [])

-- A history of the process, and all that it did on the way.
unfoldable pub run : Getenv → Server → List (Action × Time) → Server × List Effect
run getenv s [] = (s, [])
run getenv s ((a, now) ∷ rest) =
    let (s', effects) = step getenv s a now in
    let (s'', more) = run getenv s' rest in (s'', effects ++ more)
