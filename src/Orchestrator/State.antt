-- ===== src/Orchestrator/State.antt =====
-- internal/orchestrator/server.go: the state of a session and of the server, the messages of
-- proto/gateway_control.proto, and what an operation does to the world around it.
use yuzu_agent_webrtc_toy.Prelude.{ℕ, Bool, true, false, Option, none, leb, ltb}
use yuzu_agent_webrtc_toy.Prelude.Int.{ℤ}
use yuzu_agent_webrtc_toy.Text.{Str}
use yuzu_agent_webrtc_toy.Maps.{Map}
use yuzu_agent_webrtc_toy.Clock.{Time}

-- The field `state`: the empty string of a new session, and the four that are ever assigned.
pub data Phase : Type 0 where
  unset idle listening processing speaking_phase : Phase

-- A `float64` that came as a `float` on the wire, as far as a comparison with a threshold that is a
-- natural number can tell: the integer part of a number, or one of the values without one.
pub data Rms : Type 0 where
  not_a_number below_zero infinite : Rms
  level : ℕ → Rms

-- `rms >= threshold`
abbrev pub rms_ge : Rms → ℕ → Bool
rms_ge not_a_number n = false
rms_ge below_zero n = false
rms_ge infinite n = true
rms_ge (level r) n = leb n r

-- `rms < threshold`
abbrev pub rms_lt : Rms → ℕ → Bool
rms_lt not_a_number n = false
rms_lt below_zero n = true
rms_lt infinite n = false
rms_lt (level r) n = ltb r n

-- `sessionState`. A `context.CancelFunc` is a handle, and `nil` is `none`; `min_rms` is a `float64`
-- that only ever holds an integer.
pub record SessionState : Type 0 where
  pub id : Str
  pub state : Phase
  pub speaking : Bool
  pub consec_speech : ℕ
  pub non_speech : ℕ
  pub min_start : ℕ
  pub hangover : ℕ
  pub min_rms : ℕ
  pub guard_until : Time
  pub armed_at : Time
  pub last_feature_start : Time
  pub last_gateway_start : Time
  pub llm_cancel : Option ℕ
  pub llm_active : Bool
  pub last_transcript_final : Time
  pub llm_first_sentence : Bool

-- `Server`. The gRPC connection to the language model and the client over it are handles, and `nil`
-- is `none`.
pub record Server : Type 0 where
  pub sess : Map SessionState
  pub vad_source : Str
  pub llm_conn : Option ℕ
  pub llm_client : Option ℕ

-- The commands of an `OrchestratorCommand` that the program sends.
pub data Command : Type 0 where
  start_mic_to_stt : Command
  start_tts : Str → Command
  stop_tts : Str → Command
  arm_barge_in : ℕ → ℕ → Command

pub data Counter : Type 0 where
  vad_features vad_starts vad_ends barge_in barge_in_total barge_in_guard_blocks : Counter

pub data Histogram : Type 0 where
  barge_in_latency vad_agree_gateway_ms vad_agree_feature_ms tts_first_audio : Histogram
  llm_sentence_latency : Histogram

-- What an operation does outside the state, in order: a command that it tries to send (a failed
-- send is only logged), a metric, the call of a cancel function, and `go s.startLLM(…)`.
pub data Effect : Type 0 where
  send : Str → Command → Effect
  inc : Counter → Effect
  observe : Histogram → ℤ → Effect
  transition : Phase → Phase → Effect
  cancel : ℕ → Effect
  spawn_llm : Str → Str → Effect

-- The events of a `GatewayEvent`, and a message with none of those that the server knows.
pub data GatewayEvent : Type 0 where
  session_open : Str → GatewayEvent
  vad_start : ℕ → GatewayEvent
  vad_end : ℕ → GatewayEvent
  transcript_interim : Str → Str → GatewayEvent
  transcript_final : Str → Str → GatewayEvent
  tts : Str → Str → ℕ → GatewayEvent
  gateway_error : Str → Str → GatewayEvent
  feature : Rms → GatewayEvent
  other : GatewayEvent

-- The literal `&sessionState{…}` of `getOrCreateSession`.
unfoldable pub new_session : Str → SessionState
new_session sid = record {
  id = sid;
  state = unset;
  speaking = false;
  consec_speech = 0;
  non_speech = 0;
  min_start = 2;
  hangover = 20;
  min_rms = 1200;
  guard_until = 0;
  armed_at = 0;
  last_feature_start = 0;
  last_gateway_start = 0;
  llm_cancel = none;
  llm_active = false;
  last_transcript_final = 0;
  llm_first_sentence = false;
}
