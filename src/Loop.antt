-- ===== src/Loop.antt =====
-- internal/loop/dispatcher.go: the backend's control loop over the messages of a worker.
use yuzu_agent_webrtc_toy.Prelude.{
  ℕ, ◌*◌, Bool, true, false, not, ◌&&◌, ◌||◌, List, [], ◌∷◌, ◌++◌, Option, none, some, leb, ltb,
  if◌then◌else◌,
}
use yuzu_agent_webrtc_toy.Prelude.Int.{ℤ, pos, ◌-ℤ◌, ltb_ℤ, wrap_i64}
use yuzu_agent_webrtc_toy.Text.{Str, codes, str_eq, is_empty}
use yuzu_agent_webrtc_toy.Maps.{Map, lookup, insert}
use yuzu_agent_webrtc_toy.Clock.{Time, is_zero, sub_time, seconds, unix_milli}
use yuzu_agent_webrtc_toy.Json.{Payload, text, num, get_text}
use yuzu_agent_webrtc_toy.Floor.{
  Manager, Decision, new_manager, on_tts_started, on_tts_stopped, on_vad_start, on_vad_end,
}
pub mod Invariant
pub mod Stops
pub mod History

-- `workerws.Message`
pub record Message : Type 0 where
  pub type : Str
  pub ts_ms : ℤ
  pub session_id : Str
  pub seq : ℤ
  pub command_id : Str
  pub utterance_id : Str
  pub payload : Payload

-- `sessState`
pub record SessState : Type 0 where
  pub fsm : Manager
  pub last_vad_ts_ms : ℤ
  pub last_vad_recv_ms : ℤ
  pub stopping : Bool
  pub pending_cmd_id : Str
  pub tts_start_recv : Time
  pub barge_in_armed : Bool

-- `Dispatcher`; its registry and its store are reached through the effects.
pub record Dispatcher : Type 0 where
  pub sessions : Map SessState
  pub tts_timeout_sec : ℤ

-- What a message makes the dispatcher do, in order: an event for the store, and a message to the
-- worker, whose failure is ignored.
pub data Effect : Type 0 where
  append : Str → Payload → Effect
  send_json : Message → Effect

-- `&sessState{fsm: floor.New()}`
unfoldable pub new_sess_state : SessState
unfolding new_manager
new_sess_state = record {
  fsm = new_manager;
  last_vad_ts_ms = pos 0;
  last_vad_recv_ms = pos 0;
  stopping = false;
  pending_cmd_id = [];
  tts_start_recv = 0;
  barge_in_armed = false;
}

-- `state`
abbrev or_new_state : Option SessState → SessState
or_new_state none = new_sess_state
or_new_state (some s) = s

unfoldable pub state : Dispatcher → Str → SessState
state d session_id = or_new_state (lookup session_id d.sessions)

-- A text of the payload, or the empty one.
abbrev or_empty : Option Str → Str
or_empty none = []
or_empty (some s) = s

-- "tts_started"
unfoldable pub tts_started : SessState → Message → Time → SessState × List Effect
tts_started s msg now =
    let (fsm, decision) = on_tts_started s.fsm msg.utterance_id msg.ts_ms in
    (
      record s { fsm = fsm; tts_start_recv = now; barge_in_armed = false },
      append (codes "tts_started_backend_recv")
            (some ((codes "recv_ms", num (pos (unix_milli now))) ∷ []))
          ∷ [],
    )

-- "tts_first_audio"
unfoldable pub tts_first_audio : SessState → Time → SessState × List Effect
tts_first_audio s now = (
  record s { barge_in_armed = true },
  append (codes "tts_first_audio_backend_recv")
        (some ((codes "recv_ms", num (pos (unix_milli now))) ∷ []))
      ∷ [],
)

-- The event of an interruption, with its two latencies.
unfoldable pub latency_event : SessState → Message → Time → Effect
latency_event s msg now = append (codes "barge_in_latency") (
    some (
      (codes "worker_ms", num (wrap_i64 (msg.ts_ms -ℤ s.last_vad_ts_ms)))
      ∷ (codes "backend_ms", num (wrap_i64 (pos (unix_milli now) -ℤ s.last_vad_recv_ms)))
      ∷ (codes "utterance_id", text msg.utterance_id)
      ∷ (codes "vad_ts_ms", num s.last_vad_ts_ms)
      ∷ (codes "tts_stop_ts_ms", num msg.ts_ms)
      ∷ (codes "recv_vad_ms", num s.last_vad_recv_ms)
      ∷ (codes "recv_tts_stop_ms", num (pos (unix_milli now)))
      ∷ []))

-- "tts_stopped"
unfoldable pub tts_stopped : SessState → Message → Time → SessState × List Effect
tts_stopped s msg now =
    let reason = or_empty (get_text (codes "reason") msg.payload) in
    let (fsm, decision) = on_tts_stopped s.fsm msg.utterance_id msg.ts_ms reason in
    (
      record s { fsm = fsm; barge_in_armed = false; stopping = false; pending_cmd_id = [] },
      if str_eq reason (codes "interrupted") && ltb_ℤ (pos 0) s.last_vad_ts_ms
          then latency_event s msg now ∷ []
          else [],
    )

-- The command of a barge-in.
unfoldable pub stop_command : Str → Str → Str → Time → Message
stop_command session_id cmd_id utterance_id now = record {
  type = codes "stop_tts";
  ts_ms = pos (unix_milli now);
  session_id = session_id;
  seq = pos 0;
  command_id = cmd_id;
  utterance_id = utterance_id;
  payload = some ((codes "mode", text (codes "current")) ∷ []);
}

-- `source == "candidate_audio" || source == "debug"`
unfoldable pub is_barge_in_source : Str → Bool
is_barge_in_source source = str_eq source (codes "candidate_audio") || str_eq source (codes "debug")

-- "vad_start"; `cmd_id` is the fresh `uuid`.
unfoldable pub vad_start : SessState → Str → Message → Str → Time → SessState × List Effect
vad_start s session_id msg cmd_id now =
    let source = or_empty (get_text (codes "source") msg.payload) in
    let (fsm, dec) = on_vad_start s.fsm msg.ts_ms in
    let s' = record s {
      fsm = fsm;
      last_vad_ts_ms = msg.ts_ms;
      last_vad_recv_ms = pos (unix_milli now);
    } in
    if s.barge_in_armed && (is_barge_in_source source && (dec.should_stop && not s.stopping))
    then (
      record s' { stopping = true; pending_cmd_id = cmd_id },
      send_json (stop_command session_id cmd_id dec.stop_utterance_id now)
          ∷ append (codes "stop_tts_sent") (
              some (
                (codes "command_id", text cmd_id)
                ∷ (codes "utterance_id", text dec.stop_utterance_id)
                ∷ []))
          ∷ [],
    )
    else (s', [])

-- "cmd_ack"
unfoldable pub cmd_ack : SessState → Message → SessState × List Effect
cmd_ack s msg = (
  s,
  append (codes "cmd_ack") (
        if not (is_empty msg.command_id) && str_eq msg.command_id s.pending_cmd_id
        then some ((codes "command_id", text msg.command_id) ∷ [])
        else some (
            (codes "command_id", text msg.command_id)
            ∷ (codes "note", text (codes "unexpected"))
            ∷ []))
      ∷ [],
)

-- "worker_hello"
unfoldable pub worker_hello : SessState → SessState
worker_hello s = record s { fsm = new_manager; stopping = false; pending_cmd_id = [] }

-- The types of messages that the switch of `OnMessage` names.
pub data Kind : Type 0 where
  tts_started_kind tts_first_audio_kind tts_stopped_kind vad_start_kind vad_end_kind : Kind
  cmd_ack_kind worker_hello_kind other_kind : Kind

unfoldable pub kind_of : Str → Kind
kind_of type =
    if str_eq type (codes "tts_started")
    then tts_started_kind
    else if str_eq type (codes "tts_first_audio")
    then tts_first_audio_kind
    else if str_eq type (codes "tts_stopped")
    then tts_stopped_kind
    else if str_eq type (codes "vad_start")
    then vad_start_kind
    else if str_eq type (codes "vad_end")
    then vad_end_kind
    else if str_eq type (codes "cmd_ack")
    then cmd_ack_kind
    else if str_eq type (codes "worker_hello")
    then worker_hello_kind
    else other_kind

-- The switch of `OnMessage`.
unfoldable pub dispatch : Kind → SessState → Str → Message → Str → Time → SessState × List Effect
unfolding tts_started tts_first_audio tts_stopped vad_start cmd_ack worker_hello
dispatch tts_started_kind s session_id msg cmd_id now = tts_started s msg now
dispatch tts_first_audio_kind s session_id msg cmd_id now = tts_first_audio s now
dispatch tts_stopped_kind s session_id msg cmd_id now = tts_stopped s msg now
dispatch vad_start_kind s session_id msg cmd_id now = vad_start s session_id msg cmd_id now
dispatch vad_end_kind s session_id msg cmd_id now =
    let (fsm, decision) = on_vad_end s.fsm msg.ts_ms in (record s { fsm = fsm }, [])
dispatch cmd_ack_kind s session_id msg cmd_id now = cmd_ack s msg
dispatch worker_hello_kind s session_id msg cmd_id now = (worker_hello s, [])
dispatch other_kind s session_id msg cmd_id now = (s, [])

-- The test of the safety timeout.
unfoldable pub timed_out : SessState → ℤ → Time → Bool
timed_out s timeout_sec now =
    not (is_zero s.tts_start_recv) && ltb_ℤ (seconds timeout_sec) (sub_time now s.tts_start_recv)

-- The safety timeout.
unfoldable pub check_timeout : SessState → ℤ → Time → SessState × List Effect
unfolding timed_out
check_timeout s timeout_sec now =
    if timed_out s timeout_sec now
    then (
      record s { fsm = new_manager; stopping = false; pending_cmd_id = []; tts_start_recv = 0 },
      append (codes "tts_timeout_reset") none ∷ [],
    )
    else (s, [])

-- `OnMessage` on the state of the session.
unfoldable pub handle : SessState → ℤ → Str → Message → Str → Time → SessState × List Effect
handle s timeout_sec session_id msg cmd_id now =
    let (s', effects) = dispatch (kind_of msg.type) s session_id msg cmd_id now in
    let (s'', more) = check_timeout s' timeout_sec now in (s'', effects ++ more)

-- `OnMessage`
unfoldable pub on_message : Dispatcher → Str → Message → Str → Time → Dispatcher × List Effect
unfolding state
on_message d session_id msg cmd_id now =
    let (s', effects) = handle (state d session_id) d.tts_timeout_sec session_id msg cmd_id now in
    (record d { sessions = insert session_id s' d.sessions }, effects)
