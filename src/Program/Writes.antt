-- ===== src/Program/Writes.antt =====
-- What a message of a worker makes the backend write, from internal/workerws through internal/loop back
-- to the connection of the worker.
use mathlib.Core.List.{append-nil, append_assoc}
use yuzu_agent_webrtc_toy.Prelude.{
  ℕ, ◌≡◌, refl, sym, ap, ◌∙◌, Bool, true, false, not, List, [], ◌∷◌, ◌++◌, Option, none, some,
  arith, if◌then◌else◌, Bool-cases, inl, inr,
}
use yuzu_agent_webrtc_toy.Text.{Str, codes, str_eq, is_empty}
use yuzu_agent_webrtc_toy.Maps.{Map, lookup, insert, lookup-insert}
use yuzu_agent_webrtc_toy.Clock.{Time}
use yuzu_agent_webrtc_toy.Json.{Value, Payload, get_text}
use yuzu_agent_webrtc_toy.Loop.{
  SessState, Message, Effect, append, send_json, Kind, tts_started_kind, tts_first_audio_kind,
  tts_stopped_kind, vad_start_kind, vad_end_kind, cmd_ack_kind, worker_hello_kind, other_kind,
  dispatch, check_timeout, handle, kind_of, latency_event, state, stop_command,
}
use yuzu_agent_webrtc_toy.Loop.Stops.{barges_in, messages, messages-handle, command_of}
use yuzu_agent_webrtc_toy.WorkerWs.{Server, written}
use yuzu_agent_webrtc_toy.WorkerWs.Messages.{
  enrich, enrich_message, policy, on_hello, check_seq, on_worker_message,
}
use yuzu_agent_webrtc_toy.Program.{Program, Write, perform, on_message, decoded, on_read}
use yuzu_agent_webrtc_toy.Loop
use yuzu_agent_webrtc_toy.WorkerWs

-- The messages, each written to the connection.
unfoldable pub write_all : Option ℕ → List Message → List Write
write_all conn [] = []
write_all conn (msg ∷ msgs) = written conn msg ++ write_all conn msgs

perform-writes :
    (s : Server) (session_id : Str) (es : List Effect) (now : Time)
    → (perform s session_id es now).1 ≡ write_all (lookup session_id s.conns) (messages es)
unfolding perform write_all messages
perform-writes s session_id [] now = refl
perform-writes s session_id (append type payload ∷ es) now =
    perform-writes (WorkerWs.append s session_id type payload now) session_id es now
perform-writes s session_id (send_json msg ∷ es) now =
    ap (λ ws. written (lookup session_id s.conns) msg ++ ws) (perform-writes s session_id es now)

-- The fields that the handler writes into a payload leave its "source".
source_of : Map Value → Option Value
unfolding lookup
source_of m = lookup (codes "source") m

source_of-insert :
    (b : Bool) (key : Str) (v : Value) (m : Map Value)
    → str_eq key (codes "source") ≡ false
    → source_of (if b then insert key v m else m) ≡ source_of m
unfolding source_of
source_of-insert true key v m h = lookup-insert key (codes "source") v m ∙ rw h refl
source_of-insert false key v m h = refl

source_of-enrich : (msg : Message) (m : Map Value) → source_of (enrich msg m) ≡ source_of m
unfolding enrich str_eq
source_of-enrich msg m =
    source_of-insert (not (is_empty msg.utterance_id)) (codes "utterance_id") _ _ refl
    ∙ (source_of-insert (not (is_empty msg.command_id)) (codes "command_id") _ _ refl
        ∙ (source_of-insert true (codes "seq") _ _ refl
            ∙ source_of-insert true (codes "ts_ms") _ m refl))

text-enrich_message :
    (msg : Message) (payload : Payload)
    → msg.payload ≡ payload
    → get_text (codes "source") (enrich_message msg payload).payload
      ≡ get_text (codes "source") payload
unfolding enrich_message get_text source_of
text-enrich_message msg none h = rw h refl
text-enrich_message msg (some m) h = simp (source_of-enrich msg m)

type-enrich_message :
    (msg : Message) (payload : Payload) → (enrich_message msg payload).type ≡ msg.type
unfolding enrich_message
type-enrich_message msg none = refl
type-enrich_message msg (some m) = refl

barges_in-enrich :
    (s : SessState) (msg : Message) → barges_in s (enrich_message msg msg.payload) ≡ barges_in s msg
barges_in-enrich s msg =
    rw (type-enrich_message msg msg.payload, text-enrich_message msg msg.payload refl) refl

-- The policy that answers a hello.
abbrev pub policies : Server → Str → Message → Time → List Message
policies s session_id msg now =
    if str_eq msg.type (codes "worker_hello")
    then policy session_id s.cfg.local_stop_enabled now ∷ []
    else []

pub conns-on_worker_message :
    (s : Server) (session_id : Str) (msg : Message) (write : Option Str) (now : Time)
    → (on_worker_message s session_id msg write now).0.conns ≡ s.conns
unfolding on_worker_message on_hello check_seq
conns-on_worker_message s session_id msg write now = ground arith

command_of-enrich :
    (s : SessState) (session_id : Str) (msg : Message) (cmd_id : Str) (now : Time)
    → let msg' = enrich_message msg msg.payload in
      command_of s session_id msg' cmd_id now (barges_in s msg')
      ≡ command_of s session_id msg cmd_id now (barges_in s msg)
command_of-enrich s session_id msg cmd_id now = rw (barges_in-enrich s msg) refl

writes-on_worker_message :
    (s : Server) (session_id : Str) (msg : Message) (write : Option Str) (now : Time)
    → (on_worker_message s session_id msg write now).1
      ≡ write_all (lookup session_id s.conns) (policies s session_id msg now)
unfolding on_worker_message on_hello write_all
writes-on_worker_message s session_id msg write now =
    elim (Bool-cases (str_eq msg.type (codes "worker_hello"))) [
      | inl e ↦ ground (
        arith,
        e,
        append-nil
            (written (lookup session_id s.conns) (policy session_id s.cfg.local_stop_enabled now)),
      )
      | inr e ↦ ground (arith, e)
    ]

write_all-append :
    (conn : Option ℕ) (ms ns : List Message)
    → write_all conn (ms ++ ns) ≡ write_all conn ms ++ write_all conn ns
unfolding write_all
write_all-append conn [] ns = refl
write_all-append conn (m ∷ ms) ns =
    ap (λ ws. written conn m ++ ws) (write_all-append conn ms ns)
    ∙ sym (append_assoc (written conn m) (write_all conn ms) (write_all conn ns))

pub on_message-writes :
    (p : Program) (session_id : Str) (msg : Message) (cmd_id : Str) (now : Time)
    → let s = state p.dispatcher session_id in
      (on_message p session_id msg cmd_id now).1
      ≡ write_all
          (lookup session_id p.ws.conns)
          (command_of s session_id msg cmd_id now (barges_in s msg))
unfolding on_message Loop.on_message
on_message-writes p session_id msg cmd_id now =
    let s = state p.dispatcher session_id in
    let timeout = p.dispatcher.tts_timeout_sec in
    let es = (handle s timeout session_id msg cmd_id now).1 in
    perform-writes p.ws session_id es now
    ∙ ap (write_all (lookup session_id p.ws.conns))
        (messages-handle s timeout session_id msg cmd_id now)

message-on_worker_message :
    (s : Server) (session_id : Str) (msg : Message) (write : Option Str) (now : Time)
    → (on_worker_message s session_id msg write now).2 ≡ enrich_message msg msg.payload
unfolding on_worker_message
message-on_worker_message s session_id msg write now = refl

-- A message of a worker makes the backend write at most two messages, both to the connection that is
-- registered for the session of the worker, or none where no connection is: the policy, if the message
-- is a hello, and then, if it is a start of speech from a source that counts, while the agent's audio
-- plays and no earlier command is outstanding, the command to stop the utterance that plays.
pub on_read-writes :
    (p : Program) (session_id : Str) (msg : Message) (write : Option Str) (cmd_id : Str)
    (now : Time)
    → let s = state p.dispatcher session_id in
      (on_read p session_id (decoded msg) write cmd_id now).1
      ≡ write_all (lookup session_id p.ws.conns) (
          policies p.ws session_id msg now
          ++ command_of s session_id msg cmd_id now (barges_in s msg))
unfolding on_read
on_read-writes p session_id msg write cmd_id now =
    let s = state p.dispatcher session_id in
    let conn = lookup session_id p.ws.conns in
    let p' : Program = record p { ws = (on_worker_message p.ws session_id msg write now).0 } in
    let msg' = enrich_message msg msg.payload in
    rw
      (
        write_all-append conn (policies p.ws session_id msg now)
            (command_of s session_id msg cmd_id now (barges_in s msg)),
        writes-on_worker_message p.ws session_id msg write now,
        message-on_worker_message p.ws session_id msg write now,
      )
      (ap (λ ws. write_all conn (policies p.ws session_id msg now) ++ ws)
        (on_message-writes p' session_id msg' cmd_id now
          ∙ rw
              (
                conns-on_worker_message p.ws session_id msg write now,
                command_of-enrich s session_id msg cmd_id now,
              )
              refl))
