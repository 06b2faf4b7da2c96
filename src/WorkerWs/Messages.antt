-- ===== src/WorkerWs/Messages.antt =====
-- internal/workerws/handler.go: what a message of a worker does to the store and to the sequence
-- numbers, and the message for the dispatcher.
use yuzu_agent_webrtc_toy.Prelude.{
  ℕ, Bool, not, ◌&&◌, ◌||◌, List, [], ◌∷◌, Option, none, some, if◌then◌else◌,
}
use yuzu_agent_webrtc_toy.Prelude.Int.{ℤ, pos, ◌-ℤ◌, ◌+ℤ◌, ltb_ℤ, wrap_i64}
use yuzu_agent_webrtc_toy.Text.{Str, codes, str_eq, is_empty}
use yuzu_agent_webrtc_toy.Maps.{Map, lookup, insert}
use yuzu_agent_webrtc_toy.Clock.{Time, unix_milli}
use yuzu_agent_webrtc_toy.Json.{Value, Payload, text, num, bool, get_bool}
use yuzu_agent_webrtc_toy.Store.{set_local_stop_capable, set_local_stop_enabled, or_zero}
use yuzu_agent_webrtc_toy.Loop.{Message}
use yuzu_agent_webrtc_toy.WorkerWs.{Server, append, send_json, written}

-- The payload of a message with the fields that the handler writes into it.
abbrev when : Bool → Str → Value → Map Value → Map Value
when b key v m = if b then insert key v m else m

unfoldable pub enrich : Message → Map Value → Map Value
enrich msg m =
    when (not (is_empty msg.utterance_id)) (codes "utterance_id") (text msg.utterance_id) (
      when (not (is_empty msg.command_id)) (codes "command_id") (text msg.command_id)
        (insert (codes "seq") (num msg.seq) (insert (codes "ts_ms") (num msg.ts_ms) m)))

-- `payload`, and the message whose map it shares.
unfoldable pub enrich_payload : Message → Payload → Payload
enrich_payload msg none = some (enrich msg [])
enrich_payload msg (some m) = some (enrich msg m)

unfoldable pub enrich_message : Message → Payload → Message
enrich_message msg none = msg
enrich_message msg (some m) = record msg { payload = some (enrich msg m) }

abbrev pub set_capable : Server → Str → Option Bool → Server
set_capable s session_id none = s
set_capable s session_id (some v) = record s { store = set_local_stop_capable s.store session_id v }

abbrev pub policy_event : Server → Str → Option Str → Time → Server
policy_event s session_id none now =
    append s session_id (codes "worker_policy_sent")
      (some ((codes "local_stop_enabled", bool s.cfg.local_stop_enabled) ∷ [])) now
policy_event s session_id (some err) now =
    append s session_id (codes "worker_policy_send_error") (some ((codes "error", text err) ∷ []))
      now

-- The policy that answers "worker_hello".
unfoldable pub policy : Str → Bool → Time → Message
policy session_id enabled now = record {
  type = codes "policy";
  ts_ms = pos (unix_milli now);
  session_id = session_id;
  seq = pos 0;
  command_id = [];
  utterance_id = [];
  payload = some ((codes "local_stop_enabled", bool enabled) ∷ []);
}

-- "worker_hello": the server, and what it writes.
unfoldable pub on_hello : Server → Str → Message → Option Str → Time → Server × List (ℕ × Message)
on_hello s session_id msg write now =
    let s' = set_capable s session_id (get_bool (codes "local_stop_capable") msg.payload) in
    let enabled = s'.cfg.local_stop_enabled in
    let s'' = record s' { store = set_local_stop_enabled s'.store session_id enabled } in
    let conn = lookup session_id s''.conns in
    (
      policy_event s'' session_id (send_json conn write) now,
      written conn (policy session_id enabled now),
    )

-- The detection of a gap in the sequence numbers.
unfoldable pub has_gap : ℤ → ℤ → Bool
has_gap prev seq =
    ltb_ℤ (wrap_i64 (prev +ℤ pos 1)) seq && (ltb_ℤ prev (pos 0) || ltb_ℤ (pos 0) prev)

unfoldable pub check_seq : Server → Str → ℤ → Time → Server
check_seq s session_id seq now =
    let prev = or_zero (pos 0) (lookup session_id s.last_seq) in
    let s' =
      if has_gap prev seq
      then append s session_id (codes "worker_seq_gap")
          (some (
            (codes "prev", num prev)
            ∷ (codes "now", num seq)
            ∷ (codes "gap", num (wrap_i64 (seq -ℤ prev)))
            ∷ []))
          now
      else s in
    if ltb_ℤ prev seq then record s' { last_seq = insert session_id seq s'.last_seq } else s'

-- A message of the worker: the server, what it writes, and the message for `OnMessage`.
unfoldable pub on_worker_message :
    Server → Str → Message → Option Str → Time → Server × List (ℕ × Message) × Message
on_worker_message s session_id msg write now =
    let msg' = enrich_message msg msg.payload in
    let s' = append s session_id msg.type (enrich_payload msg msg.payload) now in
    let (s'', writes) =
      if str_eq msg.type (codes "worker_hello")
      then on_hello s' session_id msg' write now
      else (s', []) in
    (check_seq s'' session_id msg.seq now, writes, msg')

-- A text that is no message.
unfoldable pub on_invalid_message : Server → Str → Str → Time → Server
on_invalid_message s session_id err now =
    append s session_id (codes "worker_msg_invalid") (some ((codes "error", text err) ∷ [])) now
