-- ===== src/Stt/Server/Updates.antt =====
-- What the operations of internal/stt/server.go do to the sessions on the heap.
use yuzu_agent_webrtc_toy.Prelude.{
  ℕ, ◌≡◌, refl, Bool, true, List, [], ◌∷◌, ◌++◌, Option, none, some, arith, length, get_elem?, leb,
  ltb, Bool-cases, inl, inr,
}
use yuzu_agent_webrtc_toy.Text.{Str}
use yuzu_agent_webrtc_toy.Clock.{Time}
use yuzu_agent_webrtc_toy.Stt.Session.{
  Session, Effect, DgEvent, Limits, send_audio, AudioResult, drain,
}
use yuzu_agent_webrtc_toy.Stt.Server.{
  Entry, Server, Stream, ClientMessage, start, audio, drain_request, close_request, ping, other,
  Reply, update, close,
}
use yuzu_agent_webrtc_toy.Stt.Server.Messages.{
  forward, on_audio, count_audio, on_drain, on_message, sent, send_to, audio_session,
  go_on_or_panic, deliver, drain_entry, drain_of, forward_channel, forward_from, forward_first,
}
use yuzu_agent_webrtc_toy.Stt.Server.Steps.{server_of, hear, end_events}

-- A message that leaves the table of sessions alone.
abbrev pub IsQuiet : ClientMessage → Type 0
IsQuiet (start id utter_id) = ⊥
IsQuiet close_request = ⊥
IsQuiet (audio bytes loud queued) = Unit
IsQuiet drain_request = Unit
IsQuiet (ping seq) = Unit
IsQuiet other = Unit

-- The change of one session on the heap, which does not take back its end.
abbrev pub KeepsCancelled : (Entry → Entry) → Type 0
KeepsCancelled f = (e : Entry) → e.cancelled ≡ true → (f e).cancelled ≡ true

pub data Updates (s : Server) : Server → Type 0 where
  same : Updates s s
  updated : (f : Entry → Entry) (h : ℕ) → KeepsCancelled f → Updates s (update f s h)

abbrev pub AllUpdates : Server → Option Server → Type 0
AllUpdates s none = Unit
AllUpdates s (some s') = Updates s s'

pub close-Updates : (s : Server) (h : Option ℕ) → Updates s (close s h)
unfolding close
close-Updates s none = same
close-Updates s (some h) = updated (λ e. record e { cancelled = true }) h (λ e k. refl)

pub hear-KeepsCancelled : (l : Limits) (ev : DgEvent) (now : Time) → KeepsCancelled (hear l ev now)
unfolding hear
hear-KeepsCancelled l ev now e k = ground (arith, k)

pub end_events-KeepsCancelled : KeepsCancelled end_events
unfolding end_events
end_events-KeepsCancelled e k = k

module _ (s : Server) (h : ℕ) (bytes : ℕ) (loud : Bool) (queued : ℕ) (now : Time) where
  sent-Updates : (r : Option AudioResult) → AllUpdates s (sent s h r)
  unfolding sent
  sent-Updates none = tt
  sent-Updates (some r) = updated (λ e. record e { session = r.session }) h (λ e k. k)

  send_to-Updates : (e : Option Entry) → AllUpdates s (send_to s h bytes loud queued now e)
  unfolding send_to
  send_to-Updates none = same
  send_to-Updates (some e) = elim (Bool-cases (ltb 0 bytes)) [
    | inl p ↦ rw p (sent-Updates (send_audio e.session bytes loud queued now))
    | inr p ↦ rw p same
  ]

go_on_or_panic-Updates :
    (s : Server) (p : Stream × List Reply) (o : Option Server)
    → AllUpdates s o
    → AllUpdates s (server_of (go_on_or_panic p o))
unfolding go_on_or_panic
go_on_or_panic-Updates s p none u = u
go_on_or_panic-Updates s p (some s') u = u

audio_session-Updates :
    (s : Server) (bytes : ℕ) (loud : Bool) (queued : ℕ) (now : Time) (h : Option ℕ)
    → AllUpdates s (audio_session s bytes loud queued now h)
unfolding audio_session
audio_session-Updates s bytes loud queued now none = same
audio_session-Updates s bytes loud queued now (some h) =
    send_to-Updates s h bytes loud queued now (get_elem? s.heap h)

on_audio-Updates :
    (s : Server) (st : Stream) (bytes : ℕ) (loud : Bool) (queued : ℕ) (now : Time)
    → AllUpdates s (server_of (on_audio s st bytes loud queued now))
unfolding on_audio
on_audio-Updates s st bytes loud queued now =
    go_on_or_panic-Updates s (count_audio st bytes now)
      (audio_session s bytes loud queued now st.sess)
      (audio_session-Updates s bytes loud queued now st.sess)

deliver-Updates :
    (s : Server) (st : Stream) (h : ℕ) (e : Entry) (now : Time) (sess : Session) (es : List Effect)
    → AllUpdates s (server_of (deliver s st h e now (sess, es)))
unfolding deliver
deliver-Updates s st h e now sess [] = updated (λ x. record x { session = sess }) h (λ x k. k)
deliver-Updates s st h e now sess (final ∷ es) = elim (Bool-cases e.events_closed) [
  | inl p ↦ rw p tt
  | inr p ↦ elim (Bool-cases (leb 64 (length e.events))) [
    | inl q ↦
        let asked = record e.session { last_act = now; drain_at = now } in
        rw (p, q) (updated (λ x. record x { session = asked }) h (λ x k. k))
    | inr q ↦
        rw (p, q)
          (updated (λ x. record x { session = sess; events = x.events ++ final ∷ [] }) h (λ x k. k))
  ]
]

drain_entry-Updates :
    (s : Server) (st : Stream) (h : ℕ) (now : Time) (e : Option Entry)
    → AllUpdates s (server_of (drain_entry s st h now e))
unfolding drain_entry
drain_entry-Updates s st h now none = same
drain_entry-Updates s st h now (some e) =
    let (sess, es) = drain e.session now in deliver-Updates s st h e now sess es

drain_of-Updates :
    (s : Server) (st : Stream) (now : Time) (h : Option ℕ)
    → AllUpdates s (server_of (drain_of s st now h))
unfolding drain_of
drain_of-Updates s st now none = same
drain_of-Updates s st now (some h) = drain_entry-Updates s st h now (get_elem? s.heap h)

forward_first-Updates :
    (s : Server) (st : Stream) (h : ℕ) (e : Entry) (es : List Effect)
    → Updates s (forward_first s st h e es).0
unfolding forward_first
forward_first-Updates s st h e [] = same
forward_first-Updates s st h e (m ∷ rest) = updated (λ x. record x { events = rest }) h (λ x k. k)

forward_from-Updates :
    (s : Server) (st : Stream) (h : ℕ) (e : Option Entry) → Updates s (forward_from s st h e).0
unfolding forward_from
forward_from-Updates s st h none = same
forward_from-Updates s st h (some e) = forward_first-Updates s st h e e.events

forward_channel-Updates :
    (s : Server) (st : Stream) (h : Option ℕ) → Updates s (forward_channel s st h).0
unfolding forward_channel
forward_channel-Updates s st none = same
forward_channel-Updates s st (some h) = forward_from-Updates s st h (get_elem? s.heap h)

-- What an operation that is no start, no close and no tick of the reaper does to the server.
pub message-Updates :
    (getenv : Str → Str) (s : Server) (st : Stream) (m : ClientMessage) (now : Time)
    → IsQuiet m
    → AllUpdates s (server_of (on_message getenv s st m now))
unfolding on_message on_drain
message-Updates getenv s st (audio bytes loud queued) now q =
    on_audio-Updates s st bytes loud queued now
message-Updates getenv s st drain_request now q = drain_of-Updates s st now st.sess
message-Updates getenv s st (ping seq) now q = same
message-Updates getenv s st other now q = same
message-Updates getenv s st (start id utter_id) now q = absurd q
message-Updates getenv s st close_request now q = absurd q

pub forward-Updates : (s : Server) (st : Stream) → Updates s (forward s st).0
unfolding forward
forward-Updates s st = forward_channel-Updates s st st.ev_ch
