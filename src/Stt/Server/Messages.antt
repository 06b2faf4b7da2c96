-- ===== src/Stt/Server/Messages.antt =====
-- internal/stt/server.go: what a stream does with the messages of its client.
use yuzu_agent_webrtc_toy.Prelude.{
  ℕ, ◌+◌, ◌%◌, Bool, ◌||◌, List, [], ◌∷◌, ◌++◌, Option, none, some, length, get_elem?, leb, ltb,
  ◌==◌, if◌then◌else◌,
}
use yuzu_agent_webrtc_toy.Prelude.Int.{pos, leb_ℤ}
use yuzu_agent_webrtc_toy.Text.{Str, is_empty}
use yuzu_agent_webrtc_toy.Maps.{delete}
use yuzu_agent_webrtc_toy.Clock.{Time, sub_time, second}
use yuzu_agent_webrtc_toy.Stt.Session.{
  Session, Effect, start_utterance, drain, send_audio, AudioResult,
}
use yuzu_agent_webrtc_toy.Stt.Server.{
  Entry, Server, Stream, ClientMessage, start, audio, drain_request, close_request, ping, other,
  Reply, connected, event, metrics, pong, Outcome, goes_on, returns, blocks, panics, update,
  end_stream, get_or_create,
}

-- `if evCh == nil { evCh = sess.events }`
abbrev pub or_channel : Option ℕ → ℕ → Option ℕ
or_channel none h = some h
or_channel (some g) h = some g

-- The stream with its session, which it created where the session stands behind the old heap.
unfoldable pub joined_to : Server → Stream → Str → ℕ → Stream
joined_to s st id h = record st {
  sess = some h;
  session_id = id;
  ev_ch = or_channel st.ev_ch h;
  created = if ltb h (length s.heap) then st.created else h ∷ st.created;
}

unfoldable pub on_start : (Str → Str) → Server → Stream → Str → Str → Time → Outcome
on_start getenv s st id utter_id now =
    let (s', h) = get_or_create getenv s id now in
    goes_on (update (λ e. record e { session = start_utterance e.session utter_id now }) s' h)
      (joined_to s st id h) (connected id ∷ [])

-- The forwarding of at most one event in front of each `Recv`.
unfoldable pub forward_first :
    Server → Stream → ℕ → Entry → List Effect → Server × Stream × List Reply
forward_first s st h e (m ∷ rest) = (update (λ x. record x { events = rest }) s h, st, event m ∷ [])
forward_first s st h e [] = (s, if e.events_closed then record st { ev_ch = none } else st, [])

unfoldable pub forward_from : Server → Stream → ℕ → Option Entry → Server × Stream × List Reply
unfolding forward_first
forward_from s st h none = (s, st, [])
forward_from s st h (some e) = forward_first s st h e e.events

unfoldable pub forward_channel : Server → Stream → Option ℕ → Server × Stream × List Reply
unfolding forward_from
forward_channel s st none = (s, st, [])
forward_channel s st (some h) = forward_from s st h (get_elem? s.heap h)

unfoldable pub forward : Server → Stream → Server × Stream × List Reply
unfolding forward_channel
forward s st = forward_channel s st st.ev_ch

-- The counters of the stream, and the metrics that it sends each second or tenth frame.
unfoldable pub count_audio : Stream → ℕ → Time → Stream × List Reply
count_audio st bytes now =
    let bytes_in = (st.bytes_in + bytes) % 0x10000000000000000 in
    let frames_in = (st.frames_in + 1) % 0x10000000000000000 in
    let st' = record st { bytes_in = bytes_in; frames_in = frames_in } in
    if leb_ℤ (pos second) (sub_time now st.last_met) || frames_in % 10 == 0
    then (record st' { last_met = now }, metrics st.session_id bytes_in frames_in ∷ [])
    else (st', [])

-- A frame of audio for a session; `none` is the panic of `SendAudio`.
unfoldable pub sent : Server → ℕ → Option AudioResult → Option Server
sent s h none = none
sent s h (some r) = some (update (λ e. record e { session = r.session }) s h)

unfoldable pub send_to : Server → ℕ → ℕ → Bool → ℕ → Time → Option Entry → Option Server
unfolding sent
send_to s h bytes loud queued now none = some s
send_to s h bytes loud queued now (some e) =
    let after = sent s h (send_audio e.session bytes loud queued now) in
    if ltb 0 bytes then after else some s

unfoldable pub audio_session : Server → ℕ → Bool → ℕ → Time → Option ℕ → Option Server
unfolding send_to
audio_session s bytes loud queued now none = some s
audio_session s bytes loud queued now (some h) =
    send_to s h bytes loud queued now (get_elem? s.heap h)

unfoldable pub go_on_or_panic : Stream × List Reply → Option Server → Outcome
go_on_or_panic (st, replies) none = panics
go_on_or_panic (st, replies) (some s) = goes_on s st replies

unfoldable pub on_audio : Server → Stream → ℕ → Bool → ℕ → Time → Outcome
unfolding audio_session go_on_or_panic
on_audio s st bytes loud queued now =
    go_on_or_panic (count_audio st bytes now) (audio_session s bytes loud queued now st.sess)

-- `Drain`: what it sends goes to the channel of the session.
unfoldable pub deliver : Server → Stream → ℕ → Entry → Time → Session × List Effect → Outcome
deliver s st h e now (sess, []) = goes_on (update (λ x. record x { session = sess }) s h) st []
deliver s st h e now (sess, final ∷ observed) =
    let asked = record e.session { last_act = now; drain_at = now } in
    if e.events_closed
    then panics
    else if leb 64 (length e.events)
    then blocks (update (λ x. record x { session = asked }) s h)
    else goes_on (update (λ x. record x { session = sess; events = x.events ++ final ∷ [] }) s h) st
        []

unfoldable pub drain_entry : Server → Stream → ℕ → Time → Option Entry → Outcome
unfolding deliver
drain_entry s st h now none = goes_on s st []
drain_entry s st h now (some e) = deliver s st h e now (drain e.session now)

unfoldable pub drain_of : Server → Stream → Time → Option ℕ → Outcome
unfolding drain_entry
drain_of s st now none = goes_on s st []
drain_of s st now (some h) = drain_entry s st h now (get_elem? s.heap h)

unfoldable pub on_drain : Server → Stream → Time → Outcome
unfolding drain_of
on_drain s st now = drain_of s st now st.sess

-- "Close"
unfoldable pub on_close : Server → Stream → Server
on_close s st =
    let s' = end_stream s st in
    if is_empty st.session_id
    then s'
    else record s' { sess = delete st.session_id s'.sess; gauge_decs = s'.gauge_decs + 1 }

-- An error of `Recv`, which the end of the client's stream is too.
unfoldable pub on_recv_error : Server → Stream → Server
on_recv_error s st = end_stream s st

-- The switch on a message.
unfoldable pub on_message : (Str → Str) → Server → Stream → ClientMessage → Time → Outcome
on_message getenv s st (start id utter_id) now = on_start getenv s st id utter_id now
on_message getenv s st (audio bytes loud queued) now = on_audio s st bytes loud queued now
on_message getenv s st drain_request now = on_drain s st now
on_message getenv s st close_request now = returns (on_close s st)
on_message getenv s st (ping seq) now = goes_on s st (pong seq ∷ [])
on_message getenv s st other now = goes_on s st []
