-- ===== src/Stt/Server.antt =====
-- internal/stt/server.go: the streams of clients, the table of sessions that they share, and the reaper
-- of idle sessions. A session is reached through its number on the heap.
use yuzu_agent_webrtc_toy.Prelude.{
  ℕ, ◌+◌, ◌*◌, ◌%◌, Bool, true, false, not, ◌&&◌, ◌||◌, List, [], ◌∷◌, ◌++◌, Option, none, some,
  length, get_elem?, set, leb, ltb, ◌==◌, if◌then◌else◌,
}
use yuzu_agent_webrtc_toy.Prelude.Int.{ℤ, pos, negsuc, leb_ℤ}
use yuzu_agent_webrtc_toy.Text.{Str, codes, is_empty, scan_int}
use yuzu_agent_webrtc_toy.Maps.{Map, lookup, insert, delete}
use yuzu_agent_webrtc_toy.Clock.{Time, sub_time, second, seconds}
use yuzu_agent_webrtc_toy.Stt.Session.{
  Session, Effect, new_session, start_utterance, drain, idle_for, send_audio, AudioResult,
}
pub mod Messages
pub mod Steps
pub mod Updates
pub mod Induction
pub mod Gauge
pub mod Dead
pub mod Restart

-- A session with its context, its channel of 64 messages, and whether the channel is closed, which the
-- loop of the session does behind the end of its context.
pub record Entry : Type 0 where
  pub session : Session
  pub cancelled : Bool
  pub events : List Effect
  pub events_closed : Bool

-- `STTServer`, with the calls of `Inc` and `Dec` on the gauge of the active sessions.
pub record Server : Type 0 where
  pub sess : Map ℕ
  pub heap : List Entry
  pub idle_ttl : ℤ
  pub gauge_incs : ℕ
  pub gauge_decs : ℕ

-- The variables of a call of `Session`: its session, and the channel that it forwards; with the sessions
-- whose contexts it is the parent of.
pub record Stream : Type 0 where
  pub sess : Option ℕ
  pub session_id : Str
  pub bytes_in : ℕ
  pub frames_in : ℕ
  pub last_met : Time
  pub ev_ch : Option ℕ
  pub created : List ℕ

-- `ClientMessage`; of audio its length, whether its level is above 500, and the length of the queue of
-- the provider.
pub data ClientMessage : Type 0 where
  start : Str → Str → ClientMessage
  audio : ℕ → Bool → ℕ → ClientMessage
  drain_request close_request other : ClientMessage
  ping : ℕ → ClientMessage

-- The messages that the server sends to the client.
pub data Reply : Type 0 where
  connected : Str → Reply
  event : Effect → Reply
  metrics : Str → ℕ → ℕ → Reply
  pong : ℕ → Reply

-- What comes of a message: the loop goes on, `Session` returns, a write on a full channel blocks it,
-- or the program panics.
pub data Outcome : Type 0 where
  goes_on : Server → Stream → List Reply → Outcome
  returns blocks : Server → Outcome
  panics : Outcome

-- `readIdleTTL`, in nanoseconds.
abbrev positive_seconds : Option ℤ → ℤ
positive_seconds none = seconds (pos 60)
positive_seconds (some n) = if leb_ℤ n (pos 0) then seconds (pos 60) else seconds n

unfoldable pub read_idle_ttl : (Str → Str) → ℤ
read_idle_ttl getenv =
    let v = getenv (codes "STT_SESSION_IDLE_TTL_S") in
    if is_empty v then seconds (pos 60) else positive_seconds (scan_int v)

-- `NewSTTServer`
unfoldable pub new_stt_server : (Str → Str) → Server
new_stt_server getenv = record {
  sess = [];
  heap = [];
  idle_ttl = read_idle_ttl getenv;
  gauge_incs = 0;
  gauge_decs = 0;
}

-- A change of a session on the heap.
abbrev change_elem : (Entry → Entry) → List Entry → ℕ → Option Entry → List Entry
change_elem f heap h none = heap
change_elem f heap h (some e) = set heap h (f e)

unfoldable pub update : (Entry → Entry) → Server → ℕ → Server
update f s h = record s { heap = change_elem f s.heap h (get_elem? s.heap h) }

-- `sess.Close()`
unfoldable pub close : Server → Option ℕ → Server
close s none = s
close s (some h) = update (λ e. record e { cancelled = true }) s h

unfoldable pub close_all : Server → List ℕ → Server
close_all s [] = s
close_all s (h ∷ hs) = close_all (close s (some h)) hs

-- The end of a stream: its session is closed, and the contexts of the sessions that it created end.
unfoldable pub end_stream : Server → Stream → Server
end_stream s st = close_all (close s st.sess) st.created

-- The lookup of a session, or a new one.
found_or_new : (Str → Str) → Server → Str → Time → Option ℕ → Server × ℕ
found_or_new getenv s id now (some h) = (s, h)
found_or_new getenv s id now none = (
  record s {
    sess = insert id (length s.heap) s.sess;
    heap =
        s.heap
        ++ record {
          session = new_session getenv id now;
          cancelled = false;
          events = [];
          events_closed = false;
        }
          ∷ [];
    gauge_incs = s.gauge_incs + 1;
  },
  length s.heap,
)

unfoldable pub get_or_create : (Str → Str) → Server → Str → Time → Server × ℕ
unfolding found_or_new
get_or_create getenv s id now = found_or_new getenv s id now (lookup id s.sess)

-- A tick of `reaper`: the sessions that stay in the table, and those that are closed.
unfoldable pub is_idle : ℤ → Time → Option Entry → Bool
is_idle ttl now none = false
is_idle ttl now (some e) = idle_for e.session ttl now

unfoldable pub split_idle : List Entry → ℤ → Time → Map ℕ → Map ℕ × List ℕ
split_idle heap ttl now [] = ([], [])
split_idle heap ttl now ((id, h) ∷ m) =
    let (kept, reaped) = split_idle heap ttl now m in
    if is_idle ttl now (get_elem? heap h) then (kept, h ∷ reaped) else ((id, h) ∷ kept, reaped)

unfoldable pub reap : Server → Time → Server
reap s now =
    let (kept, reaped) = split_idle s.heap s.idle_ttl now s.sess in
    record (close_all s reaped) { sess = kept; gauge_decs = s.gauge_decs + length reaped }
