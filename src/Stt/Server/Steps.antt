-- ===== src/Stt/Server/Steps.antt =====
-- The steps of internal/stt/server.go: the messages of any streams, the forwarding of events, the reaper,
-- and the loops of the sessions; and what they do to the sessions on the heap.
use yuzu_agent_webrtc_toy.Prelude.{
  ℕ, ◌≡◌, ◌||◌, List, [], ◌∷◌, ◌++◌, Option, none, some, if◌then◌else◌,
}
use yuzu_agent_webrtc_toy.Text.{Str}
use yuzu_agent_webrtc_toy.Clock.{Time}
use yuzu_agent_webrtc_toy.Stt.Session.{
  Effect, send_interim, send_final, send_error, observe, utterance_event, begin, DgEvent, Limits,
  on_dg_event,
}
use yuzu_agent_webrtc_toy.Stt.Server.{
  Entry, Server, Stream, ClientMessage, Outcome, goes_on, returns, blocks, panics, update, reap,
}
use yuzu_agent_webrtc_toy.Stt.Server.Messages.{forward, on_recv_error, on_message}

-- What the loop of a session writes on its channel, without the metrics.
unfoldable pub messages_of : List Effect → List Effect
messages_of [] = []
messages_of (send_interim id text ∷ es) = send_interim id text ∷ messages_of es
messages_of (send_final id text ∷ es) = send_final id text ∷ messages_of es
messages_of (send_error text ∷ es) = send_error text ∷ messages_of es
messages_of (observe h n ∷ es) = messages_of es
messages_of (utterance_event text ∷ es) = messages_of es
messages_of (begin id ∷ es) = messages_of es

-- A round of the loop of a session, and its end.
unfoldable pub hear : Limits → DgEvent → Time → Entry → Entry
hear l ev now e =
    let (s, es) = on_dg_event l e.session ev now in
    let heard = record e { session = s; events = e.events ++ messages_of es } in
    if e.events_closed then e else heard

unfoldable pub end_events : Entry → Entry
end_events e = record e { events_closed = e.events_closed || e.cancelled }

-- The server behind a message, unless the program has panicked.
abbrev pub server_of : Outcome → Option Server
server_of (goes_on s st replies) = some s
server_of (returns s) = some s
server_of (blocks s) = some s
server_of panics = none

pub data Step (getenv : Str → Str) (s : Server) : Server → Type 0 where
  messages :
      (st : Stream) (m : ClientMessage) (now : Time) (s' : Server)
      → server_of (on_message getenv s st m now) ≡ some s'
      → Step getenv s s'
  forwards : (st : Stream) → Step getenv s (forward s st).0
  fails : (st : Stream) → Step getenv s (on_recv_error s st)
  reaps : (now : Time) → Step getenv s (reap s now)
  hears :
      (h : ℕ) (l : Limits) (ev : DgEvent) (now : Time) → Step getenv s (update (hear l ev now) s h)
  ends : (h : ℕ) → Step getenv s (update end_events s h)

pub data Reach (getenv : Str → Str) (s : Server) : Server → Type 0 where
  here : Reach getenv s s
  next : {t u : Server} → Reach getenv s t → Step getenv t u → Reach getenv s u
