-- ===== src/Stt/Server/Induction.antt =====
-- Invariants of internal/stt/server.go: what every history keeps, if the operations on the table and each
-- change of one session on the heap keep it.
use yuzu_agent_webrtc_toy.Prelude.{
  ℕ, ◌+◌, subst, List, [], ◌∷◌, Option, none, some, Bool-cases, inl, inr,
}
use yuzu_agent_webrtc_toy.Text.{Str, is_empty}
use yuzu_agent_webrtc_toy.Maps.{delete}
use yuzu_agent_webrtc_toy.Clock.{Time}
use yuzu_agent_webrtc_toy.Stt.Session.{start_utterance}
use yuzu_agent_webrtc_toy.Stt.Server.{
  Entry, Server, Stream, ClientMessage, start, audio, drain_request, close_request, ping, other,
  update, close, get_or_create, close_all, end_stream, reap,
}
use yuzu_agent_webrtc_toy.Stt.Server.Messages.{
  forward, on_start, on_close, on_recv_error, on_message,
}
use yuzu_agent_webrtc_toy.Stt.Server.Steps.{
  server_of, Step, messages, forwards, fails, reaps, hears, ends, Reach, here, next, hear,
  end_events,
}
use yuzu_agent_webrtc_toy.Stt.Server.Updates.{
  Updates, updated, AllUpdates, close-Updates, message-Updates, forward-Updates,
  hear-KeepsCancelled, end_events-KeepsCancelled,
}

module _ (getenv : Str → Str) (P : Server → Type 0)
    (updates : (s s' : Server) → Updates s s' → P s → P s')
    (creates : (s : Server) (id : Str) (now : Time) → P s → P (get_or_create getenv s id now).0)
    (deletes : (s : Server) (id : Str)
      → P s
      → P (record s { sess = delete id s.sess; gauge_decs = s.gauge_decs + 1 }))
    (reaped : (s : Server) (now : Time) → P s → P (reap s now)) where
  close_all_keeps : (s : Server) (hs : List ℕ) → P s → P (close_all s hs)
  unfolding close_all
  close_all_keeps s [] c = c
  close_all_keeps s (h ∷ hs) c =
      close_all_keeps (close s (some h)) hs
        (updates s (close s (some h)) (close-Updates s (some h)) c)

  end_stream_keeps : (s : Server) (st : Stream) → P s → P (end_stream s st)
  unfolding end_stream
  end_stream_keeps s st c =
      close_all_keeps (close s st.sess) st.created
        (updates s (close s st.sess) (close-Updates s st.sess) c)

  on_close_keeps : (s : Server) (st : Stream) → P s → P (on_close s st)
  unfolding on_close
  on_close_keeps s st c =
      let closed = end_stream_keeps s st c in
      elim (Bool-cases (is_empty st.session_id)) [
        | inl e ↦ rw e closed
        | inr e ↦ rw e (deletes (end_stream s st) st.session_id closed)
      ]

  -- Of what is left behind a message.
  abbrev Kept : Option Server → Type 0
  Kept none = Unit
  Kept (some s) = P s

  updates_keep : (s : Server) (o : Option Server) → AllUpdates s o → P s → Kept o
  updates_keep s none u c = tt
  updates_keep s (some s') u c = updates s s' u c

  message_keeps :
      (s : Server) (st : Stream) (m : ClientMessage) (now : Time)
      → P s
      → Kept (server_of (on_message getenv s st m now))
  unfolding on_message on_start
  message_keeps s st (start id utter_id) now c =
      let (s', h) = get_or_create getenv s id now in
      let f : Entry → Entry = λ e. record e { session = start_utterance e.session utter_id now } in
      updates s' (update f s' h) (updated f h (λ e k. k)) (creates s id now c)
  message_keeps s st close_request now c = on_close_keeps s st c
  message_keeps s st (audio bytes loud queued) now c =
      updates_keep s (server_of (on_message getenv s st (audio bytes loud queued) now))
        (message-Updates getenv s st (audio bytes loud queued) now tt) c
  message_keeps s st drain_request now c =
      updates_keep s (server_of (on_message getenv s st drain_request now))
        (message-Updates getenv s st drain_request now tt) c
  message_keeps s st (ping seq) now c = c
  message_keeps s st other now c = c

  step_keeps : {s s' : Server} → Step getenv s s' → P s → P s'
  unfolding on_recv_error
  step_keeps {s = s} (messages st m now s' e) c = subst Kept e (message_keeps s st m now c)
  step_keeps {s = s} (forwards st) c = updates s (forward s st).0 (forward-Updates s st) c
  step_keeps {s = s} (fails st) c = end_stream_keeps s st c
  step_keeps {s = s} (reaps now) c = reaped s now c
  step_keeps {s = s} (hears h l ev now) c =
      updates s (update (hear l ev now) s h)
        (updated (hear l ev now) h (hear-KeepsCancelled l ev now)) c
  step_keeps {s = s} (ends h) c =
      updates s (update end_events s h) (updated end_events h end_events-KeepsCancelled) c

  pub reach_keeps : {s s' : Server} → P s → Reach getenv s s' → P s'
  reach_keeps c here = c
  reach_keeps c (next r st) = step_keeps st (reach_keeps c r)
