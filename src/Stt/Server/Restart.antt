-- ===== src/Stt/Server/Restart.antt =====
-- What becomes of a session of internal/stt/server.go whose stream has ended with an error.
use yuzu_agent_webrtc_toy.Prelude.{ℕ, ◌≡◌, refl, true, [], ◌∷◌, some, get_elem?, get_elem?-set_self}
use yuzu_agent_webrtc_toy.Text.{Str, codes, equal_fold}
use yuzu_agent_webrtc_toy.Maps.{lookup}
use yuzu_agent_webrtc_toy.Clock.{Time}
use yuzu_agent_webrtc_toy.Stt.Session.{start_utterance, drain}
use yuzu_agent_webrtc_toy.Stt.Server.{
  end_stream, Entry, Server, Stream, connected, goes_on, panics, update, close, get_or_create,
}
use yuzu_agent_webrtc_toy.Stt.Server.Messages.{
  joined_to, on_start, on_drain, on_recv_error, drain_of, drain_entry, deliver,
}
use yuzu_agent_webrtc_toy.Stt.Server.Steps.{Reach}
use yuzu_agent_webrtc_toy.Stt.Server.Dead.{
  IsDead, close_all-IsDead, get_elem?-lt, update-IsDead, Reach-IsDead,
}

on_recv_error-IsDead :
    (s : Server) (st : Stream) (h : ℕ) (e : Entry)
    → st.sess ≡ some h
    → get_elem? s.heap h ≡ some e
    → IsDead (on_recv_error s st).heap h
unfolding on_recv_error end_stream close update
on_recv_error-IsDead s st h e own found =
    let ended = record e { cancelled = true } in
    close_all-IsDead (close s st.sess) st.created h (
      rw (own, found)
        (record {
          entry = ended;
          found = get_elem?-set_self s.heap h ended (get_elem?-lt s.heap h e found);
          dead = refl;
        }))

get_or_create-known :
    (getenv : Str → Str) (s : Server) (id : Str) (now : Time) (h : ℕ)
    → lookup id s.sess ≡ some h
    → get_or_create getenv s id now ≡ (s, h)
unfolding get_or_create
get_or_create-known getenv s id now h e = rw e

-- After an error of the stream of a session, whatever happens then, for as long as the table has the
-- session: a client that starts it again is told that it is connected, and gets the session whose
-- context has ended, with its closed connection to the provider.
pub closed_session_restarts :
    (getenv : Str → Str) (s s' : Server) (st st' : Stream) (id utter_id : Str) (now : Time) (h : ℕ)
    (e : Entry)
    → st.sess ≡ some h
    → get_elem? s.heap h ≡ some e
    → Reach getenv (on_recv_error s st) s'
    → lookup id s'.sess ≡ some h
    → (t : Server) × (u : Stream) × (on_start getenv s' st' id utter_id now
        ≡ goes_on t u (connected id ∷ []))
      × (u.sess ≡ some h)
      × IsDead t.heap h
unfolding on_start joined_to
closed_session_restarts getenv s s' st st' id utter_id now h e own found reach known =
    let restart = λ (x : Entry). record x { session = start_utterance x.session utter_id now } in
    let dead = Reach-IsDead getenv h reach (on_recv_error-IsDead s st h e own found) in
    (
      update restart s' h,
      joined_to s' st' id h,
      rw (get_or_create-known getenv s' id now h known),
      refl,
      update-IsDead restart s' h h (λ x k. k) dead,
    )

-- Where the channel of a session in the table is closed, as that of each session is behind the end of
-- its context, and its policy is "earliest": a client that starts it again and then asks for a drain
-- makes the program panic.
pub drain_after_restart_panics :
    (getenv : Str → Str) (s : Server) (st : Stream) (id utter_id : Str) (now later : Time) (h : ℕ)
    (e : Entry)
    → lookup id s.sess ≡ some h
    → get_elem? s.heap h ≡ some e
    → e.events_closed ≡ true
    → equal_fold e.session.endpoint_policy (codes "earliest") ≡ true
    → (t : Server) × (u : Stream) × (on_start getenv s st id utter_id now
        ≡ goes_on t u (connected id ∷ []))
      × (on_drain t u later ≡ panics)
unfolding on_start joined_to on_drain drain_of drain_entry deliver update drain start_utterance
drain_after_restart_panics getenv s st id utter_id now later h e known found closed policy =
    let restart = λ (x : Entry). record x { session = start_utterance x.session utter_id now } in
    let again = get_elem?-set_self s.heap h (restart e) (get_elem?-lt s.heap h e found) in
    (
      update restart s h,
      joined_to s st id h,
      rw (get_or_create-known getenv s id now h known),
      rw (found, again, policy, closed),
    )
