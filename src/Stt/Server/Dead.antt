-- ===== src/Stt/Server/Dead.antt =====
-- The sessions of internal/stt/server.go whose context has ended.
use yuzu_agent_webrtc_toy.Prelude.{
  ℕ, zero, suc, ◌<◌, ◌≡◌, ◌≢◌, subst, true, List, [], ◌∷◌, ◌++◌, Option, none, some, arith, length,
  get_elem?, get_elem?-set_self, get_elem?-set_ne, Bool-cases, Option-cases, inl, inr, ◌==◌,
}
use yuzu_agent_webrtc_toy.Text.{Str, is_empty}
use yuzu_agent_webrtc_toy.Maps.{lookup}
use yuzu_agent_webrtc_toy.Clock.{Time}
use yuzu_agent_webrtc_toy.Stt.Session.{start_utterance}
use yuzu_agent_webrtc_toy.Stt.Server.{
  Entry, Server, Stream, ClientMessage, start, audio, drain_request, close_request, ping, other,
  update, close, get_or_create, close_all, end_stream, split_idle, reap,
}
use yuzu_agent_webrtc_toy.Stt.Server.Messages.{on_start, on_close, on_recv_error, on_message}
use yuzu_agent_webrtc_toy.Stt.Server.Steps.{
  server_of, Step, messages, forwards, fails, reaps, hears, ends, Reach, here, next, hear,
  end_events,
}
use yuzu_agent_webrtc_toy.Stt.Server.Updates.{
  KeepsCancelled, Updates, same, updated, AllUpdates, close-Updates, message-Updates,
  forward-Updates, hear-KeepsCancelled, end_events-KeepsCancelled,
}

-- A session on the heap whose context has ended: its connection to the provider is closed, and is not
-- opened again.
pub record IsDead (heap : List Entry) (h : ℕ) : Type 0 where
  pub entry : Entry
  pub found : get_elem? heap h ≡ some entry
  pub dead : entry.cancelled ≡ true

pub get_elem?-lt :
    (heap : List Entry) (h : ℕ) (e : Entry) → get_elem? heap h ≡ some e → h < length heap
get_elem?-lt [] h e p = ground (arith, p)
get_elem?-lt (x ∷ heap) zero e p = omega arith
get_elem?-lt (x ∷ heap) (suc h) e p = ground (arith, get_elem?-lt heap h e p)

get_elem?-append :
    (heap more : List Entry) (h : ℕ) (e : Entry)
    → get_elem? heap h ≡ some e
    → get_elem? (heap ++ more) h ≡ some e
get_elem?-append [] more h e p = ground (arith, p)
get_elem?-append (x ∷ heap) more zero e p = p
get_elem?-append (x ∷ heap) more (suc h) e p = get_elem?-append heap more h e p

pub update_self-IsDead :
    (f : Entry → Entry) (s : Server) (h : ℕ)
    → KeepsCancelled f
    → IsDead s.heap h
    → IsDead (update f s h).heap h
unfolding update
update_self-IsDead f s h keeps d = record {
  entry = f d.entry;
  found =
      rw d.found (get_elem?-set_self s.heap h (f d.entry) (get_elem?-lt s.heap h d.entry d.found));
  dead = keeps d.entry d.dead;
}

update_other-IsDead :
    (f : Entry → Entry) (s : Server) (g h : ℕ)
    → g ≢ h
    → IsDead s.heap h
    → IsDead (update f s g).heap h
unfolding update
update_other-IsDead f s g h ne d = elim (Option-cases (get_elem? s.heap g)) [
  | inl e ↦ rw e d
  | inr (x, e) ↦ rw e (record {
    entry = d.entry;
    found = rw (get_elem?-set_ne s.heap (f x) ne, d.found);
    dead = d.dead;
  })
]

pub update-IsDead :
    (f : Entry → Entry) (s : Server) (g h : ℕ)
    → KeepsCancelled f
    → IsDead s.heap h
    → IsDead (update f s g).heap h
update-IsDead f s g h keeps d = elim (Bool-cases (g == h)) [
  | inl p ↦
      let same : h ≡ g = ground (arith, p) in
      subst (λ (x : ℕ). IsDead (update f s x).heap h) same (update_self-IsDead f s h keeps d)
  | inr p ↦ let ne : g ≢ h = ground (arith, p) in update_other-IsDead f s g h ne d
]

Updates-IsDead : {s s' : Server} (h : ℕ) → Updates s s' → IsDead s.heap h → IsDead s'.heap h
Updates-IsDead h same d = d
Updates-IsDead {s = s} h (updated f g keeps) d = update-IsDead f s g h keeps d

abbrev AllDead : ℕ → Option Server → Type 0
AllDead h none = Unit
AllDead h (some s) = IsDead s.heap h

AllUpdates-AllDead :
    (s : Server) (h : ℕ) (o : Option Server) → AllUpdates s o → IsDead s.heap h → AllDead h o
AllUpdates-AllDead s h none u d = tt
AllUpdates-AllDead s h (some s') u d = Updates-IsDead h u d

get_or_create-IsDead :
    (getenv : Str → Str) (s : Server) (id : Str) (now : Time) (h : ℕ)
    → IsDead s.heap h
    → IsDead (get_or_create getenv s id now).0.heap h
unfolding get_or_create
get_or_create-IsDead getenv s id now h d = elim (Option-cases (lookup id s.sess)) [
  | inl e ↦ rw e (record {
    entry = d.entry;
    found = get_elem?-append s.heap _ h d.entry d.found;
    dead = d.dead;
  })
  | inr (g, e) ↦ rw e d
]

pub close_all-IsDead :
    (s : Server) (hs : List ℕ) (h : ℕ) → IsDead s.heap h → IsDead (close_all s hs).heap h
unfolding close_all
close_all-IsDead s [] h d = d
close_all-IsDead s (g ∷ hs) h d =
    close_all-IsDead (close s (some g)) hs h (Updates-IsDead h (close-Updates s (some g)) d)

end_stream-IsDead :
    (s : Server) (st : Stream) (h : ℕ) → IsDead s.heap h → IsDead (end_stream s st).heap h
unfolding end_stream
end_stream-IsDead s st h d =
    close_all-IsDead (close s st.sess) st.created h (Updates-IsDead h (close-Updates s st.sess) d)

on_close-IsDead :
    (s : Server) (st : Stream) (h : ℕ) → IsDead s.heap h → IsDead (on_close s st).heap h
unfolding on_close
on_close-IsDead s st h d =
    let closed = end_stream-IsDead s st h d in
    elim (Bool-cases (is_empty st.session_id)) [ inl e ↦ rw e closed | inr e ↦ rw e closed ]

message-AllDead :
    (getenv : Str → Str) (s : Server) (st : Stream) (m : ClientMessage) (now : Time) (h : ℕ)
    → IsDead s.heap h
    → AllDead h (server_of (on_message getenv s st m now))
unfolding on_message on_start
message-AllDead getenv s st (start id utter_id) now h d =
    let (s', g) = get_or_create getenv s id now in
    update-IsDead (λ e. record e { session = start_utterance e.session utter_id now }) s' g h
      (λ e k. k) (get_or_create-IsDead getenv s id now h d)
message-AllDead getenv s st close_request now h d = on_close-IsDead s st h d
message-AllDead getenv s st (audio bytes loud queued) now h d =
    AllUpdates-AllDead s h (server_of (on_message getenv s st (audio bytes loud queued) now))
      (message-Updates getenv s st (audio bytes loud queued) now tt) d
message-AllDead getenv s st drain_request now h d =
    AllUpdates-AllDead s h (server_of (on_message getenv s st drain_request now))
      (message-Updates getenv s st drain_request now tt) d
message-AllDead getenv s st (ping seq) now h d = d
message-AllDead getenv s st other now h d = d

Step-IsDead :
    (getenv : Str → Str) {s s' : Server} (h : ℕ)
    → Step getenv s s'
    → IsDead s.heap h
    → IsDead s'.heap h
unfolding on_recv_error reap
Step-IsDead getenv {s = s} h (messages st m now s' e) d =
    subst (AllDead h) e (message-AllDead getenv s st m now h d)
Step-IsDead getenv {s = s} h (forwards st) d = Updates-IsDead h (forward-Updates s st) d
Step-IsDead getenv {s = s} h (fails st) d = end_stream-IsDead s st h d
Step-IsDead getenv {s = s} h (reaps now) d =
    close_all-IsDead s (split_idle s.heap s.idle_ttl now s.sess).1 h d
Step-IsDead getenv {s = s} h (hears g l ev now) d =
    update-IsDead (hear l ev now) s g h (hear-KeepsCancelled l ev now) d
Step-IsDead getenv {s = s} h (ends g) d = update-IsDead end_events s g h end_events-KeepsCancelled d

pub Reach-IsDead :
    (getenv : Str → Str) {s s' : Server} (h : ℕ)
    → Reach getenv s s'
    → IsDead s.heap h
    → IsDead s'.heap h
Reach-IsDead getenv h here d = d
Reach-IsDead getenv h (next r st) d = Step-IsDead getenv h st (Reach-IsDead getenv h r d)
