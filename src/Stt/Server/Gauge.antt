-- ===== src/Stt/Server/Gauge.antt =====
-- The gauge of the active sessions in internal/stt/server.go.
use yuzu_agent_webrtc_toy.Prelude.{
  ℕ, ◌+◌, ◌≤◌, ◌≡◌, refl, List, [], ◌∷◌, some, arith, length, Option-cases, inl, inr,
}
use yuzu_agent_webrtc_toy.Prelude.Int.{ℤ}
use yuzu_agent_webrtc_toy.Text.{Str}
use yuzu_agent_webrtc_toy.Maps.{
  Map, lookup, delete, occurrences, IsMap, insert-IsMap, delete-IsMap, length-insert_new,
  length-delete,
}
use yuzu_agent_webrtc_toy.Clock.{Time}
use yuzu_agent_webrtc_toy.Stt.Server.{
  Entry, Server, new_stt_server, update, close, get_or_create, close_all, split_idle, reap,
}
use yuzu_agent_webrtc_toy.Stt.Server.Induction.{reach_keeps}
use yuzu_agent_webrtc_toy.Stt.Server.Steps.{Reach}
use yuzu_agent_webrtc_toy.Stt.Server.Updates.{Updates, same, updated}

-- The table has a session at most once, and the gauge is at most the number of sessions in it.
pub record IsCounted (s : Server) : Type 0 where
  pub keys : IsMap s.sess
  pub bounded : s.gauge_incs ≤ s.gauge_decs + length s.sess

Updates-IsCounted : (s s' : Server) → Updates s s' → IsCounted s → IsCounted s'
unfolding update
Updates-IsCounted s s' same c = c
Updates-IsCounted s s' (updated f h k) c = record { keys = c.keys; bounded = c.bounded }

get_or_create-IsCounted :
    (getenv : Str → Str) (s : Server) (id : Str) (now : Time)
    → IsCounted s
    → IsCounted (get_or_create getenv s id now).0
unfolding get_or_create
get_or_create-IsCounted getenv s id now c = elim (Option-cases (lookup id s.sess)) [
  | inl e ↦ rw e (record {
    keys = insert-IsMap id (length s.heap) s.sess c.keys;
    bounded = ground (arith, length-insert_new id (length s.heap) s.sess e, c.bounded);
  })
  | inr (h, e) ↦ rw e c
]

delete-IsCounted :
    (s : Server) (id : Str)
    → IsCounted s
    → IsCounted (record s { sess = delete id s.sess; gauge_decs = s.gauge_decs + 1 })
delete-IsCounted s id c = record {
  keys = delete-IsMap id s.sess c.keys;
  bounded = ground (arith, length-delete id s.sess, c.keys id, c.bounded);
}

-- The sessions that stay, and those that are reaped.
occurrences-split_idle :
    (heap : List Entry) (ttl : ℤ) (now : Time) (m : Map ℕ) (k : Str)
    → occurrences k (split_idle heap ttl now m).0 ≤ occurrences k m
unfolding split_idle occurrences
occurrences-split_idle heap ttl now [] k = omega arith
occurrences-split_idle heap ttl now ((id, h) ∷ m) k =
    ground (arith, occurrences-split_idle heap ttl now m k)

length-split_idle :
    (heap : List Entry) (ttl : ℤ) (now : Time) (m : Map ℕ)
    → length (split_idle heap ttl now m).0 + length (split_idle heap ttl now m).1 ≡ length m
unfolding split_idle
length-split_idle heap ttl now [] = refl
length-split_idle heap ttl now ((id, h) ∷ m) = ground (arith, length-split_idle heap ttl now m)

gauge-close_all : (s : Server) (hs : List ℕ) → (close_all s hs).gauge_incs ≡ s.gauge_incs
unfolding close_all close update
gauge-close_all s [] = refl
gauge-close_all s (h ∷ hs) = gauge-close_all (close s (some h)) hs

reap-IsCounted : (s : Server) (now : Time) → IsCounted s → IsCounted (reap s now)
unfolding reap
reap-IsCounted s now c = record {
  keys = λ k. ground (arith, occurrences-split_idle s.heap s.idle_ttl now s.sess k, c.keys k);
  bounded = ground (
    arith,
    length-split_idle s.heap s.idle_ttl now s.sess,
    gauge-close_all s (split_idle s.heap s.idle_ttl now s.sess).1,
    c.bounded,
  );
}

new_stt_server-IsCounted : (getenv : Str → Str) → IsCounted (new_stt_server getenv)
unfolding new_stt_server occurrences
new_stt_server-IsCounted getenv = record { keys = λ k. omega arith; bounded = omega arith }

-- Whatever the clients, the provider and the reaper do, in any order: the table of sessions has each
-- session at most once, and the gauge of the active sessions, its increments less its decrements, is
-- at most the number of sessions in the table.
pub gauge_bounded :
    (getenv : Str → Str) (s : Server) → Reach getenv (new_stt_server getenv) s → IsCounted s
gauge_bounded getenv s =
    reach_keeps getenv IsCounted Updates-IsCounted (get_or_create-IsCounted getenv) delete-IsCounted
      reap-IsCounted (new_stt_server-IsCounted getenv)
