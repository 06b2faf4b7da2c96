-- ===== src/WorkerWs/Sequence.antt =====
-- The detection of gaps of internal/workerws/handler.go over the messages of a worker.
use yuzu_agent_webrtc_toy.Prelude.{
  ℕ, ◌+◌, ◌-◌, ◌<◌, ◌≡◌, refl, sym, subst, ◌∙◌, ap, true, false, List, [], ◌∷◌, some, arith, length,
  ltb,
}
use yuzu_agent_webrtc_toy.Prelude.Int.{ℤ, pos, wrap_i64, ◌+ℤ◌, ◌-ℤ◌}
use yuzu_agent_webrtc_toy.Text.{Str, codes}
use yuzu_agent_webrtc_toy.Maps.{lookup, insert, lookup-insert_self}
use yuzu_agent_webrtc_toy.Clock.{Time}
use yuzu_agent_webrtc_toy.Json.{num}
use yuzu_agent_webrtc_toy.Store.{append_event}
use yuzu_agent_webrtc_toy.WorkerWs.{Server}
use yuzu_agent_webrtc_toy.WorkerWs.Messages.{has_gap, check_seq}

-- The sequence numbers of a run of messages, each with its time.
unfoldable pub check_seqs : Server → Str → List (ℤ × Time) → Server
check_seqs s session_id [] = s
check_seqs s session_id ((seq, now) ∷ rest) =
    check_seqs (check_seq s session_id seq now) session_id rest

-- The numbers behind `n`, at these times.
abbrev pub numbered : ℕ → List Time → List (ℤ × Time)
numbered n [] = []
numbered n (now ∷ times) = (pos (n + 1), now) ∷ numbered (n + 1) times

no_gap : (n : ℕ) → n + 1 < 0x8000000000000000 → has_gap (pos n) (pos (n + 1)) ≡ false
unfolding has_gap ◌+ℤ◌
no_gap n h = ground (arith, h)

a_gap : (n m : ℕ) → 0 < n → n + 1 < m → m < 0x8000000000000000 → has_gap (pos n) (pos m) ≡ true
unfolding has_gap ◌+ℤ◌
a_gap n m some_before left_out h = ground (arith, some_before, left_out, h)

difference : (n m : ℕ) → n < m → m < 0x8000000000000000 → wrap_i64 (pos m -ℤ pos n) ≡ pos (m - n)
unfolding ◌-ℤ◌
difference n m less h = ground (arith, less, h)

-- The next number is noted, and nothing is reported.
check_seq-next :
    (s : Server) (session_id : Str) (n : ℕ) (now : Time)
    → lookup session_id s.last_seq ≡ some (pos n)
    → n + 1 < 0x8000000000000000
    → check_seq s session_id (pos (n + 1)) now
      ≡ record s { last_seq = insert session_id (pos (n + 1)) s.last_seq }
unfolding check_seq
check_seq-next s session_id n now e h =
    let greater : ltb (n + 0) (n + 1 + 0) ≡ true = ground arith in rw (e, no_gap n h, greater) refl

check_seqs-numbered :
    (s : Server) (session_id : Str) (n : ℕ) (times : List Time)
    → lookup session_id s.last_seq ≡ some (pos n)
    → n + length times < 0x8000000000000000
    → let s' = check_seqs s session_id (numbered n times) in
      (s'.store ≡ s.store) × (lookup session_id s'.last_seq ≡ some (pos (n + length times)))
unfolding check_seqs
check_seqs-numbered s session_id n [] e h = let sum : n + 0 ≡ n = omega arith in (refl, rw sum e)
check_seqs-numbered s session_id n (now ∷ times) e h =
    let t : Server = record s { last_seq = insert session_id (pos (n + 1)) s.last_seq } in
    let rest =
      check_seqs-numbered t session_id (n + 1) times
        (lookup-insert_self session_id (pos (n + 1)) s.last_seq) (omega (arith, h)) in
    let sum : n + 1 + length times ≡ n + length (now ∷ times) = omega arith in
    subst
      (λ (x : Server).
        let s' = check_seqs x session_id (numbered (n + 1) times) in
        (s'.store ≡ s.store)
        × (lookup session_id s'.last_seq ≡ some (pos (n + length (now ∷ times)))))
      (sym (check_seq-next s session_id n now e (omega (arith, h))))
      (rest.0, rest.1 ∙ ap (λ k. some (pos k)) sum)

check_seq-jump :
    (s : Server) (session_id : Str) (n m : ℕ) (now : Time)
    → lookup session_id s.last_seq ≡ some (pos n)
    → 0 < n
    → n + 1 < m
    → m < 0x8000000000000000
    → (check_seq s session_id (pos m) now).store
      ≡ (append_event s.store session_id
          (codes "worker_seq_gap")
          (some (
            (codes "prev", num (pos n))
            ∷ (codes "now", num (pos m))
            ∷ (codes "gap", num (pos (m - n)))
            ∷ []))
          now).0
unfolding check_seq
check_seq-jump s session_id n m now e some_before left_out h =
    let greater : ltb (n + 0) (m + 0) ≡ true = ground (arith, left_out) in
    rw (e, a_gap n m some_before left_out h, greater, difference n m (omega (arith, left_out)) h)
      refl

-- Messages of a worker with consecutive numbers report no gap, however many they are; and the first number
-- behind them that leaves some out is reported, with the last number before and the difference of
-- the two, where there was a message before. The numbers are below 2 ^ 63.
pub gap_is_reported :
    (s : Server) (session_id : Str) (n m : ℕ) (times : List Time) (now : Time)
    → lookup session_id s.last_seq ≡ some (pos n)
    → 0 < n + length times
    → n + length times + 1 < m
    → m < 0x8000000000000000
    → let last = n + length times in
      let s' = check_seqs s session_id (numbered n times) in
      (s'.store ≡ s.store)
      × ((check_seq s' session_id (pos m) now).store
          ≡ (append_event s.store session_id
              (codes "worker_seq_gap")
              (some (
                (codes "prev", num (pos last))
                ∷ (codes "now", num (pos m))
                ∷ (codes "gap", num (pos (m - last)))
                ∷ []))
              now).0)
gap_is_reported s session_id n m times now e some_before left_out h =
    let s' = check_seqs s session_id (numbered n times) in
    let run = check_seqs-numbered s session_id n times e (omega (arith, left_out, h)) in
    (
      run.0,
      check_seq-jump s' session_id (n + length times) m now run.1 some_before left_out h
          ∙ ap
              (λ store.
                (append_event store session_id (codes "worker_seq_gap")
                  (some (
                    (codes "prev", num (pos (n + length times)))
                    ∷ (codes "now", num (pos m))
                    ∷ (codes "gap", num (pos (m - (n + length times))))
                    ∷ []))
                  now).0)
              run.0,
    )
