-- ===== src/Bot/Isolation.antt =====
-- internal/bot/runner.go for one session: what the runner has of it, and that the operations on a session
-- leave the others.
use yuzu_agent_webrtc_toy.Prelude.{
  ℕ, ◌≡◌, refl, false, List, ◌∷◌, Option, arith, Option-cases, Bool-cases, inl, inr,
}
use yuzu_agent_webrtc_toy.Text.{Str, str_eq, is_empty, trim_space}
use yuzu_agent_webrtc_toy.Maps.{lookup, lookup-insert, lookup-delete}
use yuzu_agent_webrtc_toy.Bot.{
  Slot, reserved, running, LocalRunner, reserve, abandon, started, exited, stop, remove_one,
  is_running,
}
use yuzu_agent_webrtc_toy.Bot.Processes.{count, count-remove_one}

-- What the runner has of a session.
pub record Ran : Type 0 where
  pub proc : Option Slot
  pub starting : ℕ
  pub alive : ℕ

unfoldable pub ran : Str → LocalRunner → Ran
ran j r = record { proc = lookup j r.procs; starting = count j r.starting; alive = count j r.alive }

-- `q` differs from `r` in the session `id` only.
abbrev pub RunsOnly : Str → LocalRunner → LocalRunner → Type 0
RunsOnly id r q = (j : Str) → str_eq id j ≡ false → ran j q ≡ ran j r

count-remove_other :
    (id j : Str) (xs : List Str) → str_eq id j ≡ false → count j (remove_one id xs) ≡ count j xs
count-remove_other id j xs other = ground (arith, count-remove_one id j xs, other)

count-other : (id j : Str) (xs : List Str) → str_eq id j ≡ false → count j (id ∷ xs) ≡ count j xs
unfolding count
count-other id j xs other = ground (arith, other)

module _ (r : LocalRunner) (id : Str) where
  pub reserve-RunsOnly : RunsOnly id r (reserve r id).0
  unfolding reserve ran
  reserve-RunsOnly j other = elim (Bool-cases (is_empty (trim_space r.worker_cmd))) [
    | inl e ↦ rw e refl
    | inr e ↦ elim (Bool-cases (is_running r id)) [
      | inl f ↦ rw (e, f) refl
      | inr f ↦
          rw (e, f, lookup-insert id j reserved r.procs, count-other id j r.starting other, other)
            refl
    ]
  ]

  pub abandon-RunsOnly : RunsOnly id r (abandon r id)
  unfolding abandon ran
  abandon-RunsOnly j other =
      rw (lookup-delete id j r.procs, count-remove_other id j r.starting other, other) refl

  pub started-RunsOnly : (pid : ℕ) → RunsOnly id r (started r id pid)
  unfolding started ran
  started-RunsOnly pid j other =
      rw
        (
          lookup-insert id j (running pid) r.procs,
          count-remove_other id j r.starting other,
          count-other id j r.alive other,
          other,
        )
        refl

  pub exited-RunsOnly : RunsOnly id r (exited r id)
  unfolding exited ran
  exited-RunsOnly j other =
      rw (lookup-delete id j r.procs, count-remove_other id j r.alive other, other) refl

  pub stop-RunsOnly : RunsOnly id r (stop r id).0
  unfolding stop ran
  stop-RunsOnly j other = elim (Option-cases (lookup id r.procs)) [
    | inl e ↦ rw e refl
    | inr (reserved, e) ↦ rw e refl
    | inr (running pid, e) ↦ rw e refl
  ]
