-- ===== src/Bot/Processes.antt =====
-- How many processes of a session internal/bot/runner.go runs, over any interleaving of its goroutines.
use yuzu_agent_webrtc_toy.Prelude.{
  ℕ, ◌+◌, ◌-◌, ◌≤◌, ◌<◌, ◌≡◌, refl, true, false, List, [], ◌∷◌, some, arith, Option-cases, inl, inr,
  ◌↔◌, ◌==◌, if◌then◌else◌,
}
use yuzu_agent_webrtc_toy.Text.{Str, str_eq, str_eq_iff, str_eq_refl, is_empty, trim_space}
use yuzu_agent_webrtc_toy.Maps.{lookup, lookup-insert, lookup-delete}
use yuzu_agent_webrtc_toy.Bot.{
  reserved, running, LocalRunner, new_local_runner, is_some, is_running, remove_one, reserve,
  abandon, started, exited, stop,
}

-- How often a session stands in a list.
unfoldable pub count : Str → List Str → ℕ
count id [] = 0
count id (x ∷ xs) = (if str_eq x id then 1 else 0) + count id xs

pub count-remove_one :
    (id j : Str) (xs : List Str)
    → count j (remove_one id xs)
      ≡ count j xs - (if str_eq id j then (if count id xs == 0 then 0 else 1) else 0)
unfolding count remove_one
count-remove_one id j [] = ground arith
count-remove_one id j (x ∷ xs) =
    ground (arith, str_eq_iff x id, str_eq_iff x j, str_eq_iff id j, count-remove_one id j xs)

-- A step of one of the goroutines, or of a caller.
pub data Step : LocalRunner → LocalRunner → Type 0 where
  reserving : (r : LocalRunner) (id : Str) → Step r (reserve r id).0
  abandoning : (r : LocalRunner) (id : Str) → 0 < count id r.starting → Step r (abandon r id)
  starting :
      (r : LocalRunner) (id : Str) (pid : ℕ) → 0 < count id r.starting → Step r (started r id pid)
  exiting : (r : LocalRunner) (id : Str) → 0 < count id r.alive → Step r (exited r id)
  stopping : (r : LocalRunner) (id : Str) → Step r (stop r id).0

pub data Reach (r : LocalRunner) : LocalRunner → Type 0 where
  here : Reach r r
  next : {s t : LocalRunner} → Reach r s → Step s t → Reach r t

-- A session has a slot while a call of `Start` holds its reservation or a process of it is alive, and
-- there is only one of these.
abbrev pub IsExclusive : LocalRunner → Type 0
IsExclusive r =
    (id : Str)
    → count id r.starting + count id r.alive ≡ (if is_some (lookup id r.procs) then 1 else 0)

reserve-IsExclusive : (r : LocalRunner) (id : Str) → IsExclusive r → IsExclusive (reserve r id).0
unfolding reserve is_running count
reserve-IsExclusive r id v j =
    ground (arith, lookup-insert id j reserved r.procs, str_eq_iff id j, v id, v j)

abandon-IsExclusive :
    (r : LocalRunner) (id : Str)
    → 0 < count id r.starting
    → IsExclusive r
    → IsExclusive (abandon r id)
unfolding abandon
abandon-IsExclusive r id h v j = ground (
  arith,
  lookup-delete id j r.procs,
  count-remove_one id j r.starting,
  str_eq_iff id j,
  v id,
  v j,
)

started-IsExclusive :
    (r : LocalRunner) (id : Str) (pid : ℕ)
    → 0 < count id r.starting
    → IsExclusive r
    → IsExclusive (started r id pid)
unfolding started count
started-IsExclusive r id pid h v j = ground (
  arith,
  lookup-insert id j (running pid) r.procs,
  count-remove_one id j r.starting,
  str_eq_iff id j,
  v id,
  v j,
)

exited-IsExclusive :
    (r : LocalRunner) (id : Str) → 0 < count id r.alive → IsExclusive r → IsExclusive (exited r id)
unfolding exited
exited-IsExclusive r id h v j =
    ground
      (arith, lookup-delete id j r.procs, count-remove_one id j r.alive, str_eq_iff id j, v id, v j)

stop-keeps :
    (r : LocalRunner) (id : Str)
    → let s = (stop r id).0 in (s.procs ≡ r.procs) × (s.starting ≡ r.starting) × (s.alive ≡ r.alive)
unfolding stop
stop-keeps r id = elim (Option-cases (lookup id r.procs)) [
  | inl e ↦ rw e (refl, refl, refl)
  | inr (slot, e) ↦ ground (arith, e)
]

-- Every step keeps the sessions exclusive.
Step-IsExclusive : {r s : LocalRunner} → Step r s → IsExclusive r → IsExclusive s
Step-IsExclusive (reserving r id) v = reserve-IsExclusive r id v
Step-IsExclusive (abandoning r id h) v = abandon-IsExclusive r id h v
Step-IsExclusive (starting r id pid h) v = started-IsExclusive r id pid h v
Step-IsExclusive (exiting r id h) v = exited-IsExclusive r id h v
Step-IsExclusive (stopping r id) v = λ j. ground (arith, stop-keeps r id, v j)

Reach-IsExclusive : {r s : LocalRunner} → IsExclusive r → Reach r s → IsExclusive s
Reach-IsExclusive v here = v
Reach-IsExclusive v (next r st) = Step-IsExclusive st (Reach-IsExclusive v r)

new_local_runner-IsExclusive : (cmd : Str) → IsExclusive (new_local_runner cmd)
unfolding new_local_runner count lookup
new_local_runner-IsExclusive cmd id = refl

-- Whatever steps the calls of the runner and its goroutines take, in any order: of no session are two
-- processes alive, or one process while another one is started; and a session runs for `IsRunning`
-- exactly if there is one of these.
pub one_process_a_session :
    (cmd : Str) (r : LocalRunner)
    → Reach (new_local_runner cmd) r
    → (id : Str)
    → (count id r.starting + count id r.alive ≤ 1)
      × ((is_running r id ≡ true) ↔ (0 < count id r.starting + count id r.alive))
unfolding is_running
one_process_a_session cmd r reach id =
    let exclusive = Reach-IsExclusive (new_local_runner-IsExclusive cmd) reach id in
    ground (arith, exclusive)

-- From any runner that has a command, and for any session without a process: a call of `Stop` that
-- comes between the reservation of `Start` and the start of the process makes the program panic.
pub stop_during_start_crashes :
    (r : LocalRunner) (id : Str)
    → is_empty (trim_space r.worker_cmd) ≡ false
    → is_running r id ≡ false
    → (s : LocalRunner) × Reach r s × (s.crashed ≡ true)
unfolding reserve stop is_running
stop_during_start_crashes r id cmd free =
    let t = (reserve r id).0 in
    let slot : lookup id t.procs ≡ some reserved =
      unfold reserve in rw (cmd, free, lookup-insert id id reserved r.procs, str_eq_refl id) in
    ((stop t id).0, next (next here (reserving r id)) (stopping t id), rw slot refl)
