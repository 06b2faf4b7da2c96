-- ===== src/Bot.antt =====
-- internal/bot/runner.go: the processes of the bots, at most one for each session, and their
-- environment. Each operation is a section of the code under the lock, with what stands behind it.
use yuzu_agent_webrtc_toy.Prelude.{
  ℕ, zero, suc, ◌+◌, ◌≡◌, Bool, true, false, not, ◌&&◌, List, [], ◌∷◌, ◌++◌, Option, none, some,
  ◌==◌, if◌then◌else◌,
}
use yuzu_agent_webrtc_toy.Text.{Str, codes, str_eq, is_empty, trim_space}
use yuzu_agent_webrtc_toy.Maps.{Map, lookup, insert, delete}
pub mod Processes
pub mod Environment
pub mod Isolation

-- `proc`: a reservation, whose `cmd` is nil, or a process by its number.
pub data Slot : Type 0 where
  reserved : Slot
  running : ℕ → Slot

-- `LocalRunner`, with the goroutines that use it: the calls of `Start` that hold a reservation, and the
-- processes that a goroutine waits for, by their sessions. A panic in a goroutine ends the program.
pub record LocalRunner : Type 0 where
  pub worker_cmd : Str
  pub procs : Map Slot
  pub starting : List Str
  pub alive : List Str
  pub crashed : Bool

unfoldable pub new_local_runner : Str → LocalRunner
new_local_runner worker_cmd = record {
  worker_cmd = worker_cmd;
  procs = [];
  starting = [];
  alive = [];
  crashed = false;
}

abbrev pub is_some {ℓ} : {A : Type ℓ} → Option A → Bool
is_some none = false
is_some (some a) = true

-- `IsRunning`
unfoldable pub is_running : LocalRunner → Str → Bool
is_running r session_id = is_some (lookup session_id r.procs)

-- One occurrence less.
unfoldable pub remove_one : Str → List Str → List Str
remove_one id [] = []
remove_one id (x ∷ xs) = if str_eq x id then xs else x ∷ remove_one id xs

-- `Start` up to the reservation: its error, if there is one.
unfoldable pub reserve : LocalRunner → Str → LocalRunner × Option Str
reserve r session_id =
    if is_empty (trim_space r.worker_cmd)
    then (r, some (codes "worker command not configured"))
    else if is_running r session_id
    then (r, some (codes "bot already running for session"))
    else (
      record r { procs = insert session_id reserved r.procs; starting = session_id ∷ r.starting },
      none,
    )

-- A pipe or the start of the process fails.
unfoldable pub abandon : LocalRunner → Str → LocalRunner
abandon r session_id = record r {
  procs = delete session_id r.procs;
  starting = remove_one session_id r.starting;
}

-- The process has started; `onStart` is told its number.
unfoldable pub started : LocalRunner → Str → ℕ → LocalRunner
started r session_id pid = record r {
  procs = insert session_id (running pid) r.procs;
  starting = remove_one session_id r.starting;
  alive = session_id ∷ r.alive;
}

-- The goroutine that waits for the process, when it has ended.
unfoldable pub exited : LocalRunner → Str → LocalRunner
exited r session_id = record r {
  procs = delete session_id r.procs;
  alive = remove_one session_id r.alive;
}

-- `Stop`: its error, and a call of `Wait` on the `cmd` of the slot. The process that is cancelled ends
-- later, or is killed; of a reservation there is no `cmd` to wait for.
wait_for : LocalRunner → Option Slot → LocalRunner × Option Str
wait_for r none = (r, some (codes "bot not running for session"))
wait_for r (some (running pid)) = (r, none)
wait_for r (some reserved) = (record r { crashed = true }, none)

unfoldable pub stop : LocalRunner → Str → LocalRunner × Option Str
unfolding wait_for
stop r session_id = wait_for r (lookup session_id r.procs)

-- The texts in front of the first "=" and behind it.
abbrev with_first : ℕ → Option (Str × Str) → Option (Str × Str)
with_first c none = none
with_first c (some (k, v)) = some (c ∷ k, v)

unfoldable pub split_entry : Str → Option (Str × Str)
split_entry [] = none
split_entry (c ∷ s) =
    let rest = split_entry s in if c == b'=' then some ([], s) else with_first c rest

-- An entry of the base in the map of `mergeEnv`; one with no name is left out.
abbrev pub add_parsed : Option (Str × Str) → Map Str → Map Str
add_parsed none m = m
add_parsed (some (k, v)) m = if is_empty k then m else insert k v m

unfoldable pub add_base : List Str → Map Str → Map Str
unfolding split_entry
add_base [] m = m
add_base (kv ∷ base) m = add_base base (add_parsed (split_entry kv) m)

unfoldable pub add_all : Map Str → Map Str → Map Str
add_all [] m = m
add_all ((k, v) ∷ extra) m = add_all extra (insert k v m)

-- `mergeEnv` before it is printed, and `envToList`.
unfoldable pub merged : List Str → Map Str → Map Str
merged base extra = add_all extra (add_base base [])

unfoldable pub env_to_list : Map Str → List Str
env_to_list [] = []
env_to_list ((k, v) ∷ m) = (k ++ b'=' ∷ v) ∷ env_to_list m

unfoldable pub merge_env : List Str → Map Str → List Str
merge_env base extra = env_to_list (merged base extra)
