-- ===== src/Stt/Circuit.antt =====
-- The circuit breaker and the pauses of internal/stt/deepgram.go.
use mathlib.Core.List.{append_assoc}
use yuzu_agent_webrtc_toy.Prelude.{
  ℕ, zero, suc, ◌+◌, ◌*◌, ◌≤◌, ◌<◌, ◌≡◌, refl, true, false, List, [], ◌∷◌, ◌++◌, arith, length,
  length-append, leb, ltb, if◌then◌else◌, Bool-cases, inl, inr,
}
use yuzu_agent_webrtc_toy.Clock.{Time, second, millisecond, before}
use yuzu_agent_webrtc_toy.Stt.Provider.{
  at_most, DeepgramConn, Service, recent, add_failure, backoff_after, next_backoff,
  connect_and_pump, settle, run_round,
}

backoff_after_bounds : (n : ℕ) → (second ≤ backoff_after n) × (backoff_after n ≤ 16 * second)
unfolding backoff_after
backoff_after_bounds zero = ground arith
backoff_after_bounds (suc zero) = ground arith
backoff_after_bounds (suc (suc zero)) = ground arith
backoff_after_bounds (suc (suc (suc zero))) = ground arith
backoff_after_bounds (suc (suc (suc (suc zero)))) = ground arith
backoff_after_bounds (suc (suc (suc (suc (suc n))))) =
    let top : at_most 5 (suc (suc (suc (suc (suc n))))) ≡ 5 = ground arith in rw top (ground arith)

-- A pause is between one and sixteen seconds, whatever failed.
pub next_backoff_bounds :
    (d : DeepgramConn) → (second ≤ next_backoff d) × (next_backoff d ≤ 16 * second)
unfolding next_backoff
next_backoff_bounds d = backoff_after_bounds (length d.fails)

-- The failures kept are those of the last 60 seconds.
recent-append :
    (now : Time) (xs ys : List Time) → recent now (xs ++ ys) ≡ recent now xs ++ recent now ys
unfolding recent
recent-append now [] ys = refl
recent-append now (x ∷ xs) ys = elim (Bool-cases (ltb now (x + 60 * second))) [
  | inl e ↦ rw (e, recent-append now xs ys)
  | inr e ↦ rw (e, recent-append now xs ys)
]

recent_three :
    (now a b : Time)
    → now < a + 60 * second
    → now < b + 60 * second
    → recent now (a ∷ (b ∷ (now ∷ []))) ≡ a ∷ (b ∷ (now ∷ []))
unfolding recent
recent_three now a b h k = ground arith

-- The circuit is open since its last failure at `t`, and the failure before that one was at most 27
-- seconds earlier.
pub record IsOpen (d : DeepgramConn) (t : Time) : Type 0 where
  pub older : List Time
  pub previous : Time
  pub fails : d.fails ≡ older ++ previous ∷ (t ∷ [])
  pub ordered : t ≤ previous + 27 * second
  pub circuit : d.circuit ≡ t + 30 * second

-- A round of `run`, by its delays: from the end of the pause to the test of the circuit, and from
-- there to the failure. What the provider would have done is the last part.
pub record Round : Type 0 where
  pub wait : ℕ
  pub work : ℕ
  pub service : Service

abbrev pub started : DeepgramConn → Time → Round → Time
started d t r = t + next_backoff d + r.wait

abbrev pub ended : DeepgramConn → Time → Round → Time
ended d t r = started d t r + r.work

-- The rounds of `run` behind a failure at a given time, and how many of them dialled.
unfoldable pub dials : DeepgramConn → Time → List Round → ℕ
dials d t [] = 0
dials d t (r ∷ rounds) =
    let (d', outputs, dialled) = run_round d (started d t r) (ended d t r) r.service in
    (if dialled then 1 else 0) + dials d' (ended d t r) rounds

-- The delays of a round are short: the half second that an open circuit waits, and five more.
abbrev pub IsShort : Round → Type 0
IsShort r = (r.wait ≤ 5 * second) × (r.work ≤ 500 * millisecond + 5 * second)

abbrev pub AllShort : List Round → Type 0
AllShort [] = Unit
AllShort (r ∷ rounds) = IsShort r × AllShort rounds

add_failure-IsOpen :
    (d : DeepgramConn) (t t' : Time)
    → IsOpen d t
    → t ≤ t'
    → t' ≤ t + 27 * second
    → IsOpen (add_failure d t').0 t'
unfolding add_failure
add_failure-IsOpen d t t' o le near =
    let kept = (recent t' o.older ++ o.previous ∷ []) ++ t ∷ (t' ∷ []) in
    let eq : recent t' (d.fails ++ t' ∷ []) ≡ kept = rw (
      o.fails,
      append_assoc o.older (o.previous ∷ (t ∷ [])) (t' ∷ []),
      recent-append t' o.older (o.previous ∷ (t ∷ (t' ∷ []))),
      recent_three t' o.previous t (omega (arith, o.ordered)) (omega arith),
      append_assoc (recent t' o.older) (o.previous ∷ []) (t ∷ (t' ∷ [])),
    ) in
    let enough : leb 3 (length (recent t' (d.fails ++ t' ∷ []))) ≡ true = rw eq (
      ground (
        arith,
        length-append (recent t' o.older ++ o.previous ∷ []) (t ∷ (t' ∷ [])),
        length-append (recent t' o.older) (o.previous ∷ []),
      )) in
    record {
      older = recent t' o.older ++ o.previous ∷ [];
      previous = t;
      fails = rw enough eq;
      ordered = near;
      circuit = rw enough refl;
    }

-- A round of an open circuit does not dial, and leaves it open.
run_round-IsOpen :
    (d : DeepgramConn) (t : Time) (r : Round)
    → IsOpen d t
    → IsShort r
    → let (d', outputs, dialled) = run_round d (started d t r) (ended d t r) r.service in
      IsOpen d' (ended d t r) × (dialled ≡ false)
unfolding run_round connect_and_pump settle
run_round-IsOpen d t r o (w, k) =
    let (lo, hi) = next_backoff_bounds d in
    let shut : before (started d t r) d.circuit ≡ true = rw o.circuit (ground (arith, hi, w)) in
    rw shut (add_failure-IsOpen d t (ended d t r) o (omega arith) (omega (arith, hi, w, k)), refl)

-- A circuit that is open since its last failure, where the one before that was at most 27 seconds earlier:
-- over any number of rounds, in each of which at most 5 seconds pass between the end of the pause and
-- the test of the circuit and at most 5.5 between that and the failure, the provider is not dialled,
-- whatever it would have answered.
pub open_circuit_never_dials :
    (d : DeepgramConn) (t : Time) (rounds : List Round)
    → IsOpen d t
    → AllShort rounds
    → dials d t rounds ≡ 0
unfolding dials
open_circuit_never_dials d t [] o short = refl
open_circuit_never_dials d t (r ∷ rounds) o (s, short) =
    let (o', e) = run_round-IsOpen d t r o s in
    let (d', outputs, dialled) = run_round d (started d t r) (ended d t r) r.service in
    rw (e, open_circuit_never_dials d' (ended d t r) rounds o' short)
