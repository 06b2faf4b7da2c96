-- ===== src/Daily/Retries.antt =====
-- The loop of internal/daily/daily.go over at most two attempts.
use yuzu_agent_webrtc_toy.Prelude.{
  ℕ, suc, ◌≡◌, refl, Bool, true, arith, if◌then◌else◌, Bool-cases, inl, inr,
}
use yuzu_agent_webrtc_toy.Daily.{
  Request, Result, call_fails, response, Fetched, fetch_error, fetched, is_transient, on_attempt,
  attempt_loop,
}

-- What an answer comes to where it is the last one, and whether there is another attempt.
abbrev pub last_answer : Result → Fetched
last_answer (call_fails err) = fetch_error err
last_answer (response status status_text body) = fetched status status_text body

abbrev pub is_retried : Result → Bool
is_retried (call_fails err) = true
is_retried (response status status_text body) = is_transient status

module _ {S : Type 0} (serve : S → Request → S × Result) where
  -- The reference: one attempt, and where it is retried a second one.
  abbrev pub second_attempt : S × Result → S × Fetched
  second_attempt (s, r) = (s, last_answer r)

  abbrev pub two_attempts : Request → S × Result → S × Fetched
  two_attempts req (s, r) =
      if is_retried r then second_attempt (serve s req) else (s, last_answer r)

  on_attempt-last :
      (rest : S → S × Fetched) (p : S × Result) → on_attempt serve rest 2 p ≡ second_attempt p
  unfolding on_attempt
  on_attempt-last rest (s, call_fails err) = refl
  on_attempt-last rest (s, response status status_text body) = ground arith

  on_attempt-first :
      (fuel : ℕ) (req : Request) (p : S × Result)
      → on_attempt serve (λ t. attempt_loop serve (suc fuel) 1 t req) 1 p ≡ two_attempts req p
  unfolding on_attempt attempt_loop
  on_attempt-first fuel req (s, call_fails err) =
      on_attempt-last (λ t. attempt_loop serve fuel 2 t req) (serve s req)
  on_attempt-first fuel req (s, response status status_text body) =
      elim (Bool-cases (is_transient status)) [
        | inl e ↦ rw e (on_attempt-last (λ t. attempt_loop serve fuel 2 t req) (serve s req))
        | inr e ↦ rw e refl
      ]

  -- However much more fuel there is, and whatever the service answers, the loop makes one attempt, or,
  -- behind an error of the call, a status of 429 or one from 500 on, two, and its answer is the last one.
  pub attempt_loop_lem :
      (fuel : ℕ) (s : S) (req : Request)
      → attempt_loop serve (suc (suc fuel)) 0 s req ≡ two_attempts req (serve s req)
  unfolding attempt_loop
  attempt_loop_lem fuel s req = on_attempt-first fuel req (serve s req)
