-- ===== src/Clock.antt =====
-- Go's `time`: instants, durations and their units, and the 32-bit conversion of an `int`.
use yuzu_agent_webrtc_toy.Prelude.{ℕ, suc, ◌-◌, ◌*◌, ◌/◌, ◌%◌, Bool, ltb, ◌==◌}
use yuzu_agent_webrtc_toy.Prelude.Int.{ℤ, pos, negsuc, neg, sub_ℕ, wrap_i64}

-- A `time.Time` in nanoseconds since the zero time `time.Time{}`, which is 0 and unset.
abbrev pub Time : Type 0
Time = ℕ

-- `t.IsZero()`
abbrev pub is_zero : Time → Bool
is_zero t = t == 0

-- `a.Before(b)` and `a.After(b)`
abbrev pub before : Time → Time → Bool
before a b = ltb a b

abbrev pub after : Time → Time → Bool
after a b = ltb b a

-- `a.Sub(b)` in nanoseconds. (Go stops at 292 years, which two instants of one run never reach.)
abbrev pub sub_time : Time → Time → ℤ
sub_time a b = sub_ℕ a b

abbrev pub millisecond : ℕ
millisecond = 1000000

abbrev pub second : ℕ
second = 1000000000

-- `time.Duration(d).Milliseconds()`, which rounds towards zero.
abbrev pub milliseconds : ℤ → ℤ
milliseconds (pos n) = pos (n / 1000000)
milliseconds (negsuc n) = neg (suc n / 1000000)

-- A number of units as an `int64`, of a non-negative or a negative number.
abbrev pub scale : ℕ → ℤ → ℤ
scale unit (pos n) = wrap_i64 (pos (n * unit))
scale unit (negsuc n) = wrap_i64 (neg (suc n * unit))

-- `time.Duration(n) * time.Second` and `time.Duration(n) * time.Millisecond`
abbrev pub seconds : ℤ → ℤ
seconds n = scale second n

abbrev pub millis : ℤ → ℤ
millis n = scale millisecond n

-- The Unix epoch in nanoseconds after the zero time.
abbrev pub unix_epoch : Time
unix_epoch = 62135596800 * second

-- `t.UnixMilli()`, of instants after 1970.
abbrev pub unix_milli : Time → ℕ
unix_milli t = (t - unix_epoch) / 1000000

-- `t.Unix()` by the nanoseconds from the Unix epoch to `t`, which rounds down.
abbrev pub unix_seconds : ℤ → ℤ
unix_seconds (pos n) = pos (n / 1000000000)
unix_seconds (negsuc n) = negsuc (n / 1000000000)

-- `t.Unix()`
abbrev pub unix : Time → ℤ
unix t = unix_seconds (sub_ℕ t unix_epoch)

-- `uint32(n)` of an `int`.
abbrev pub to_u32 : ℤ → ℕ
to_u32 (pos n) = n % 4294967296
to_u32 (negsuc n) = 4294967295 - n % 4294967296
