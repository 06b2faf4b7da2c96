-- ===== src/Auth/Tokens.antt =====
-- Which tokens internal/auth/token.go accepts.
use mathlib.Core.List.{append_assoc}
use yuzu_agent_webrtc_toy.Prelude.{
  ℕ, zero, suc, ◌+◌, ◌*◌, ◌-◌, ◌/◌, ◌%◌, ◌<◌, ◌≡◌, refl, ap, subst, true, false, not, ◌&&◌, List,
  [], ◌∷◌, Option, none, some, arith, ltb, leb, ◌==◌, if◌then◌else◌, Bool-cases, inl, inr,
}
use yuzu_agent_webrtc_toy.Prelude.Int.{ℤ, pos, negsuc}
use yuzu_agent_webrtc_toy.Text.{
  Str, str_eq, str_eq_iff, str_eq_refl, is_empty, is_digit, atoi, decimal, digits_value,
  unsigned_value, digits_value-decimal, print_digits,
}
use yuzu_agent_webrtc_toy.Clock.{Time}
use yuzu_agent_webrtc_toy.Auth.{
  err_token_exp, err_token_sid, valid, Crypto, split_dots, format_int, dotted, skew_of, is_late,
  check_expiry, generate_worker_token, check_signature, check_parsed, check_parts, check_decoded,
  validate_worker_token,
}

-- A text without a dot.
abbrev pub HasNoDot : Str → Type 0
HasNoDot [] = Unit
HasNoDot (c ∷ s) = ((c == 46) ≡ false) × HasNoDot s

split_dots-dotted :
    (a s : Str) → HasNoDot a → split_dots (dotted a s) ≡ (a, (split_dots s).0 ∷ (split_dots s).1)
unfolding split_dots
split_dots-dotted [] s h = refl
split_dots-dotted (c ∷ a) s (e, h) = rw (e, split_dots-dotted a s h)

split_dots-HasNoDot : (a : Str) → HasNoDot a → split_dots a ≡ (a, [])
unfolding split_dots
split_dots-HasNoDot [] h = refl
split_dots-HasNoDot (c ∷ a) (e, h) = rw (e, split_dots-HasNoDot a h)

-- Digits are no dots, and what they stand for is read back.
digits_value-digit :
    (acc c : ℕ) (s : Str) (n : ℕ)
    → digits_value acc (c ∷ s) ≡ some n
    → (is_digit c ≡ true) × (digits_value (acc * 10 + (c - 48)) s ≡ some n)
unfolding digits_value
digits_value-digit acc c s n h = ground arith

digits_value-HasNoDot : (acc : ℕ) (s : Str) (n : ℕ) → digits_value acc s ≡ some n → HasNoDot s
digits_value-HasNoDot acc [] n h = tt
digits_value-HasNoDot acc (c ∷ s) n h =
    let (digit, rest) = digits_value-digit acc c s n h in
    (ground (arith, digit), digits_value-HasNoDot (acc * 10 + (c - 48)) s n rest)

atoi_of_digits :
    (c : ℕ) (s : Str) (n : ℕ)
    → digits_value 0 (c ∷ s) ≡ some n
    → n < 0x8000000000000000
    → atoi (c ∷ s) ≡ some (pos n)
unfolding atoi unsigned_value
atoi_of_digits c s n h small =
    let (digit, rest) = digits_value-digit 0 c s n h in
    let minus : (c == 45) ≡ false = ground (arith, digit) in
    let plus : (c == 43) ≡ false = ground (arith, digit) in
    let in_range : ltb n 0x8000000000000000 ≡ true = ground (arith, small) in
    rw (minus, plus, h, in_range)

print_digits-cons : (fuel n c : ℕ) (acc : Str) → is_empty (print_digits fuel n (c ∷ acc)) ≡ false
unfolding print_digits
print_digits-cons zero n c acc = refl
print_digits-cons (suc fuel) n c acc = elim (Bool-cases (ltb n 10)) [
  | inl e ↦ rw e
  | inr e ↦ rw e (print_digits-cons fuel (n / 10) (48 + n % 10) (c ∷ acc))
]

decimal-nonempty : (n : ℕ) → is_empty (decimal n) ≡ false
unfolding decimal print_digits
decimal-nonempty n = elim (Bool-cases (ltb n 10)) [
  | inl e ↦ rw e
  | inr e ↦ rw e (print_digits-cons n (n / 10) (48 + n % 10) [])
]

atoi_of_text :
    (s : Str) (n : ℕ)
    → is_empty s ≡ false
    → digits_value 0 s ≡ some n
    → n < 0x8000000000000000
    → atoi s ≡ some (pos n)
atoi_of_text [] n e h small = ground arith
atoi_of_text (c ∷ s) n e h small = atoi_of_digits c s n h small

atoi_of_negated :
    (s : Str) (n : ℕ)
    → is_empty s ≡ false
    → digits_value 0 s ≡ some (suc n)
    → n < 0x8000000000000000
    → atoi (45 ∷ s) ≡ some (negsuc n)
unfolding atoi unsigned_value
atoi_of_negated [] n e h small = ground arith
atoi_of_negated (c ∷ s) n e h small =
    let in_range : leb (suc n) 0x8000000000000000 ≡ true = ground (arith, small) in rw (h, in_range)

-- A value in the range of int64, of which the printed text is read back.
abbrev pub IsInt64 : ℤ → Type 0
IsInt64 (pos n) = n < 0x8000000000000000
IsInt64 (negsuc n) = n < 0x8000000000000000

atoi-format_int : (z : ℤ) → IsInt64 z → atoi (format_int z) ≡ some z
unfolding format_int
atoi-format_int (pos n) small =
    atoi_of_text (decimal n) n (decimal-nonempty n) (digits_value-decimal n) small
atoi-format_int (negsuc n) small =
    atoi_of_negated (decimal (suc n)) n (decimal-nonempty (suc n)) (digits_value-decimal (suc n))
      small

format_int-HasNoDot : (z : ℤ) → HasNoDot (format_int z)
unfolding format_int
format_int-HasNoDot (pos n) = digits_value-HasNoDot 0 (decimal n) n (digits_value-decimal n)
format_int-HasNoDot (negsuc n) =
    (refl, digits_value-HasNoDot 0 (decimal (suc n)) (suc n) (digits_value-decimal (suc n)))

-- The packages do what they promise: what they encode they decode, and hex has no dot in it.
pub record IsLawful (c : Crypto) : Type 0 where
  pub decode_encode : (s : Str) → c.decode (c.encode s) ≡ some s
  pub from_hex_to_hex : (s : Str) → c.from_hex (c.to_hex s) ≡ some s
  pub to_hex-HasNoDot : (s : Str) → HasNoDot (c.to_hex s)

-- The parts of a token.
split_dots-token :
    (sid exp_str sig : Str)
    → HasNoDot sid
    → HasNoDot exp_str
    → HasNoDot sig
    → split_dots (dotted (dotted sid exp_str) sig) ≡ (sid, exp_str ∷ (sig ∷ []))
split_dots-token sid exp_str sig h digits k = rw (
  append_assoc sid (46 ∷ exp_str) (46 ∷ sig),
  split_dots-dotted sid (dotted exp_str sig) h,
  split_dots-dotted exp_str sig digits,
  split_dots-HasNoDot sig k,
)

-- A generated token, for a session without a dot in its identifier and an expiry in the range of int64,
-- negative ones included, is read back: it is refused where another session is expected and where it
-- is late, and is otherwise valid, with its session and its expiry.
pub validate-generate :
    (c : Crypto) (secret sid expected : Str) (exp : ℤ) (now : Time) (skew_seconds : ℤ)
    → IsLawful c
    → HasNoDot sid
    → IsInt64 exp
    → validate_worker_token c secret
        (generate_worker_token c secret sid exp)
        expected
        now
        skew_seconds
      ≡ (if not (is_empty expected) && not (str_eq sid expected)
          then err_token_sid
          else if is_late exp (skew_of skew_seconds) now
          then err_token_exp
          else valid sid exp)
unfolding validate_worker_token generate_worker_token check_decoded check_parts check_parsed
    check_signature check_expiry
validate-generate c secret sid expected exp now skew_seconds laws h small =
    let exp_str = format_int exp in
    let mac = c.hmac secret (dotted sid exp_str) in
    let raw = dotted (dotted sid exp_str) (c.to_hex mac) in
    rw
      (
        laws.decode_encode raw,
        split_dots-token sid exp_str (c.to_hex mac) h (format_int-HasNoDot exp)
            (laws.to_hex-HasNoDot mac),
        atoi-format_int exp small,
        laws.from_hex_to_hex mac,
        str_eq_refl mac,
      )
      (ground arith)

-- What a valid answer says of the parts of a token.
check_expiry-valid :
    (sid s : Str) (exp e : ℤ) (now : Time) (skew : ℤ)
    → check_expiry sid exp now skew ≡ valid s e
    → (sid ≡ s) × (exp ≡ e) × (is_late exp skew now ≡ false)
unfolding check_expiry
check_expiry-valid sid s exp e now skew h = ground arith

-- The hex text `sig` is the keyed hash of a session and an expiry.
abbrev pub IsSigned : Crypto → Str → Str → Str → Str → Type 0
IsSigned c secret sid exp_str sig = c.from_hex sig ≡ some (c.hmac secret (dotted sid exp_str))

module _ (c : Crypto) (secret : Str) (now : Time) (skew : ℤ) where
  check_signature-valid :
      (sid exp_str s : Str) (exp e : ℤ) (got : Option Str)
      → check_signature c secret sid exp_str exp got now skew ≡ valid s e
      → (got ≡ some (c.hmac secret (dotted sid exp_str)))
        × (sid ≡ s)
        × (exp ≡ e)
        × (is_late exp skew now ≡ false)
  unfolding check_signature
  check_signature-valid sid exp_str s exp e none h = ground arith
  check_signature-valid sid exp_str s exp e (some got) h = ground (
    arith,
    str_eq_iff (c.hmac secret (dotted sid exp_str)) got,
    check_expiry-valid sid s exp e now skew,
  )

  check_parsed-valid :
      (sid exp_str sig expected s : Str) (exp : Option ℤ) (e : ℤ)
      → check_parsed c secret sid exp_str sig exp expected now skew ≡ valid s e
      → (exp ≡ some e)
        × (sid ≡ s)
        × IsSigned c secret s exp_str sig
        × (is_late e skew now ≡ false)
        × (is_empty expected ≡ false → s ≡ expected)
  unfolding check_parsed
  check_parsed-valid sid exp_str sig expected s none e h = ground arith
  check_parsed-valid sid exp_str sig expected s (some exp) e h =
      let inner : ((not (is_empty expected) && not (str_eq sid expected)) ≡ false)
          × (check_signature c secret sid exp_str exp (c.from_hex sig) now skew ≡ valid s e) =
        ground arith in
      let (signed, same, ex, late) =
        check_signature-valid sid exp_str s exp e (c.from_hex sig) inner.1 in
      (
        ap some ex,
        same,
        subst (λ (x : Str). IsSigned c secret x exp_str sig) same signed,
        subst (λ (x : ℤ). is_late x skew now ≡ false) ex late,
        λ (ne : is_empty expected ≡ false).
            ground (arith, str_eq_iff sid expected, same, inner.0, ne),
      )

-- What stands in an accepted token: the session and an expiry, with the keyed hash of the two.
pub record IsAccepted (c : Crypto) (secret token s : Str) (e : ℤ) : Type 0 where
  pub raw : Str
  pub exp_str : Str
  pub sig : Str
  pub decoded : c.decode token ≡ some raw
  pub parts : split_dots raw ≡ (s, exp_str ∷ (sig ∷ []))
  pub expiry : atoi exp_str ≡ some e
  pub signed : IsSigned c secret s exp_str sig

module _ (c : Crypto) (secret : Str) (now : Time) (skew : ℤ) where
  check_parts-valid :
      (sid expected s token raw : Str) (parts : List Str) (e : ℤ)
      → c.decode token ≡ some raw
      → split_dots raw ≡ (sid, parts)
      → check_parts c secret sid parts expected now skew ≡ valid s e
      → IsAccepted c secret token s e
        × (is_late e skew now ≡ false)
        × (is_empty expected ≡ false → s ≡ expected)
  unfolding check_parts
  check_parts-valid sid expected s token raw [] e d p h = ground arith
  check_parts-valid sid expected s token raw (x ∷ []) e d p h = ground arith
  check_parts-valid sid expected s token raw (x ∷ (y ∷ (z ∷ parts))) e d p h = ground arith
  check_parts-valid sid expected s token raw (exp_str ∷ (sig ∷ [])) e d p h =
      let (ex, same, signed, late, own) =
        check_parsed-valid c secret now skew sid exp_str sig expected s (atoi exp_str) e h in
      let split = subst (λ (x : Str). split_dots raw ≡ (x, exp_str ∷ (sig ∷ []))) same p in
      (
        record {
          raw = raw;
          exp_str = exp_str;
          sig = sig;
          decoded = d;
          parts = split;
          expiry = ex;
          signed = signed;
        },
        late,
        own,
      )

  check_decoded-valid :
      (token expected s : Str) (decoded : Option Str) (e : ℤ)
      → c.decode token ≡ decoded
      → check_decoded c secret decoded expected now skew ≡ valid s e
      → IsAccepted c secret token s e
        × (is_late e skew now ≡ false)
        × (is_empty expected ≡ false → s ≡ expected)
  unfolding check_decoded
  check_decoded-valid token expected s none e d h = ground arith
  check_decoded-valid token expected s (some raw) e d h =
      let (sid, parts) = split_dots raw in
      check_parts-valid sid expected s token raw parts e d refl h

-- A token that is accepted decodes to three parts, of which the third is the keyed hash of the other
-- two in hex; these are the session and the expiry of the answer, the token is not late, and where a
-- session is expected it is that one.
pub validate_worker_token-IsAccepted :
    (c : Crypto) (secret token expected s : Str) (e : ℤ) (now : Time) (skew_seconds : ℤ)
    → validate_worker_token c secret token expected now skew_seconds ≡ valid s e
    → IsAccepted c secret token s e
      × (is_late e (skew_of skew_seconds) now ≡ false)
      × (is_empty expected ≡ false → s ≡ expected)
unfolding validate_worker_token
validate_worker_token-IsAccepted c secret token expected s e now skew_seconds h =
    check_decoded-valid c secret now (skew_of skew_seconds) token expected s (c.decode token) e refl
      h
