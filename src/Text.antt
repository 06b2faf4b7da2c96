-- ===== src/Text.antt =====
-- Go's strings as lists of bytes, with the functions of `strings`, `strconv` and `fmt` that the
-- program calls on them.
use Prim.Native.Char.{code}
use Prim.Native.String.{String}
use yuzu_agent_webrtc_toy.Prelude.{
  ℕ, zero, suc, ◌+◌, ◌-◌, ◌*◌, ◌/◌, ◌%◌, ◌<◌, ◌≡◌, refl, ap, ◌∙◌, ◌↔◌, inl, inr, Bool-cases, Bool,
  true, false, ◌&&◌, ◌||◌, List, [], ◌∷◌, ◌++◌, Option, none, some, arith, leb, ltb, ◌==◌,
  if◌then◌else◌,
}
use yuzu_agent_webrtc_toy.Prelude.Int.{ℤ, pos, neg}

-- A Go string: its bytes.
abbrev pub Str : Type 0
Str = List ℕ

-- A literal, which is ASCII throughout the program.
abbrev pub codes : String → Str
codes String.[] = []
codes (String.◌∷◌ c s) = code c ∷ codes s

-- `a == b` on strings.
unfoldable pub str_eq : Str → Str → Bool
str_eq [] [] = true
str_eq [] (y ∷ ys) = false
str_eq (x ∷ xs) [] = false
str_eq (x ∷ xs) (y ∷ ys) = x == y && str_eq xs ys

-- The test decides equality of strings.
pub str_eq_iff : (a b : Str) → (str_eq a b ≡ true) ↔ (a ≡ b)
unfolding str_eq
str_eq_iff [] [] = ground arith
str_eq_iff [] (y ∷ ys) = ground arith
str_eq_iff (x ∷ xs) [] = ground arith
str_eq_iff (x ∷ xs) (y ∷ ys) = ground (arith, str_eq_iff xs ys)

-- A string equals itself.
pub str_eq_refl : (a : Str) → str_eq a a ≡ true
str_eq_refl a = (str_eq_iff a a).1 refl

-- `s == ""`.
abbrev pub is_empty : Str → Bool
is_empty [] = true
is_empty (_ ∷ _) = false

-- Texts in a row.
unfoldable pub joined : List Str → Str
joined [] = []
joined (s ∷ ss) = s ++ joined ss

-- The white space of `strings.TrimSpace` and `bytes.TrimSpace` among the ASCII bytes.
unfoldable pub is_space : ℕ → Bool
is_space c = c == 32 || (leb 9 c && leb c 13)

unfoldable pub trim_left : Str → Str
trim_left [] = []
trim_left (c ∷ s) = if is_space c then trim_left s else c ∷ s

-- Drops the white space behind the last other byte.
unfoldable pub trim_right : Str → Str
trim_right [] = []
trim_right (c ∷ s) = let rest = trim_right s in if is_space c && is_empty rest then [] else c ∷ rest

-- `strings.TrimSpace`
unfoldable pub trim_space : Str → Str
unfolding trim_left trim_right is_space
trim_space s = trim_right (trim_left s)

-- Trimming on the right a second time changes nothing.
pub trim_right_idem : (s : Str) → trim_right (trim_right s) ≡ trim_right s
unfolding trim_right
trim_right_idem [] = refl
trim_right_idem (c ∷ s) = elim (Bool-cases (is_space c && is_empty (trim_right s))) [
  | inl e ↦ rw e refl
  | inr e ↦ rw (e, trim_right_idem s, e)
]

-- What was trimmed on both sides begins with no white space.
trim_left-trim_right : (s : Str) → trim_left (trim_right (trim_left s)) ≡ trim_right (trim_left s)
unfolding trim_left trim_right
trim_left-trim_right [] = refl
trim_left-trim_right (c ∷ s) = elim (Bool-cases (is_space c)) [
  | inl e ↦ rw e (trim_left-trim_right s)
  | inr e ↦ rw (e, e, e)
]

is_empty-append : (a s : Str) → is_empty s ≡ false → is_empty (a ++ s) ≡ false
is_empty-append [] s e = e
is_empty-append (c ∷ a) s e = refl

-- A line break at the end is trimmed away.
pub trim_right_newline : (s : Str) → trim_right (s ++ 10 ∷ []) ≡ trim_right s
unfolding trim_right is_space
trim_right_newline [] = refl
trim_right_newline (c ∷ s) = rw (trim_right_newline s)

-- What stands in front of a trimmed text is not trimmed on the right.
pub trim_right-append :
    (a s : Str) → trim_right s ≡ s → is_empty s ≡ false → trim_right (a ++ s) ≡ a ++ s
unfolding trim_right
trim_right-append [] s h e = h
trim_right-append (c ∷ a) s h e =
    let full : is_empty (a ++ s) ≡ false = is_empty-append a s e in
    ground (arith, full, trim_right-append a s h e)

-- Trimming a second time changes nothing.
pub trim_space_idem : (s : Str) → trim_space (trim_space s) ≡ trim_space s
unfolding trim_space
trim_space_idem s = rw (trim_left-trim_right s, trim_right_idem (trim_left s))

abbrev pub is_digit : ℕ → Bool
is_digit c = leb b'0' c && leb c b'9'

unfoldable pub digits_value : ℕ → Str → Option ℕ
digits_value acc [] = some acc
digits_value acc (c ∷ s) =
    let rest = digits_value (acc * 10 + (c - 48)) s in if is_digit c then rest else none

-- At least one digit, and nothing but digits.
unfoldable pub unsigned_value : Str → Option ℕ
unfolding digits_value
unsigned_value [] = none
unsigned_value (c ∷ s) = digits_value 0 (c ∷ s)

-- `strconv.Atoi` and `strconv.ParseInt(s, 10, 64)`: an optional sign, digits, and a value in the
-- range of `int64`; `none` is the error.
abbrev pos_value : Option ℕ → Option ℤ
pos_value none = none
pos_value (some n) = if ltb n 0x8000000000000000 then some (pos n) else none

abbrev neg_value : Option ℕ → Option ℤ
neg_value none = none
neg_value (some n) = if leb n 0x8000000000000000 then some (neg n) else none

unfoldable pub atoi : Str → Option ℤ
unfolding unsigned_value
atoi [] = none
atoi (c ∷ s) =
    if c == b'-'
    then neg_value (unsigned_value s)
    else if c == b'+'
    then pos_value (unsigned_value s)
    else pos_value (unsigned_value (c ∷ s))

-- `fmt.Sscanf(s, "%d", &n)`: the integer at the front, behind white space; `none` is an error, which
-- leaves `n` alone.
unfoldable pub leading_digits : Str → Str
leading_digits [] = []
leading_digits (c ∷ s) = let rest = leading_digits s in if is_digit c then c ∷ rest else []

signed_prefix : Str → Option ℤ
signed_prefix [] = none
signed_prefix (c ∷ s) =
    if c == b'-'
    then neg_value (unsigned_value (leading_digits s))
    else if c == b'+'
    then pos_value (unsigned_value (leading_digits s))
    else pos_value (unsigned_value (leading_digits (c ∷ s)))

unfoldable pub scan_int : Str → Option ℤ
unfolding signed_prefix trim_left leading_digits unsigned_value is_space
scan_int s = signed_prefix (trim_left s)

-- The decimal digits of a number, before a text: `%d` and `strconv.FormatInt`. A number is its own
-- fuel, since it has at most as many digits.
unfoldable pub print_digits : ℕ → ℕ → Str → Str
print_digits zero n acc = acc
print_digits (suc fuel) n acc =
    let rest = print_digits fuel (n / 10) ((48 + n % 10) ∷ acc) in
    if ltb n 10 then (48 + n) ∷ acc else rest

unfoldable pub decimal : ℕ → Str
unfolding print_digits
decimal n = print_digits (suc n) n []

digits_value-cons :
    (a d : ℕ) (acc : Str) → d < 10 → digits_value a ((48 + d) ∷ acc) ≡ digits_value (a * 10 + d) acc
unfolding digits_value
digits_value-cons a d acc h =
    let digit : is_digit (48 + d) ≡ true = ground arith in
    let value : 48 + d - 48 ≡ d = omega arith in rw (digit, value)

digits_value-print_digits :
    (fuel n : ℕ) (acc : Str)
    → n < fuel
    → digits_value 0 (print_digits fuel n acc) ≡ digits_value n acc
unfolding digits_value print_digits
digits_value-print_digits zero n acc h = elim h [ ]
digits_value-print_digits (suc fuel) n acc h = elim (Bool-cases (ltb n 10)) [
  | inl small ↦
      rw small (
        digits_value-cons 0 n acc (ground arith) ∙ ap (λ (k : ℕ). digits_value k acc) (omega arith))
  | inr large ↦ rw large (
      digits_value-print_digits fuel (n / 10) ((48 + n % 10) ∷ acc) (ground arith)
      ∙ digits_value-cons (n / 10) (n % 10) acc (omega arith)
      ∙ ap (λ (k : ℕ). digits_value k acc) (omega arith))
]

-- Reading back what was printed.
pub digits_value-decimal : (n : ℕ) → digits_value 0 (decimal n) ≡ some n
unfolding decimal digits_value
digits_value-decimal n = digits_value-print_digits (suc n) n [] (omega arith)

-- `strings.EqualFold` on ASCII texts.
to_lower : ℕ → ℕ
to_lower c = if leb 65 c && leb c 90 then c + 32 else c

unfoldable pub equal_fold : Str → Str → Bool
unfolding to_lower
equal_fold [] [] = true
equal_fold [] (y ∷ ys) = false
equal_fold (x ∷ xs) [] = false
equal_fold (x ∷ xs) (y ∷ ys) = to_lower x == to_lower y && equal_fold xs ys
