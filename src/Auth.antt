-- ===== src/Auth.antt =====
-- internal/auth/token.go: the tokens that a worker shows. The keyed hash, base64url and hex are
-- packages of Go, and parameters here.
use yuzu_agent_webrtc_toy.Prelude.{
  ℕ, suc, ◌+◌, ◌/◌, Bool, not, ◌&&◌, ◌||◌, List, [], ◌∷◌, ◌++◌, Option, none, some, ◌==◌,
  if◌then◌else◌,
}
use yuzu_agent_webrtc_toy.Prelude.Int.{ℤ, pos, negsuc, neg, ◌-ℤ◌, ◌+ℤ◌, ltb_ℤ, wrap_i64}
use yuzu_agent_webrtc_toy.Text.{Str, str_eq, is_empty, atoi, decimal}
use yuzu_agent_webrtc_toy.Clock.{Time, unix, seconds}
pub mod Tokens

-- The errors of the package, or the session and the expiry of a token.
pub data Validation : Type 0 where
  err_token_format err_token_sig err_token_exp err_token_sid : Validation
  valid : Str → ℤ → Validation

-- HMAC-SHA256 with its secret first, base64url without padding, and hex.
pub record Crypto : Type 0 where
  pub hmac : Str → Str → Str
  pub encode : Str → Str
  pub decode : Str → Option Str
  pub to_hex : Str → Str
  pub from_hex : Str → Option Str

-- `strings.Split(s, ".")`: the first part, and the others.
unfoldable pub split_dots : Str → Str × List Str
split_dots [] = ([], [])
split_dots (c ∷ s) =
    let (part, parts) = split_dots s in if c == 46 then ([], part ∷ parts) else (c ∷ part, parts)

-- `strconv.FormatInt(n, 10)`
unfoldable pub format_int : ℤ → Str
format_int (pos n) = decimal n
format_int (negsuc n) = 45 ∷ decimal (suc n)

-- `a + "." + b`
abbrev pub dotted : Str → Str → Str
dotted a b = a ++ 46 ∷ b

-- `int64(d.Seconds())`
abbrev whole_seconds : ℤ → ℤ
whole_seconds (pos n) = pos (n / 1000000000)
whole_seconds (negsuc n) = neg ((n + 1) / 1000000000)

unfoldable pub skew_of : ℤ → ℤ
skew_of skew_seconds = whole_seconds (seconds skew_seconds)

-- The expiry, with sums of int64.
unfoldable pub is_late : ℤ → ℤ → Time → Bool
is_late exp skew now = ltb_ℤ (wrap_i64 (exp +ℤ skew)) (unix now)

unfoldable pub check_expiry : Str → ℤ → Time → ℤ → Validation
check_expiry sid exp now skew =
    if ltb_ℤ (unix now) (wrap_i64 (exp -ℤ skew)) || is_late exp skew now
    then (if is_late exp skew now then err_token_exp else valid sid exp)
    else valid sid exp

module _ (c : Crypto) (secret : Str) where
  -- `GenerateWorkerToken`, which has no error.
  unfoldable pub generate_worker_token : Str → ℤ → Str
  generate_worker_token session_id exp =
      let msg = dotted session_id (format_int exp) in
      c.encode (dotted msg (c.to_hex (c.hmac secret msg)))

  -- The signature and the expiry.
  unfoldable pub check_signature : Str → Str → ℤ → Option Str → Time → ℤ → Validation
  check_signature sid exp_str exp none now skew = err_token_format
  check_signature sid exp_str exp (some got) now skew =
      if not (str_eq (c.hmac secret (dotted sid exp_str)) got)
      then err_token_sig
      else check_expiry sid exp now skew

  unfoldable pub check_parsed : Str → Str → Str → Option ℤ → Str → Time → ℤ → Validation
  check_parsed sid exp_str sig_hex none expected now skew = err_token_format
  check_parsed sid exp_str sig_hex (some exp) expected now skew =
      if not (is_empty expected) && not (str_eq sid expected)
      then err_token_sid
      else check_signature sid exp_str exp (c.from_hex sig_hex) now skew

  -- `len(parts) != 3`
  unfoldable pub check_parts : Str → List Str → Str → Time → ℤ → Validation
  check_parts sid [] expected now skew = err_token_format
  check_parts sid (exp_str ∷ []) expected now skew = err_token_format
  check_parts sid (exp_str ∷ (sig_hex ∷ [])) expected now skew =
      check_parsed sid exp_str sig_hex (atoi exp_str) expected now skew
  check_parts sid (exp_str ∷ (sig_hex ∷ (other ∷ parts))) expected now skew = err_token_format

  unfoldable pub check_decoded : Option Str → Str → Time → ℤ → Validation
  check_decoded none expected now skew = err_token_format
  check_decoded (some raw) expected now skew =
      let (sid, parts) = split_dots raw in check_parts sid parts expected now skew

  -- `ValidateWorkerToken`
  unfoldable pub validate_worker_token : Str → Str → Time → ℤ → Validation
  validate_worker_token token expected now skew_seconds =
      check_decoded (c.decode token) expected now (skew_of skew_seconds)
