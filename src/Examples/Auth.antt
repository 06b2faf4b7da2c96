-- ===== src/Examples/Auth.antt =====
-- Tokens of internal/auth/token.go, over packages that shift bytes.
use yuzu_agent_webrtc_toy.Prelude.{◌+◌, ◌-◌, ◌*◌, ◌≡◌, refl, ap, [], ◌∷◌, ◌++◌, some, arith}
use yuzu_agent_webrtc_toy.Prelude.Int.{pos, ◌+ℤ◌}
use yuzu_agent_webrtc_toy.Text.{str_eq, Str, codes}
use yuzu_agent_webrtc_toy.Clock.{second, unix_epoch}
use yuzu_agent_webrtc_toy.Auth.{
  Crypto, valid, generate_worker_token, validate_worker_token, skew_of, is_late,
}
use yuzu_agent_webrtc_toy.Auth.Tokens.{HasNoDot, IsLawful, validate-generate}

abbrev pub shift : Str → Str
shift [] = []
shift (c ∷ s) = (c + 47) ∷ shift s

abbrev pub unshift : Str → Str
unshift [] = []
unshift (c ∷ s) = (c - 47) ∷ unshift s

unshift-shift : (s : Str) → unshift (shift s) ≡ s
unshift-shift [] = refl
unshift-shift (c ∷ s) = let back : c + 47 - 47 ≡ c = omega arith in rw (back, unshift-shift s)

shift-HasNoDot : (s : Str) → HasNoDot (shift s)
shift-HasNoDot [] = tt
shift-HasNoDot (c ∷ s) = (ground arith, shift-HasNoDot s)

abbrev pub toy : Crypto
toy = record {
  hmac = λ secret msg. secret ++ msg;
  encode = λ s. s;
  decode = λ s. some s;
  to_hex = shift;
  from_hex = λ s. some (unshift s);
}

pub toy-IsLawful : IsLawful toy
toy-IsLawful = record {
  decode_encode = λ s. refl;
  from_hex_to_hex = λ s. ap some (unshift-shift s);
  to_hex-HasNoDot = shift-HasNoDot;
}

-- The token of a session, which ends after 1000 seconds; the clock skew is 30 seconds.
abbrev pub token : Str
token = generate_worker_token toy (codes "key") (codes "s1") (pos 1000)

validate-generate_example :
    validate_worker_token toy (codes "key") token (codes "s1") (unix_epoch + 1010 * second) (pos 30)
    ≡ valid (codes "s1") (pos 1000)
unfolding is_late skew_of str_eq ◌+ℤ◌
validate-generate_example =
    validate-generate toy (codes "key") (codes "s1") (codes "s1") (pos 1000)
      (unix_epoch + 1010 * second) (pos 30) toy-IsLawful (refl, (refl, tt)) (omega arith)

pub token_accepted :
    validate_worker_token toy (codes "key") token (codes "s1") (unix_epoch + 1010 * second) (pos 30)
    ≡ valid (codes "s1") (pos 1000)
unfolding is_late skew_of str_eq ◌+ℤ◌
token_accepted =
    validate-generate toy (codes "key") (codes "s1") (codes "s1") (pos 1000)
      (unix_epoch + 1010 * second) (pos 30) toy-IsLawful (refl, (refl, tt)) (omega arith)
