-- ===== src/WorkerWs/Connections.antt =====
-- Who may connect as a worker, and what becomes of a connection that is replaced.
use yuzu_agent_webrtc_toy.Prelude.{ℕ, ◌≡◌, refl, sym, subst, true, false, Option, none, some, arith}
use yuzu_agent_webrtc_toy.Prelude.Int.{ℤ}
use yuzu_agent_webrtc_toy.Text.{Str, codes, str_eq_refl, is_empty}
use yuzu_agent_webrtc_toy.Maps.{lookup, lookup-delete}
use yuzu_agent_webrtc_toy.Clock.{Time}
use yuzu_agent_webrtc_toy.Store.{get_session, Session}
use yuzu_agent_webrtc_toy.Auth.{
  Crypto, Validation, valid, err_token_format, err_token_sig, err_token_exp, err_token_sid, is_late,
  skew_of, validate_worker_token,
}
use yuzu_agent_webrtc_toy.Auth.Tokens.{IsAccepted, validate_worker_token-IsAccepted}
use yuzu_agent_webrtc_toy.WorkerWs.{
  Server, admitted, strip_prefix, is_valid, admit_bearer, admit_known, admit, connect, disconnect,
  send_json, is_some,
}

-- A valid answer, with its session and its expiry.
record Valid (v : Validation) : Type 0 where
  sid : Str
  exp : ℤ
  answer : v ≡ valid sid exp

is_valid-Valid : (v : Validation) → is_valid v ≡ true → Valid v
is_valid-Valid (valid sid exp) h = record { sid = sid; exp = exp; answer = refl }
is_valid-Valid err_token_format h = ground arith
is_valid-Valid err_token_sig h = ground arith
is_valid-Valid err_token_exp h = ground arith
is_valid-Valid err_token_sid h = ground arith

-- A request that may connect: its session is in the store, and its bearer token is signed with the
-- configured secret for that session and is not late.
pub record MayConnect (c : Crypto) (s : Server) (session_id authz : Str) (now : Time) : Type 0 where
  pub session : Session
  pub token : Str
  pub exp : ℤ
  pub known : get_session s.store session_id ≡ some session
  pub bearer : strip_prefix (codes "Bearer ") authz ≡ some token
  pub has_secret : is_empty s.cfg.token_secret ≡ false
  pub accepted : IsAccepted c s.cfg.token_secret token session_id exp
  pub timely : is_late exp (skew_of s.cfg.token_skew_secs) now ≡ false

module _ (c : Crypto) (s : Server) (session_id authz : Str) (now : Time) where
  admit_bearer-MayConnect :
      (session : Session) (token : Option Str) (sid : Str)
      → is_empty session_id ≡ false
      → get_session s.store session_id ≡ some session
      → strip_prefix (codes "Bearer ") authz ≡ token
      → admit_bearer c s session_id token now ≡ admitted sid
      → (sid ≡ session_id) × MayConnect c s session_id authz now
  unfolding admit_bearer
  admit_bearer-MayConnect session none sid ne k b h = ground arith
  admit_bearer-MayConnect session (some token) sid ne k b h =
      let secret = s.cfg.token_secret in
      let answer = validate_worker_token c secret token session_id now s.cfg.token_skew_secs in
      let tests : (is_empty secret ≡ false) × (is_valid answer ≡ true) × (session_id ≡ sid) =
        ground arith in
      let v = is_valid-Valid answer tests.1 in
      let (accepted, late, own) =
        validate_worker_token-IsAccepted c secret token session_id v.sid v.exp now
          s.cfg.token_skew_secs v.answer in
      (
        sym tests.2,
        record {
          session = session;
          token = token;
          exp = v.exp;
          known = k;
          bearer = b;
          has_secret = tests.0;
          accepted = subst (λ (x : Str). IsAccepted c secret token x v.exp) (own ne) accepted;
          timely = late;
        },
      )

  admit_known-MayConnect :
      (known : Option Session) (sid : Str)
      → is_empty session_id ≡ false
      → get_session s.store session_id ≡ known
      → admit_known c s session_id authz now (is_some known) ≡ admitted sid
      → (sid ≡ session_id) × MayConnect c s session_id authz now
  unfolding admit_known
  admit_known-MayConnect none sid ne k h = ground arith
  admit_known-MayConnect (some session) sid ne k h =
      admit_bearer-MayConnect session (strip_prefix (codes "Bearer ") authz) sid ne k refl h

-- A worker is admitted only for the session that it asks for, and only where the store has that session
-- and the worker shows a token that is signed with the configured secret, which is not empty, for that
-- session, and is not late.
pub admit-MayConnect :
    (c : Crypto) (s : Server) (session_id authz sid : Str) (now : Time)
    → admit c s session_id authz now ≡ admitted sid
    → (sid ≡ session_id) × MayConnect c s session_id authz now
unfolding admit
admit-MayConnect c s session_id authz sid now h =
    let tests : (is_empty session_id ≡ false)
        × (admit_known c s session_id authz now (is_some (get_session s.store session_id))
            ≡ admitted sid) =
      ground arith in
    admit_known-MayConnect c s session_id authz now (get_session s.store session_id) sid tests.0
      refl tests.1

-- Where the connection of a session was replaced, the end of the replaced connection removes the new
-- one: whatever a write to it would give, each later message to the worker, which is still connected,
-- is not sent and is reported as sent.
pub replaced_connection_is_lost :
    (s : Server) (session_id : Str) (first second : ℕ) (t0 t1 t2 : Time) (write : Option Str)
    → let s' =
        disconnect (connect (connect s session_id first t0) session_id second t1) session_id t2 in
      (lookup session_id s'.conns ≡ none) × (send_json (lookup session_id s'.conns) write ≡ none)
unfolding disconnect send_json
replaced_connection_is_lost s session_id first second t0 t1 t2 write =
    let conns = (connect (connect s session_id first t0) session_id second t1).conns in
    rw (lookup-delete session_id session_id conns, str_eq_refl session_id) (refl, refl)
