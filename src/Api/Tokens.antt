-- ===== src/Api/Tokens.antt =====
-- Who gets a token from internal/api/handlers.go, and that internal/workerws admits it.
use yuzu_agent_webrtc_toy.Prelude.{◌≡◌, true, false, List, ◌++◌, some, Bool-cases, inl, inr}
use yuzu_agent_webrtc_toy.Prelude.Int.{ℤ}
use yuzu_agent_webrtc_toy.Text.{Str, codes, str_eq, str_eq_refl, is_empty}
use yuzu_agent_webrtc_toy.Maps.{occurrences, lookup, insert, lookup-insert}
use yuzu_agent_webrtc_toy.Clock.{Time, seconds}
use yuzu_agent_webrtc_toy.Store.{Session, get_session}
use yuzu_agent_webrtc_toy.Auth.{Crypto, generate_worker_token, skew_of, is_late}
use yuzu_agent_webrtc_toy.Auth.Tokens.{HasNoDot, IsInt64, IsLawful, validate-generate}
use yuzu_agent_webrtc_toy.Bot.{merged}
use yuzu_agent_webrtc_toy.Bot.Environment.{is_map, is_map-IsMap, merged_lem}
use yuzu_agent_webrtc_toy.WorkerWs.{
  Server, admitted, admit, admit_known, admit_bearer, strip_prefix,
}
use yuzu_agent_webrtc_toy.Api.{Config, Request, expiry}
use yuzu_agent_webrtc_toy.Api.Sessions.{bot_env}

-- What a worker shows of a token that it got.
abbrev pub bearer : Str → Str
bearer token = codes "Bearer " ++ token

-- A server of the websocket that knows the session and has the secret of the configuration, which is
-- not empty.
pub record Expects (cfg : Config) (s : Server) (id : Str) : Type 0 where
  pub session : Session
  pub known : get_session s.store id ≡ some session
  pub secret : s.cfg.token_secret ≡ cfg.token_secret
  pub has_secret : is_empty cfg.token_secret ≡ false

module _ (c : Crypto) (cfg : Config) (s : Server) (id : Str) (later : Time) where
  admit-generate :
      (exp : ℤ)
      → IsLawful c
      → Expects cfg s id
      → is_empty id ≡ false
      → HasNoDot id
      → IsInt64 exp
      → is_late exp (skew_of s.cfg.token_skew_secs) later ≡ false
      → admit c s id (bearer (generate_worker_token c cfg.token_secret id exp)) later ≡ admitted id
  unfolding admit admit_known admit_bearer strip_prefix
  admit-generate exp laws e ne h small timely = rw (
    ne,
    e.known,
    e.secret,
    e.has_secret,
    validate-generate c cfg.token_secret id id exp later s.cfg.token_skew_secs laws h small,
    ne,
    str_eq_refl id,
    timely,
  )

is_map-bot_env :
    (c : Crypto) (cfg : Config) (sess : Session) (req : Request) (id : Str) (now : Time)
    → is_map (bot_env c cfg sess req id now) ≡ true
unfolding bot_env is_map occurrences insert str_eq
is_map-bot_env c cfg sess req id now = elim (Bool-cases (is_empty cfg.token_secret)) [
  | inl e ↦ rw e
  | inr e ↦ rw e
]

lookup-bot_env :
    (c : Crypto) (cfg : Config) (sess : Session) (req : Request) (id : Str) (now : Time)
    → is_empty cfg.token_secret ≡ false
    → lookup (codes "WORKER_TOKEN") (bot_env c cfg sess req id now)
      ≡ some (generate_worker_token c cfg.token_secret id (expiry now (seconds cfg.token_ttl_secs)))
unfolding bot_env str_eq
lookup-bot_env c cfg sess req id now h =
    rw (h, lookup-insert (codes "WORKER_TOKEN") (codes "WORKER_TOKEN"))

-- A bot that is started for a session whose identifier is not empty and has no dot in it gets, whatever
-- the environment of the server is, a token in its merged environment; where the server of the
-- websocket knows the session and has the configured secret, which is not empty, and the expiry is in
-- the range of int64, it admits the bot with this token until it is late.
pub bot_env-admitted :
    (c : Crypto) (cfg : Config) (sess : Session) (req : Request) (s : Server) (base : List Str)
    (id : Str) (now later : Time)
    → IsLawful c
    → Expects cfg s id
    → is_empty id ≡ false
    → HasNoDot id
    → IsInt64 (expiry now (seconds cfg.token_ttl_secs))
    → is_late (expiry now (seconds cfg.token_ttl_secs)) (skew_of s.cfg.token_skew_secs) later
      ≡ false
    → (token : Str) × (lookup (codes "WORKER_TOKEN") (merged base (bot_env c cfg sess req id now))
        ≡ some token)
      × (admit c s id (bearer token) later ≡ admitted id)
bot_env-admitted c cfg sess req s base id now later laws e ne h small timely =
    let exp = expiry now (seconds cfg.token_ttl_secs) in
    let env = bot_env c cfg sess req id now in
    (
      generate_worker_token c cfg.token_secret id exp,
      rw (
        (merged_lem base env (is_map-IsMap env (is_map-bot_env c cfg sess req id now))).1
            (codes "WORKER_TOKEN"),
        lookup-bot_env c cfg sess req id now e.has_secret,
      ),
      admit-generate c cfg s id later exp laws e ne h small timely,
    )
