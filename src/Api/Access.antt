-- ===== src/Api/Access.antt =====
-- Who may use the handlers for development of internal/api/handlers.go.
use yuzu_agent_webrtc_toy.Prelude.{
  ℕ, ◌≡◌, Bool, true, false, ◌⊎◌, some, arith, Option-cases, inl, inr,
}
use yuzu_agent_webrtc_toy.Text.{Str, str_eq_iff, is_empty}
use yuzu_agent_webrtc_toy.Maps.{Map}
use yuzu_agent_webrtc_toy.Clock.{Time}
use yuzu_agent_webrtc_toy.Json.{Value}
use yuzu_agent_webrtc_toy.Store.{Session, get_session}
use yuzu_agent_webrtc_toy.Auth.{Crypto}
use yuzu_agent_webrtc_toy.Api.{Config, Backend, Request, Response, reply}
use yuzu_agent_webrtc_toy.Api.Dev.{
  dev_authorized, mint, handle_mint_worker_token, handle_mint_ws_creds, handle_debug_vad,
}

-- The request may use the handlers for development: it comes with the key, which is not empty, or the
-- server is in the mode for development; and the session is known.
pub record Permitted (cfg : Config) (b : Backend) (req : Request) (id : Str) : Type 0 where
  pub session : Session
  pub known : get_session b.store id ≡ some session
  pub authorized :
      (cfg.dev_mode ≡ true) ⊎ ((is_empty cfg.dev_key ≡ false) × (req.dev_key ≡ cfg.dev_key))

dev_authorized_sound :
    (cfg : Config) (req : Request)
    → dev_authorized cfg req ≡ true
    → (cfg.dev_mode ≡ true) ⊎ ((is_empty cfg.dev_key ≡ false) × (req.dev_key ≡ cfg.dev_key))
unfolding dev_authorized
dev_authorized_sound cfg req h = ground (arith, str_eq_iff req.dev_key cfg.dev_key, h)

mint-Permitted :
    (cfg : Config) (b : Backend) (req : Request) (id : Str) (answer : Response) (n : ℕ)
    (m : Map Value)
    → mint cfg b req id answer ≡ reply n m
    → Permitted cfg b req id
unfolding mint
mint-Permitted cfg b req id answer n m h = elim (Option-cases (get_session b.store id)) [
  | inl e ↦ ground (arith, e, h)
  | inr (sess, e) ↦
      let authorized : dev_authorized cfg req ≡ true = ground (arith, h) in
      record { session = sess; known = e; authorized = dev_authorized_sound cfg req authorized }
]

debug-Permitted :
    (cfg : Config) (b : Backend) (req : Request) (ready : Bool) (id typ : Str) (now : Time) (n : ℕ)
    (m : Map Value)
    → (handle_debug_vad cfg b req ready id typ now).0 ≡ reply n m
    → Permitted cfg b req id
unfolding handle_debug_vad
debug-Permitted cfg b req ready id typ now n m h = elim (Option-cases (get_session b.store id)) [
  | inl e ↦ ground (arith, e, h)
  | inr (sess, e) ↦
      let authorized : dev_authorized cfg req ≡ true = ground (arith, h) in
      record { session = sess; known = e; authorized = dev_authorized_sound cfg req authorized }
]

-- The handlers for development.
pub data DevCall : Type 0 where
  worker_token ws_creds : DevCall
  debug_vad : Bool → Str → DevCall

abbrev pub answer_of : DevCall → Crypto → Config → Backend → Request → Str → Time → Response
answer_of worker_token c cfg b req id now = handle_mint_worker_token c cfg b req id now
answer_of ws_creds c cfg b req id now = handle_mint_ws_creds c cfg b req id now
answer_of (debug_vad ready typ) c cfg b req id now = (handle_debug_vad cfg b req ready id typ now).0

-- Whatever a handler for development answers without an error, the session is known, and the request
-- comes with the configured key, which is not empty, unless the server is in the mode for development.
pub answer_of-Permitted :
    (call : DevCall) (c : Crypto) (cfg : Config) (b : Backend) (req : Request) (id : Str)
    (now : Time) (n : ℕ) (m : Map Value)
    → answer_of call c cfg b req id now ≡ reply n m
    → Permitted cfg b req id
unfolding handle_mint_worker_token handle_mint_ws_creds
answer_of-Permitted worker_token c cfg b req id now n m h = mint-Permitted cfg b req id _ n m h
answer_of-Permitted ws_creds c cfg b req id now n m h = mint-Permitted cfg b req id _ n m h
answer_of-Permitted (debug_vad ready typ) c cfg b req id now n m h =
    debug-Permitted cfg b req ready id typ now n m h
