-- ===== src/Api/Dev.antt =====
-- internal/api/handlers.go: the handlers for development, which mint tokens for workers and inject
-- messages of a voice detector.
use yuzu_agent_webrtc_toy.Prelude.{
  Bool, true, false, not, ◌&&◌, ◌||◌, List, [], ◌∷◌, ◌++◌, Option, none, some, if◌then◌else◌,
}
use yuzu_agent_webrtc_toy.Prelude.Int.{pos}
use yuzu_agent_webrtc_toy.Text.{Str, codes, str_eq, is_empty}
use yuzu_agent_webrtc_toy.Clock.{Time, seconds, unix_milli}
use yuzu_agent_webrtc_toy.Json.{text, num, bool}
use yuzu_agent_webrtc_toy.Store.{Session, get_session}
use yuzu_agent_webrtc_toy.Auth.{Crypto, generate_worker_token}
use yuzu_agent_webrtc_toy.Loop.{Message}
use yuzu_agent_webrtc_toy.Api.{Config, Backend, Request, Response, reply, failure, expiry}

-- `devAuthorized`
unfoldable pub dev_authorized : Config → Request → Bool
dev_authorized cfg req =
    cfg.dev_mode || (not (is_empty cfg.dev_key) && str_eq req.dev_key cfg.dev_key)

-- The tests of the two handlers that mint tokens, and the answer behind them.
mint_known : Config → Request → Response → Option Session → Response
mint_known cfg req answer none = failure 404 (codes "unknown session")
mint_known cfg req answer (some sess) = answer

unfoldable pub mint : Config → Backend → Request → Str → Response → Response
unfolding mint_known
mint cfg b req id answer =
    if not (dev_authorized cfg req)
    then failure 403 (codes "forbidden")
    else if is_empty cfg.token_secret
    then failure 400 (codes "worker token not configured")
    else mint_known cfg req answer (get_session b.store id)

-- `HandleMintWorkerToken` and `HandleMintWSCreds`
unfoldable pub handle_mint_worker_token :
    Crypto → Config → Backend → Request → Str → Time → Response
handle_mint_worker_token c cfg b req id now =
    let exp = expiry now (seconds cfg.token_ttl_secs) in
    let token = generate_worker_token c cfg.token_secret id exp in
    mint cfg b req id (reply 200 ((codes "token", text token) ∷ ((codes "exp_unix", num exp) ∷ [])))

unfoldable pub handle_mint_ws_creds : Crypto → Config → Backend → Request → Str → Time → Response
handle_mint_ws_creds c cfg b req id now =
    let exp = expiry now (seconds cfg.token_ttl_secs) in
    let token = generate_worker_token c cfg.token_secret id exp in
    let ws_url = codes "ws://" ++ (req.host ++ (codes "/ws/worker?session_id=" ++ id)) in
    mint cfg b req id (
      reply 200 (
        (codes "ws_url", text ws_url)
        ∷ ((codes "worker_token", text token) ∷ ((codes "exp_unix", num exp) ∷ []))))

-- `HandleDebugVAD`, with the message for the dispatcher; `ready` says that there is one.
unfoldable pub debug_known : Bool → Str → Str → Time → Option Session → Response × List Message
debug_known ready id typ now none = (failure 404 (codes "unknown session"), [])
debug_known false id typ now (some sess) = (failure 503 (codes "dispatcher not ready"), [])
debug_known true id typ now (some sess) = (
  reply 200 ((codes "ok", bool true) ∷ []),
  record {
    type = typ;
    ts_ms = pos (unix_milli now);
    session_id = id;
    seq = pos 0;
    command_id = [];
    utterance_id = [];
    payload = some ((codes "source", text (codes "debug")) ∷ []);
  }
      ∷ [],
)

unfoldable pub handle_debug_vad :
    Config → Backend → Request → Bool → Str → Str → Time → Response × List Message
unfolding debug_known
handle_debug_vad cfg b req ready id typ now =
    if not (dev_authorized cfg req)
    then (failure 403 (codes "forbidden"), [])
    else debug_known ready id typ now (get_session b.store id)
