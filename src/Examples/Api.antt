-- ===== src/Examples/Api.antt =====
-- Requests to internal/api on concrete inputs.
use yuzu_agent_webrtc_toy.Prelude.{◌+◌, ◌*◌, ◌≡◌, ◌≢◌, refl, true, false, [], ◌∷◌, some, arith}
use yuzu_agent_webrtc_toy.Prelude.Int.{pos, ◌+ℤ◌, ◌-ℤ◌}
use yuzu_agent_webrtc_toy.Text.{Str, codes, str_eq, trim_space}
use yuzu_agent_webrtc_toy.Maps.{lookup}
use yuzu_agent_webrtc_toy.Clock.{Time, second, unix_epoch}
use yuzu_agent_webrtc_toy.Json.{num, text, bool}
use yuzu_agent_webrtc_toy.Store.{get_session}
use yuzu_agent_webrtc_toy.Auth.{generate_worker_token, is_late, skew_of}
use yuzu_agent_webrtc_toy.Bot.{reserve, reserved, new_local_runner, is_running, merged}
use yuzu_agent_webrtc_toy.WorkerWs.{admit, admitted}
use yuzu_agent_webrtc_toy.Api.{Config, Backend, Request, reply, expiry}
use yuzu_agent_webrtc_toy.Api.Router.{route, method_not_allowed_route}
use yuzu_agent_webrtc_toy.Api.Sessions.{
  launched, launch_fails, handle_start_session, handle_end_session, running_reply, bot_env,
  start_bot,
}
use yuzu_agent_webrtc_toy.Api.Dev.{dev_authorized, mint, handle_mint_ws_creds}
use yuzu_agent_webrtc_toy.Api.Paths.{vad_start, path_of, route-path_of}
use yuzu_agent_webrtc_toy.Api.Tokens.{bearer, bot_env-admitted}
use yuzu_agent_webrtc_toy.Api.Access.{Permitted, answer_of, ws_creds, answer_of-Permitted}
use yuzu_agent_webrtc_toy.Api.Bots.{HasProcess, start_once}
use yuzu_agent_webrtc_toy.Examples.Auth.{toy, toy-IsLawful}
use yuzu_agent_webrtc_toy.Examples.Worker.{room, server}

abbrev pub cfg : Config
cfg = record {
  daily_api_key = codes "k";
  daily_domain = codes "example.org";
  room_prefix = codes "room-";
  room_privacy = codes "private";
  bot_name = codes "bot";
  bot_token_exp_min = pos 60;
  eleven_api_key = [];
  eleven_voice_id = [];
  canned_phrase = [];
  stay_connected_seconds = codes "10";
  token_secret = codes "key";
  token_ttl_secs = pos 300;
  dev_mode = false;
  dev_key = codes "open";
}

abbrev pub backend : Backend
backend = record { store = server.store; runner = new_local_runner (codes "python bot.py") }

abbrev pub request : Request
request = record { host = codes "localhost"; tls = false; dev_key = codes "open" }

abbrev pub now : Time
now = unix_epoch + 1000 * second

route-path_of_example :
    route (codes "GET") (path_of vad_start (codes "s1") true) ≡ method_not_allowed_route
unfolding str_eq
route-path_of_example =
    route-path_of vad_start (codes "GET") (codes "s1") true refl (refl, (refl, tt))

bot_env-admitted_example :
    (token : Str) × (lookup
        (codes "WORKER_TOKEN")
        (merged (codes "WORKER_TOKEN=old" ∷ []) (bot_env toy cfg room request (codes "s1") now))
      ≡ some token)
    × (admit toy server (codes "s1") (bearer token) (now + 60 * second) ≡ admitted (codes "s1"))
unfolding get_session lookup str_eq is_late skew_of expiry ◌+ℤ◌ ◌-ℤ◌
bot_env-admitted_example =
    bot_env-admitted toy cfg room request server (codes "WORKER_TOKEN=old" ∷ []) (codes "s1") now
      (now + 60 * second) toy-IsLawful
      (record { session = room; known = refl; secret = refl; has_secret = refl }) refl
      (refl, (refl, tt)) (omega arith) refl

minted :
    answer_of ws_creds toy cfg backend request (codes "s1") now
    ≡ reply 200 (
        (codes "ws_url", text (codes "ws://localhost/ws/worker?session_id=s1"))
        ∷ ((
          codes "worker_token",
          text (generate_worker_token toy (codes "key") (codes "s1") (pos 1300)),
        )
            ∷ ((codes "exp_unix", num (pos 1300)) ∷ [])))
unfolding handle_mint_ws_creds mint dev_authorized get_session lookup str_eq expiry ◌+ℤ◌ ◌-ℤ◌
minted = refl

answer_of-Permitted_example : Permitted cfg backend request (codes "s1")
answer_of-Permitted_example =
    answer_of-Permitted ws_creds toy cfg backend request (codes "s1") now 200 _ minted

first-reply :
    (handle_start_session toy cfg backend request (codes "s1") (λ env. launched 42) now).1
    ≡ running_reply true
unfolding handle_start_session get_session lookup str_eq is_running new_local_runner start_bot
    reserve trim_space
first-reply = refl

no_reservation : lookup (codes "s1") backend.runner.procs ≢ some reserved
unfolding new_local_runner lookup
no_reservation e = ground (arith, e)

start_once_example :
    let b' =
      (handle_start_session toy cfg backend request (codes "s1") (λ env. launched 42) now).0 in
    let again =
      handle_start_session toy cfg b' request
        (codes "s1")
        (λ env. launch_fails [])
        (now + second) in
    HasProcess b'.runner (codes "s1")
    × (again.0.runner ≡ b'.runner)
    × (again.1 ≡ running_reply true)
    × ((handle_end_session b' (codes "s1") (now + second)).1 ≡ running_reply false)
start_once_example =
    start_once toy cfg backend request request (codes "s1") (λ env. launched 42)
      (λ env. launch_fails []) now (now + second) 200
      ((codes "ok", bool true) ∷ ((codes "running", bool true) ∷ [])) no_reservation first-reply
