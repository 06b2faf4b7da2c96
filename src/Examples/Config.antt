-- ===== src/Examples/Config.antt =====
-- The configuration of internal/config where nothing is set, and the backend with it.
use yuzu_agent_webrtc_toy.Prelude.{◌≡◌, ◌≤◌, refl, true, false, [], ◌++◌, none, some, length}
use yuzu_agent_webrtc_toy.Prelude.Int.{pos}
use yuzu_agent_webrtc_toy.Text.{codes}
use yuzu_agent_webrtc_toy.Maps.{lookup}
use yuzu_agent_webrtc_toy.Store.{list_events}
use yuzu_agent_webrtc_toy.Config.{Config, worker_config}
use yuzu_agent_webrtc_toy.Program.{Program, new_program, creates, connects, step}
use yuzu_agent_webrtc_toy.Program.Sessions.{here, next, reach-IsCapped}
use yuzu_agent_webrtc_toy.Program.Secret.{nothing_without_secret}
use yuzu_agent_webrtc_toy.Examples.Api.{cfg, now}
use yuzu_agent_webrtc_toy.Examples.Auth.{toy, token}
use yuzu_agent_webrtc_toy.Examples.Worker.{server}
use yuzu_agent_webrtc_toy.Examples.Program.{daily, debugged, run}

-- The configuration of a backend that was not configured.
abbrev default_config : Config
default_config = record {
  server = record { port = codes "8080"; log_level = codes "info" };
  daily = record {
    api_key = [];
    domain = [];
    room_prefix = codes "ai-interview-";
    room_privacy = codes "private";
    bot_name = codes "AI Interviewer";
    bot_token_exp_min = pos 720;
    audio = record {
      enable_music_mode = true;
      audio_bitrate = pos 96000;
      enable_dtx = false;
      enable_prejoin_ui = true;
      enable_network_ui = true;
      enable_noise_cancel_ui = true;
    };
  };
  bot = record { worker_cmd = []; stay_connected_seconds = codes "30" };
  eleven = record {
    api_key = [];
    voice_id = [];
    canned_phrase = codes "Hi, I'm your AI interviewer. Can you hear me clearly?";
  };
  worker = record {
    token_secret = [];
    token_ttl_secs = pos 1800;
    token_skew_secs = pos 60;
    local_stop_enabled = true;
  };
  tts_timeout_seconds = pos 60;
  dev = record { mode = false; key = [] };
}

reach-IsCapped_example : length (list_events debugged.ws.store (codes "s1")) ≤ 200
reach-IsCapped_example =
    reach-IsCapped toy cfg server.cfg (pos 60) (codes "python bot.py") debugged (codes "s1") run

-- The backend of that configuration, with a session, and a worker that asks for a connection.
abbrev open_start : Program
open_start = new_program cfg (worker_config default_config) (pos 60) []

abbrev with_session : Program
with_session = (step toy open_start (creates daily (codes "s1")) now).0

nothing_without_secret_example :
    (lookup (codes "s1") with_session.ws.conns ≡ none)
    × ((step toy with_session (connects (codes "s1") (codes "Bearer " ++ token) (some 1)) now).1
        ≡ [])
unfolding worker_config
nothing_without_secret_example =
    nothing_without_secret toy cfg (worker_config default_config) (pos 60) [] with_session
      (connects (codes "s1") (codes "Bearer " ++ token) (some 1)) now (codes "s1") refl
      (next here (creates daily (codes "s1")) now tt)
