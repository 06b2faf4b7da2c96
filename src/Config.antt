-- ===== src/Config.antt =====
-- internal/config/config.go: the settings of the backend, with their defaults and the variables of the
-- environment that they are bound to. The package viper, which reads them, is an argument.
use yuzu_agent_webrtc_toy.Prelude.{Bool, true, false, List, [], ◌∷◌, ◌++◌}
use yuzu_agent_webrtc_toy.Prelude.Int.{ℤ, pos}
use yuzu_agent_webrtc_toy.Text.{Str, codes}
use yuzu_agent_webrtc_toy.Program.{Program, new_program}
use yuzu_agent_webrtc_toy.WorkerWs.{WorkerConfig}
use yuzu_agent_webrtc_toy.Daily.{AudioConfig}
use yuzu_agent_webrtc_toy.Api

-- The parts of `Config`.
pub record ServerPart : Type 0 where
  pub port : Str
  pub log_level : Str

pub record DailyPart : Type 0 where
  pub api_key : Str
  pub domain : Str
  pub room_prefix : Str
  pub room_privacy : Str
  pub bot_name : Str
  pub bot_token_exp_min : ℤ
  pub audio : AudioConfig

pub record BotPart : Type 0 where
  pub worker_cmd : Str
  pub stay_connected_seconds : Str

pub record ElevenPart : Type 0 where
  pub api_key : Str
  pub voice_id : Str
  pub canned_phrase : Str

pub record WorkerPart : Type 0 where
  pub token_secret : Str
  pub token_ttl_secs : ℤ
  pub token_skew_secs : ℤ
  pub local_stop_enabled : Bool

pub record DevPart : Type 0 where
  pub mode : Bool
  pub key : Str

-- `Config`
pub record Config : Type 0 where
  pub server : ServerPart
  pub daily : DailyPart
  pub bot : BotPart
  pub eleven : ElevenPart
  pub worker : WorkerPart
  pub tts_timeout_seconds : ℤ
  pub dev : DevPart

-- A default, and a call of `SetEnvKeyReplacer` with what is replaced and by what, of `AutomaticEnv`, of
-- `SetDefault` with a key, or of `BindEnv` with a key and a variable.
pub data Default : Type 0 where
  a_text : Str → Default
  a_number : ℤ → Default
  a_flag : Bool → Default

pub data Call : Type 0 where
  set_env_key_replacer : Str → Str → Call
  automatic_env : Call
  set_default : Str → Default → Call
  bind_env : Str → Str → Call

-- What the package reads for a key behind such calls, as a text, a number or a flag, and as "%v".
pub record Viper : Type 0 where
  pub get_string : List Call → Str → Str
  pub get_int : List Call → Str → ℤ
  pub get_bool : List Call → Str → Bool
  pub sprint_get : List Call → Str → Str

-- The calls of `Load`, in order.
unfoldable pub defaults : List Call
defaults =
    set_default (codes "server.port") (a_number (pos 8080))
    ∷ set_default (codes "server.log_level") (a_text (codes "info"))
    ∷ set_default (codes "daily.room_prefix") (a_text (codes "ai-interview-"))
    ∷ set_default (codes "daily.room_privacy") (a_text (codes "private"))
    ∷ set_default (codes "daily.bot_name") (a_text (codes "AI Interviewer"))
    ∷ set_default (codes "daily.bot_token_exp_min") (a_number (pos 720))
    ∷ set_default (codes "daily.enable_music_mode") (a_flag true)
    ∷ set_default (codes "daily.audio_bitrate") (a_number (pos 96000))
    ∷ set_default (codes "daily.enable_dtx") (a_flag false)
    ∷ set_default (codes "daily.enable_prejoin_ui") (a_flag true)
    ∷ set_default (codes "daily.enable_network_ui") (a_flag true)
    ∷ set_default (codes "daily.enable_noise_cancel_ui") (a_flag true)
    ∷ set_default (codes "bot.stay_connected_seconds") (a_number (pos 30))
    ∷ set_default (codes "elevenlabs.canned_phrase")
        (a_text (codes "Hi, I'm your AI interviewer. Can you hear me clearly?"))
    ∷ set_default (codes "worker.token_ttl_seconds") (a_number (pos 1800))
    ∷ set_default (codes "worker.token_skew_seconds") (a_number (pos 60))
    ∷ set_default (codes "worker.local_stop_enabled") (a_flag true)
    ∷ set_default (codes "floor.tts_timeout_seconds") (a_number (pos 60))
    ∷ set_default (codes "dev.mode") (a_flag false)
    ∷ []

unfoldable pub bindings : List Call
bindings =
    bind_env (codes "server.port") (codes "PORT")
    ∷ bind_env (codes "server.log_level") (codes "LOG_LEVEL")
    ∷ bind_env (codes "daily.api_key") (codes "DAILY_API_KEY")
    ∷ bind_env (codes "daily.domain") (codes "DAILY_DOMAIN")
    ∷ bind_env (codes "daily.room_prefix") (codes "DAILY_ROOM_PREFIX")
    ∷ bind_env (codes "daily.room_privacy") (codes "DAILY_ROOM_PRIVACY")
    ∷ bind_env (codes "daily.bot_name") (codes "DAILY_BOT_NAME")
    ∷ bind_env (codes "daily.bot_token_exp_min") (codes "DAILY_BOT_TOKEN_EXP_MIN")
    ∷ bind_env (codes "daily.enable_music_mode") (codes "DAILY_ENABLE_MUSIC_MODE")
    ∷ bind_env (codes "daily.audio_bitrate") (codes "DAILY_AUDIO_BITRATE")
    ∷ bind_env (codes "daily.enable_dtx") (codes "DAILY_ENABLE_DTX")
    ∷ bind_env (codes "daily.enable_prejoin_ui") (codes "DAILY_ENABLE_PREJOIN_UI")
    ∷ bind_env (codes "daily.enable_network_ui") (codes "DAILY_ENABLE_NETWORK_UI")
    ∷ bind_env (codes "daily.enable_noise_cancel_ui") (codes "DAILY_ENABLE_NOISE_CANCEL_UI")
    ∷ bind_env (codes "bot.worker_cmd") (codes "BOT_WORKER_CMD")
    ∷ bind_env (codes "bot.stay_connected_seconds") (codes "BOT_STAY_CONNECTED_SECONDS")
    ∷ bind_env (codes "elevenlabs.api_key") (codes "ELEVENLABS_API_KEY")
    ∷ bind_env (codes "elevenlabs.voice_id") (codes "ELEVENLABS_VOICE_ID")
    ∷ bind_env (codes "elevenlabs.canned_phrase") (codes "ELEVENLABS_CANNED_PHRASE")
    ∷ bind_env (codes "worker.token_secret") (codes "WORKER_TOKEN_SECRET")
    ∷ bind_env (codes "worker.token_ttl_seconds") (codes "WORKER_TOKEN_TTL_SECONDS")
    ∷ bind_env (codes "worker.token_skew_seconds") (codes "WORKER_TOKEN_SKEW_SECONDS")
    ∷ bind_env (codes "worker.local_stop_enabled") (codes "WORKER_LOCAL_STOP_ENABLED")
    ∷ bind_env (codes "floor.tts_timeout_seconds") (codes "FLOOR_TTS_TIMEOUT_SECONDS")
    ∷ bind_env (codes "dev.mode") (codes "DEV_MODE")
    ∷ bind_env (codes "dev.key") (codes "DEV_KEY")
    ∷ []

-- `Load`
unfoldable pub load : Viper → Config
load v =
    let calls =
      set_env_key_replacer (codes ".") (codes "_") ∷ (automatic_env ∷ (defaults ++ bindings)) in
    record {
      server = record {
        port = v.sprint_get calls (codes "server.port");
        log_level = v.get_string calls (codes "server.log_level");
      };
      daily = record {
        api_key = v.get_string calls (codes "daily.api_key");
        domain = v.get_string calls (codes "daily.domain");
        room_prefix = v.get_string calls (codes "daily.room_prefix");
        room_privacy = v.get_string calls (codes "daily.room_privacy");
        bot_name = v.get_string calls (codes "daily.bot_name");
        bot_token_exp_min = v.get_int calls (codes "daily.bot_token_exp_min");
        audio = record {
          enable_music_mode = v.get_bool calls (codes "daily.enable_music_mode");
          audio_bitrate = v.get_int calls (codes "daily.audio_bitrate");
          enable_dtx = v.get_bool calls (codes "daily.enable_dtx");
          enable_prejoin_ui = v.get_bool calls (codes "daily.enable_prejoin_ui");
          enable_network_ui = v.get_bool calls (codes "daily.enable_network_ui");
          enable_noise_cancel_ui = v.get_bool calls (codes "daily.enable_noise_cancel_ui");
        };
      };
      bot = record {
        worker_cmd = v.get_string calls (codes "bot.worker_cmd");
        stay_connected_seconds = v.sprint_get calls (codes "bot.stay_connected_seconds");
      };
      eleven = record {
        api_key = v.get_string calls (codes "elevenlabs.api_key");
        voice_id = v.get_string calls (codes "elevenlabs.voice_id");
        canned_phrase = v.get_string calls (codes "elevenlabs.canned_phrase");
      };
      worker = record {
        token_secret = v.get_string calls (codes "worker.token_secret");
        token_ttl_secs = v.get_int calls (codes "worker.token_ttl_seconds");
        token_skew_secs = v.get_int calls (codes "worker.token_skew_seconds");
        local_stop_enabled = v.get_bool calls (codes "worker.local_stop_enabled");
      };
      tts_timeout_seconds = v.get_int calls (codes "floor.tts_timeout_seconds");
      dev = record {
        mode = v.get_bool calls (codes "dev.mode");
        key = v.get_string calls (codes "dev.key");
      };
    }

-- The parts that the handlers of the API and of the workers read, and the program that `main` makes.
unfoldable pub api_config : Config → Api.Config
api_config c = record {
  daily_api_key = c.daily.api_key;
  daily_domain = c.daily.domain;
  room_prefix = c.daily.room_prefix;
  room_privacy = c.daily.room_privacy;
  bot_name = c.daily.bot_name;
  bot_token_exp_min = c.daily.bot_token_exp_min;
  eleven_api_key = c.eleven.api_key;
  eleven_voice_id = c.eleven.voice_id;
  canned_phrase = c.eleven.canned_phrase;
  stay_connected_seconds = c.bot.stay_connected_seconds;
  token_secret = c.worker.token_secret;
  token_ttl_secs = c.worker.token_ttl_secs;
  dev_mode = c.dev.mode;
  dev_key = c.dev.key;
}

unfoldable pub worker_config : Config → WorkerConfig
worker_config c = record {
  token_secret = c.worker.token_secret;
  token_skew_secs = c.worker.token_skew_secs;
  local_stop_enabled = c.worker.local_stop_enabled;
}

unfoldable pub main_program : Config → Program
main_program c = new_program (api_config c) (worker_config c) c.tts_timeout_seconds c.bot.worker_cmd
