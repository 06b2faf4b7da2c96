-- ===== src/Api/Sessions.antt =====
-- internal/api/handlers.go: the handlers that create a session, start and end its bot, and list its
-- events.
use yuzu_agent_webrtc_toy.Prelude.{
  ℕ, ◌*◌, Bool, true, false, ◌||◌, [], ◌∷◌, ◌++◌, Option, none, some, if◌then◌else◌,
}
use yuzu_agent_webrtc_toy.Prelude.Int.{pos}
use yuzu_agent_webrtc_toy.Text.{Str, codes, is_empty}
use yuzu_agent_webrtc_toy.Maps.{Map, insert}
use yuzu_agent_webrtc_toy.Clock.{Time, seconds, scale, second}
use yuzu_agent_webrtc_toy.Json.{text, bool}
use yuzu_agent_webrtc_toy.Store.{
  Session, Store, create_session, get_session, list_events, set_bot_running, set_bot_pid,
}
use yuzu_agent_webrtc_toy.Auth.{Crypto, generate_worker_token}
use yuzu_agent_webrtc_toy.Bot.{LocalRunner, is_running, reserve, abandon, started, stop}
use yuzu_agent_webrtc_toy.Api.{
  Config, Backend, TokenResult, minted, refused, DailyClient, Request, Response, reply,
  events_reply, failure, not_found, append, expiry,
}

-- `HandleCreateSession`; `id` is the fresh `uuid`.
unfoldable pub new_session : Config → Str → Str → Time → Session
new_session cfg id token now = record {
  id = id;
  room_name = cfg.room_prefix ++ id;
  room_url = codes "https://" ++ (cfg.daily_domain ++ (codes "/" ++ (cfg.room_prefix ++ id)));
  bot_token = token;
  created_at = now;
  status = codes "created";
  bot_pid = pos 0;
  bot_last_exit_code = pos 0;
  bot_last_exit_at = none;
}

unfoldable pub stored : Backend → Session → Time → Option Store → Backend × Response
stored b sess now none = (b, failure 500 (codes "session already exists"))
stored b sess now (some s) = (
  append (record b { store = s }) sess.id (codes "session_created")
      (some ((codes "room_name", text sess.room_name) ∷ [])) now,
  reply 200 (
      (codes "session_id", text sess.id)
      ∷ ((codes "room_name", text sess.room_name)
          ∷ ((codes "room_url", text sess.room_url)
              ∷ ((codes "bot_token", text sess.bot_token) ∷ [])))),
)

unfoldable pub with_token : Config → Backend → Str → Time → TokenResult → Backend × Response
unfolding new_session stored
with_token cfg b id now (refused err) = (b, failure 502 err)
with_token cfg b id now (minted token) =
    let sess = new_session cfg id token now in stored b sess now (create_session b.store sess)

unfoldable pub with_room :
    Config → DailyClient → Backend → Str → Time → Option Str → Backend × Response
unfolding with_token
with_room cfg daily b id now (some err) = (b, failure 502 err)
with_room cfg daily b id now none = with_token cfg b id now (
    daily.create_meeting_token (cfg.room_prefix ++ id) cfg.bot_name
      (expiry now (scale (60 * second) cfg.bot_token_exp_min)))

unfoldable pub handle_create_session :
    Config → DailyClient → Backend → Str → Time → Backend × Response
unfolding with_room
handle_create_session cfg daily b id now =
    if is_empty cfg.daily_api_key || is_empty cfg.daily_domain
    then (b, failure 400 (codes "missing Daily configuration"))
    else with_room cfg daily b id now (daily.create_room (cfg.room_prefix ++ id) cfg.room_privacy)

-- What came of starting a process: its number, or an error.
pub data Launch : Type 0 where
  launched : ℕ → Launch
  launch_fails : Str → Launch

-- `runner.Start`, with its callback `onStart`.
unfoldable pub launch : Backend → Str → LocalRunner × Option Str → Launch → Backend × Option Str
launch b id (r, some err) outcome = (record b { runner = r }, some err)
launch b id (r, none) (launch_fails err) = (record b { runner = abandon r id }, some err)
launch b id (r, none) (launched pid) =
    (record b { runner = started r id pid; store = set_bot_pid b.store id (pos pid) }, none)

unfoldable pub start_bot : Backend → Str → Launch → Backend × Option Str
unfolding launch
start_bot b id outcome = launch b id (reserve b.runner id) outcome

-- The environment of the bot.
unfoldable pub bot_env : Crypto → Config → Session → Request → Str → Time → Map Str
bot_env c cfg sess req id now =
    let env =
      (codes "DAILY_ROOM_URL", sess.room_url)
      ∷ ((codes "DAILY_TOKEN", sess.bot_token)
          ∷ ((codes "ELEVENLABS_API_KEY", cfg.eleven_api_key)
              ∷ ((codes "ELEVENLABS_VOICE_ID", cfg.eleven_voice_id)
                  ∷ ((codes "ELEVENLABS_CANNED_PHRASE", cfg.canned_phrase)
                      ∷ ((codes "BOT_STAY_CONNECTED_SECONDS", cfg.stay_connected_seconds)
                          ∷ ((codes "ORCH_ADDR", codes "localhost:9090")
                              ∷ ((codes "STT_ENABLED", codes "true")
                                  ∷ ((codes "STT_UDS_PATH", codes "/tmp/stt.sock") ∷ [])))))))) in
    let scheme = if req.tls then codes "wss" else codes "ws" in
    let ws_url = scheme ++ (codes "://" ++ (req.host ++ (codes "/ws/worker?session_id=" ++ id))) in
    let token =
      generate_worker_token c cfg.token_secret id (expiry now (seconds cfg.token_ttl_secs)) in
    if is_empty cfg.token_secret
    then env
    else insert (codes "WORKER_TOKEN") token (insert (codes "WS_URL") ws_url env)

abbrev pub running_reply : Bool → Response
running_reply r = reply 200 ((codes "ok", bool true) ∷ ((codes "running", bool r) ∷ []))

unfoldable pub after_start : Str → Time → Backend × Option Str → Backend × Response
after_start id now (b, some err) = (b, failure 400 err)
after_start id now (b, none) = (
  append (record b { store = set_bot_running b.store id true }) id (codes "bot_started") none now,
  running_reply true,
)

-- `HandleStartSession`; `launch` is what comes of a process with that environment.
unfoldable pub start_known :
    Crypto
    → Config
    → Backend
    → Request
    → Str
    → (Map Str → Launch)
    → Time
    → Option Session
    → Backend × Response
unfolding after_start
start_known c cfg b req id launch now none = (b, not_found)
start_known c cfg b req id launch now (some sess) =
    if is_running b.runner id
    then (
      append b id (codes "bot_start_requested") (some ((codes "noop", bool true) ∷ [])) now,
      running_reply true,
    )
    else after_start id now (
        start_bot (append b id (codes "bot_start_requested") none now) id
          (launch (bot_env c cfg sess req id now)))

unfoldable pub handle_start_session :
    Crypto → Config → Backend → Request → Str → (Map Str → Launch) → Time → Backend × Response
unfolding start_known
handle_start_session c cfg b req id launch now =
    start_known c cfg b req id launch now (get_session b.store id)

-- `HandleEndSession`
unfoldable pub end_known : Backend → Str → Time → Option Session → Backend × Response
end_known b id now none = (b, not_found)
end_known b id now (some sess) =
    let asked = append b id (codes "bot_stop_requested") none now in
    let (r, err) = stop asked.runner id in
    let quiet = record asked { runner = r; store = set_bot_running asked.store id false } in
    if is_running b.runner id
    then (append quiet id (codes "bot_stopped") none now, running_reply false)
    else (
      append b id (codes "bot_stop_requested") (some ((codes "noop", bool true) ∷ [])) now,
      running_reply false,
    )

unfoldable pub handle_end_session : Backend → Str → Time → Backend × Response
unfolding end_known
handle_end_session b id now = end_known b id now (get_session b.store id)

-- `HandleListEvents`
events_known : Backend → Str → Option Session → Response
events_known b id none = not_found
events_known b id (some sess) = events_reply id (list_events b.store id)

unfoldable pub handle_list_events : Backend → Str → Response
unfolding events_known
handle_list_events b id = events_known b id (get_session b.store id)
