-- ===== src/Examples/Daily.antt =====
-- The client of internal/daily on a service that fails at first and refuses the properties of a room.
use yuzu_agent_webrtc_toy.Prelude.{
  ℕ, zero, suc, ◌*◌, ◌≡◌, refl, Bool, true, false, ◌||◌, List, [], ◌∷◌, ◌++◌, Option, none, some,
  arith,
}
use yuzu_agent_webrtc_toy.Prelude.Int.{pos}
use yuzu_agent_webrtc_toy.Text.{Str, codes, str_eq, str_eq_refl, is_empty}
use yuzu_agent_webrtc_toy.Maps.{lookup}
use yuzu_agent_webrtc_toy.Clock.{scale, second}
use yuzu_agent_webrtc_toy.Json.{text}
use yuzu_agent_webrtc_toy.Store.{Session, create_session, get_session}
use yuzu_agent_webrtc_toy.Api.{minted, reply, expiry}
use yuzu_agent_webrtc_toy.Api.Sessions.{handle_create_session}
use yuzu_agent_webrtc_toy.Daily.{
  HttpClient, Object, room, meeting_token, Request, Result, response, parsed, RoomProperties,
  fetched, create_room, create_meeting_token, daily_client, attempt_loop, is_transient, on_first,
  on_second, on_attempt, on_token, do_json_with_retry,
}
use yuzu_agent_webrtc_toy.Daily.Retries.{attempt_loop_lem}
use yuzu_agent_webrtc_toy.Daily.Rooms.{IsLawful, SaysRoom, session_has_room}
use yuzu_agent_webrtc_toy.Examples.Api.{cfg, backend, now}

abbrev has_room : List Str → Str → Bool
has_room [] name = false
has_room (r ∷ rooms) name = str_eq r name || has_room rooms name

-- The number of requests so far, and the rooms.
abbrev Daily : Type 0
Daily = ℕ × List Str

abbrev answer : ℕ → List Str → Object → Daily × Result
answer zero rooms object = ((1, rooms), response 503 (codes "503") [])
answer (suc n) rooms (room name privacy none) =
    ((suc (suc n), name ∷ rooms), response 200 (codes "200") [])
answer (suc n) rooms (room name privacy (some properties)) =
    ((suc (suc n), rooms), response 400 (codes "400") [])
answer (suc n) rooms (meeting_token name user exp) =
    ((suc (suc n), rooms), response 200 (codes "200") (codes "token"))

abbrev serve : Daily → Request → Daily × Result
serve (n, rooms) req = answer n rooms req.object

abbrev HasRoom : Daily → Str → Type 0
HasRoom (n, rooms) name = has_room rooms name ≡ true

kept :
    (n : ℕ) (rooms : List Str) (object : Object) (name : Str)
    → has_room rooms name ≡ true
    → has_room (answer n rooms object).0.1 name ≡ true
kept zero rooms object name h = h
kept (suc n) rooms (room x privacy none) name h = ground (arith, h)
kept (suc n) rooms (room x privacy (some properties)) name h = h
kept (suc n) rooms (meeting_token x user exp) name h = h

opened :
    (n : ℕ) (rooms : List Str) (name privacy : Str) (properties : Option RoomProperties)
    → SaysRoom (answer n rooms (room name privacy properties)).1
    → has_room (answer n rooms (room name privacy properties)).0.1 name ≡ true
opened zero rooms name privacy properties said = ground (arith, said)
opened (suc n) rooms name privacy none said = rw (str_eq_refl name)
opened (suc n) rooms name privacy (some properties) said = ground (arith, said)

serve-IsLawful : IsLawful serve HasRoom
serve-IsLawful = record {
  opened = λ s req name privacy properties e. rw e (opened s.0 s.1 name privacy properties);
  kept = λ s req name h. kept s.0 s.1 req.object name h;
}

abbrev client : HttpClient
client = record {
  api_key = codes "k";
  base = codes "https://api.daily.co/v1";
  audio = record {
    enable_music_mode = true;
    audio_bitrate = pos 96000;
    enable_dtx = false;
    enable_prejoin_ui = true;
    enable_network_ui = true;
    enable_noise_cancel_ui = true;
  };
}

retried_once :
    attempt_loop serve 2 0
      (0, [])
      (record { url = []; authorization = []; object = room (codes "r") [] none })
    ≡ ((2, codes "r" ∷ []), fetched 200 (codes "200") [])
unfolding is_transient
retried_once =
    attempt_loop_lem serve 0 (0, [])
      (record { url = []; authorization = []; object = room (codes "r") [] none })

-- The room is asked for three times.
created :
    (handle_create_session cfg
      (daily_client serve parsed client (0, []) cfg.room_privacy)
      backend
      (codes "s2")
      now).1
    ≡ reply 200 (
        (codes "session_id", text (codes "s2"))
        ∷ ((codes "room_name", text (codes "room-s2"))
            ∷ ((codes "room_url", text (codes "https://example.org/room-s2"))
                ∷ ((codes "bot_token", text (codes "token")) ∷ []))))
unfolding handle_create_session daily_client create_room on_first do_json_with_retry attempt_loop
    on_attempt is_transient on_second create_meeting_token on_token create_session lookup str_eq
created = refl

session_has_room_example :
    let daily = daily_client serve parsed client (0, []) cfg.room_privacy in
    let name = cfg.room_prefix ++ codes "s2" in
    let t = (create_room serve client (0, []) name cfg.room_privacy).0 in
    let exp = expiry now (scale (60 * second) cfg.bot_token_exp_min) in
    let (t', given) = create_meeting_token serve parsed client t name cfg.bot_name exp in
    HasRoom t' name
    × (sess : Session) × (get_session
          (handle_create_session cfg daily backend (codes "s2") now).0.store
          (codes "s2")
        ≡ some sess)
    × (sess.room_name ≡ name)
    × (given ≡ minted sess.bot_token)
    × (is_empty sess.bot_token ≡ false)
session_has_room_example =
    session_has_room serve HasRoom parsed client (0, []) cfg backend (codes "s2") now 200 _
      serve-IsLawful created
