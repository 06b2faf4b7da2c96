-- ===== src/Daily.antt =====
-- internal/daily/daily.go: the client of the video service Daily, which creates rooms and tokens. The
-- service is a function of its state and a request; the pause between two attempts changes nothing.
use yuzu_agent_webrtc_toy.Prelude.{
  ℕ, zero, suc, ◌+◌, ◌/◌, Bool, true, false, ◌||◌, [], ◌++◌, Option, none, some, leb, ◌==◌,
  if◌then◌else◌,
}
use yuzu_agent_webrtc_toy.Prelude.Int.{ℤ}
use yuzu_agent_webrtc_toy.Text.{Str, codes, is_empty}
use yuzu_agent_webrtc_toy.Api.{TokenResult, minted, refused, DailyClient}
pub mod Retries
pub mod Rooms

pub record AudioConfig : Type 0 where
  pub enable_music_mode : Bool
  pub audio_bitrate : ℤ
  pub enable_dtx : Bool
  pub enable_prejoin_ui : Bool
  pub enable_network_ui : Bool
  pub enable_noise_cancel_ui : Bool

pub record HttpClient : Type 0 where
  pub api_key : Str
  pub base : Str
  pub audio : AudioConfig

-- `NewClient`
unfoldable pub new_client : Str → AudioConfig → HttpClient
new_client api_key audio = record {
  api_key = api_key;
  base = codes "https://api.daily.co/v1";
  audio = audio;
}

-- The properties of a room.
pub record RoomProperties : Type 0 where
  pub enable_prejoin_ui : Bool
  pub enable_network_ui : Bool
  pub enable_noise_cancellation_ui : Bool

-- The objects that are sent: a room with its name and privacy, with properties or without, and a token
-- with its room, its user and its expiry.
pub data Object : Type 0 where
  room : Str → Str → Option RoomProperties → Object
  meeting_token : Str → Str → ℤ → Object

-- A request with "POST" and the type of JSON; the base is a URL that parses.
pub record Request : Type 0 where
  pub url : Str
  pub authorization : Str
  pub object : Object

-- An error of the call, or a status code with its text and a body.
pub data Result : Type 0 where
  call_fails : Str → Result
  response : ℕ → Str → Str → Result

-- What the decoder makes of the body of a token.
pub data Parsed : Type 0 where
  decode_fails : Str → Parsed
  parsed : Str → Parsed

-- What comes of the loop of `doJSONWithRetry`; `out_of_fuel` is none of its ends.
pub data Fetched : Type 0 where
  fetch_error : Str → Fetched
  fetched : ℕ → Str → Str → Fetched
  out_of_fuel : Fetched

abbrev pub is_success : ℕ → Bool
is_success status = status / 100 == 2

-- `http.StatusTooManyRequests`, or an error of the service.
unfoldable pub is_transient : ℕ → Bool
is_transient status = status == 429 || leb 500 status

module _ {S : Type 0} (serve : S → Request → S × Result) where
  -- A round of the loop, behind the call; `rest` is the loop from the next round on.
  unfoldable pub on_attempt : (S → S × Fetched) → ℕ → S × Result → S × Fetched
  on_attempt rest attempts (s, call_fails err) =
      let later = rest s in if leb 2 attempts then (s, fetch_error err) else later
  on_attempt rest attempts (s, response status status_text body) =
      let later = rest s in
      if is_transient status
      then (if leb 2 attempts then (s, fetched status status_text body) else later)
      else (s, fetched status status_text body)

  -- The loop, on fuel.
  unfoldable pub attempt_loop : ℕ → ℕ → S → Request → S × Fetched
  attempt_loop zero attempts s req = (s, out_of_fuel)
  attempt_loop (suc fuel) attempts s req =
      on_attempt (λ t. attempt_loop fuel (attempts + 1) t req) (attempts + 1) (serve s req)

  -- `doJSONWithRetry`
  unfoldable pub do_json_with_retry : HttpClient → S → Str → Object → S × Fetched
  do_json_with_retry c s url object =
      attempt_loop 2 0 s
        (record { url = url; authorization = codes "Bearer " ++ c.api_key; object = object })

  unfoldable pub room_error : Str → Str → Str
  room_error status_text body = codes "daily CreateRoom: " ++ (status_text ++ (codes ": " ++ body))

  -- The answer to the room without properties, behind the answer `status_text` with `body` to the one
  -- with them.
  unfoldable pub on_second : Str → Str → S × Fetched → S × Option Str
  on_second status_text body (s, fetch_error err) = (s, some err)
  on_second status_text body (s, out_of_fuel) = (s, some [])
  on_second status_text body (s, fetched status2 status_text2 body2) =
      if status2 == 409 || is_success status2 then (s, none) else (
        s,
        some (
            room_error status_text2 body2
            ++ (codes " (retry after " ++ (status_text ++ (codes ": " ++ (body ++ codes ")"))))),
      )

  -- The answer to the room with its properties; `again` sends it without them.
  unfoldable pub on_first : (S → S × Fetched) → S × Fetched → S × Option Str
  on_first again (s, fetch_error err) = (s, some err)
  on_first again (s, out_of_fuel) = (s, some [])
  on_first again (s, fetched status status_text body) =
      if status == 409 || is_success status
      then (s, none)
      else if status == 400
      then on_second status_text body (again s)
      else (s, some (room_error status_text body))

  -- `CreateRoom`
  unfoldable pub create_room : HttpClient → S → Str → Str → S × Option Str
  create_room c s name privacy =
      let properties : RoomProperties = record {
        enable_prejoin_ui = c.audio.enable_prejoin_ui;
        enable_network_ui = c.audio.enable_network_ui;
        enable_noise_cancellation_ui = c.audio.enable_noise_cancel_ui;
      } in
      let url = c.base ++ codes "/rooms" in
      on_first (λ t. do_json_with_retry c t url (room name privacy none))
        (do_json_with_retry c s url (room name privacy (some properties)))

  abbrev or_empty_token : Str → TokenResult
  or_empty_token token =
      if is_empty token
      then refused (codes "daily CreateMeetingToken: empty token")
      else minted token

  abbrev on_parsed : Parsed → TokenResult
  on_parsed (decode_fails err) = refused err
  on_parsed (parsed token) = or_empty_token token

  unfoldable pub on_token : (Str → Parsed) → S × Fetched → S × TokenResult
  on_token decode (s, fetch_error err) = (s, refused err)
  on_token decode (s, out_of_fuel) = (s, refused [])
  on_token decode (s, fetched status status_text body) =
      if is_success status then (s, on_parsed (decode body)) else (
        s,
        refused (codes "daily CreateMeetingToken: " ++ (status_text ++ (codes ": " ++ body))),
      )

  -- `CreateMeetingToken`; the flag `isBot` is not used.
  unfoldable pub create_meeting_token :
      (Str → Parsed) → HttpClient → S → Str → Str → ℤ → S × TokenResult
  create_meeting_token decode c s room_name user_name exp = on_token decode (
      do_json_with_retry c s (c.base ++ codes "/meeting-tokens")
        (meeting_token room_name user_name exp))

  -- The client as the handlers of internal/api see it, in a state of the service; they ask for the token
  -- behind the room of the same name.
  unfoldable pub daily_client : (Str → Parsed) → HttpClient → S → Str → DailyClient
  daily_client decode c s privacy = record {
    create_room = λ name asked. (create_room c s name asked).1;
    create_meeting_token = λ name user exp.
        (create_meeting_token decode c (create_room c s name privacy).0 name user exp).1;
  }
