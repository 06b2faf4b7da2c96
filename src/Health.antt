-- ===== src/Health.antt =====
-- internal/health/health.go: the checks of the services behind the backend, and the report of them. The
-- answers of the services and the measured latencies are arguments.
use yuzu_agent_webrtc_toy.Prelude.{
  ℕ, ◌+◌, ◌/◌, Bool, true, false, not, ◌&&◌, ◌||◌, List, [], ◌∷◌, ◌++◌, Option, none, some, take,
  ◌==◌, if◌then◌else◌,
}
use yuzu_agent_webrtc_toy.Prelude.Int.{ℤ}
use yuzu_agent_webrtc_toy.Text.{Str, codes, is_empty, decimal}
use yuzu_agent_webrtc_toy.Maps.{Map, insert}
use yuzu_agent_webrtc_toy.Clock.{Time, milliseconds}
use yuzu_agent_webrtc_toy.Json.{Value, text, bool, num}
use yuzu_agent_webrtc_toy.Auth.{format_int}
use yuzu_agent_webrtc_toy.Api.{Config}
pub mod Reports

-- `CheckResult`; the latency is a `time.Duration`, in nanoseconds.
pub record CheckResult : Type 0 where
  pub name : Str
  pub ok : Bool
  pub latency : ℤ
  pub error : Str

-- `HealthStatus`
pub record HealthStatus : Type 0 where
  pub ok : Bool
  pub checks : List CheckResult
  pub checked_at : Time

-- A request of a check: its method, its URL, its headers, and its body.
pub record Request : Type 0 where
  pub method : Str
  pub url : Str
  pub headers : Map Str
  pub body : Str

-- What comes of it: an error of building or of sending the request, or a status with a body.
pub data Answer : Type 0 where
  build_fails call_fails : Str → Answer
  response : ℕ → Str → Answer

-- The result of a check that fails, with an error, and of one that does not.
abbrev pub failed : Str → ℤ → Str → CheckResult
failed name latency error = record { name = name; ok = false; latency = latency; error = error }

abbrev pub passed : Str → ℤ → CheckResult
passed name latency = record { name = name; ok = true; latency = latency; error = [] }

unfoldable pub unexpected_status : ℕ → Str → Str
unexpected_status status body =
    codes "unexpected status " ++ (decimal status ++ (codes ": " ++ take 256 body))

unfoldable pub on_daily : ℤ → Answer → CheckResult
on_daily latency (build_fails err) =
    failed (codes "daily") latency (codes "request build failed: " ++ err)
on_daily latency (call_fails err) = failed (codes "daily") latency (codes "request failed: " ++ err)
on_daily latency (response status body) =
    if status == 401
    then failed (codes "daily") latency (codes "invalid API key (401)")
    else if not (status == 200)
    then failed (codes "daily") latency (unexpected_status status body)
    else passed (codes "daily") latency

-- The services: an answer to a request, and the time that it takes.
abbrev pub Services : Type 0
Services = Request → Answer × ℤ

unfoldable pub daily_request : Config → Request
daily_request cfg = record {
  method = codes "GET";
  url = codes "https://api.daily.co/v1/rooms?limit=1";
  headers = (codes "Authorization", codes "Bearer " ++ cfg.daily_api_key) ∷ [];
  body = [];
}

-- `checkDaily`; `early` is the time that a check without a request takes.
unfoldable pub check_daily : Config → Services → ℤ → CheckResult
check_daily cfg services early =
    let (answer, latency) = services (daily_request cfg) in
    if is_empty cfg.daily_api_key
    then failed (codes "daily") early (codes "DAILY_API_KEY not set")
    else on_daily latency answer

-- A voice that is not known, where `quote` is "%q" of `fmt`.
abbrev pub voice_not_found : (Str → Str) → Config → Str
voice_not_found quote cfg = codes "voice ID " ++ (quote cfg.eleven_voice_id ++ codes " not found")

unfoldable pub on_eleven_labs : (Str → Str) → Config → ℤ → Answer → CheckResult
on_eleven_labs quote cfg latency (build_fails err) =
    failed (codes "elevenlabs") latency (codes "request build failed: " ++ err)
on_eleven_labs quote cfg latency (call_fails err) =
    failed (codes "elevenlabs") latency (codes "request failed: " ++ err)
on_eleven_labs quote cfg latency (response status body) =
    if status == 401
    then failed (codes "elevenlabs") latency (codes "invalid API key (401): " ++ take 256 body)
    else if status == 404
    then failed (codes "elevenlabs") latency (voice_not_found quote cfg)
    else if not (status == 200)
    then failed (codes "elevenlabs") latency (unexpected_status status body)
    else passed (codes "elevenlabs") latency

unfoldable pub eleven_labs_request : Config → Request
eleven_labs_request cfg = record {
  method = codes "POST";
  url =
      codes "https://api.elevenlabs.io/v1/text-to-speech/"
      ++ (cfg.eleven_voice_id ++ codes "/stream");
  headers =
      (codes "xi-api-key", cfg.eleven_api_key)
      ∷ ((codes "Content-Type", codes "application/json") ∷ []);
  body = codes "{\"text\":\".\"}";
}

-- `checkElevenLabs`
unfoldable pub check_eleven_labs : (Str → Str) → Config → Services → ℤ → CheckResult
check_eleven_labs quote cfg services early =
    let (answer, latency) = services (eleven_labs_request cfg) in
    if is_empty cfg.eleven_api_key
    then failed (codes "elevenlabs") early (codes "ELEVENLABS_API_KEY not set")
    else if is_empty cfg.eleven_voice_id
    then failed (codes "elevenlabs") early (codes "ELEVENLABS_VOICE_ID not set")
    else on_eleven_labs quote cfg latency answer

-- `CheckVoiceID`
unfoldable pub on_voice : (Str → Str) → Config → ℤ → Answer → CheckResult
on_voice quote cfg latency (build_fails err) =
    failed (codes "elevenlabs_voice") latency (codes "request build failed: " ++ err)
on_voice quote cfg latency (call_fails err) =
    failed (codes "elevenlabs_voice") latency (codes "request failed: " ++ err)
on_voice quote cfg latency (response status body) =
    if status == 404
    then failed (codes "elevenlabs_voice") latency (voice_not_found quote cfg)
    else if not (status == 200)
    then failed (codes "elevenlabs_voice") latency (unexpected_status status body)
    else passed (codes "elevenlabs_voice") latency

unfoldable pub voice_request : Config → Request
voice_request cfg = record {
  method = codes "GET";
  url = codes "https://api.elevenlabs.io/v1/voices/" ++ cfg.eleven_voice_id;
  headers = (codes "xi-api-key", cfg.eleven_api_key) ∷ [];
  body = [];
}

unfoldable pub check_voice_id : (Str → Str) → Config → Services → ℤ → CheckResult
check_voice_id quote cfg services early =
    let (answer, latency) = services (voice_request cfg) in
    if is_empty cfg.eleven_api_key || is_empty cfg.eleven_voice_id
    then failed (codes "elevenlabs_voice") early
        (codes "ELEVENLABS_API_KEY or ELEVENLABS_VOICE_ID not set")
    else on_voice quote cfg latency answer

-- `CheckAll`
unfoldable pub all_ok : Bool → List CheckResult → Bool
all_ok ok [] = ok
all_ok ok (c ∷ checks) = all_ok (if not c.ok then false else ok) checks

unfoldable pub check_all : (Str → Str) → Config → Services → ℤ → Time → HealthStatus
check_all quote cfg services early now =
    let checks =
      check_daily cfg services early ∷ (check_eleven_labs quote cfg services early ∷ []) in
    record { ok = all_ok true checks; checks = checks; checked_at = now }

-- `HealthStatus.String`, with the bytes of the two marks.
unfoldable pub line_of : CheckResult → Str
line_of c =
    let mark = if not c.ok then 0xE2 ∷ (0x9C ∷ (0x97 ∷ [])) else 0xE2 ∷ (0x9C ∷ (0x93 ∷ [])) in
    let error = if not (is_empty c.error) then codes " - " ++ c.error else [] in
    codes "  "
    ++ (mark
        ++ (codes " "
            ++ (c.name
                ++ (codes " ("
                    ++ (format_int (milliseconds c.latency)
                        ++ (codes "ms)" ++ (error ++ 10 ∷ [])))))))

unfoldable pub lines_of : List CheckResult → Str
lines_of [] = []
lines_of (c ∷ checks) = line_of c ++ lines_of checks

unfoldable pub to_string : HealthStatus → Str
to_string h =
    codes "Health: " ++ ((if not h.ok then codes "FAIL" else codes "OK") ++ 10 ∷ lines_of h.checks)

-- The JSON of a check by the tags of its fields; an empty error is left out.
unfoldable pub encode_check : CheckResult → Map Value
encode_check c =
    (codes "name", text c.name)
    ∷ ((codes "ok", bool c.ok)
        ∷ ((codes "latency_ms", num c.latency)
            ∷ (if is_empty c.error then [] else (codes "error", text c.error) ∷ [])))

unfoldable pub encode_checks : List CheckResult → List (Map Value)
encode_checks [] = []
encode_checks (c ∷ checks) = encode_check c ∷ encode_checks checks

-- The handler of "/health" in cmd/server/main.go: its status, and the fields of its JSON.
pub record Body : Type 0 where
  pub ok : Bool
  pub checks : List (Map Value)
  pub checked_at : Time

unfoldable pub handle_health : HealthStatus → ℕ × Body
handle_health h = (
  if not h.ok then 503 else 200,
  record { ok = h.ok; checks = encode_checks h.checks; checked_at = h.checked_at },
)
