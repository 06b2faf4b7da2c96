-- ===== src/Tts.antt =====
-- internal/tts/server.go: the speech synthesis service, a session that asks ElevenLabs for the audio of
-- a text and sends it in frames of 20 milliseconds. The measured times of the metrics are left out.
use yuzu_agent_webrtc_toy.Prelude.{
  ℕ, zero, suc, ◌+◌, ◌-◌, ◌*◌, ◌/◌, Bool, true, false, not, List, [], ◌∷◌, ◌++◌, Option, none, some,
  length, take, drop, ltb, ◌==◌, if◌then◌else◌,
}
use yuzu_agent_webrtc_toy.Text.{Str, codes, is_empty, decimal}
use yuzu_agent_webrtc_toy.Maps.{Map}
use yuzu_agent_webrtc_toy.Json.{Value, text}
pub mod Frames
pub mod Wav
pub mod WavFiles
pub mod Outcomes

-- `StartRequest`
pub record StartRequest : Type 0 where
  pub session_id : Str
  pub voice_id : Str
  pub text : Str

pub data ServerMessage : Type 0 where
  connected : Str → ServerMessage
  error_message : Str → Str → ServerMessage
  audio : Str → ServerMessage

-- The labels of `ttsSynthesisTotal`, and the histograms.
pub data Synthesis : Type 0 where
  config_error request_error http_error api_error decode_error : Synthesis
  empty_response stream_error success : Synthesis

pub data Histogram : Type 0 where
  eleven_labs_latency_ms first_frame_ms total_duration_ms : Histogram

-- What a session does, in order. An audio frame whose send fails is a `send_failed`; the errors of the
-- other sends are ignored.
pub data Effect : Type 0 where
  send send_failed : ServerMessage → Effect
  synthesis : Synthesis → Effect
  observe : Histogram → Effect

-- The request to ElevenLabs: its URL, its headers, and the members of its JSON body.
pub record SpeechRequest : Type 0 where
  pub url : Str
  pub headers : Map Str
  pub body : Map Value

-- The call of ElevenLabs: an error before it or of it, or a status, a body and an error of reading it.
pub data HttpResult : Type 0 where
  request_fails call_fails : Str → HttpResult
  response : ℕ → Str → Option Str → HttpResult

-- `48000/50*2`
abbrev pub frame_bytes : ℕ
frame_bytes = 48000 / 50 * 2

-- `end := pos + frameBytes; if end > len(pcm) { end = len(pcm) }`
unfoldable pub frame_end : Str → ℕ → ℕ
frame_end pcm pos = if ltb (length pcm) (pos + frame_bytes) then length pcm else pos + frame_bytes

-- `pcm[pos:end]`
abbrev pub slice : Str → ℕ → ℕ → Str
slice b from to = take (to - from) (drop from b)

abbrev pub first_observed : Bool → List Effect
first_observed first = if first then observe first_frame_ms ∷ [] else []

-- A frame before the rest of the loop.
abbrev and_then : List Effect → Option (List Effect × Bool) → Option (List Effect × Bool)
and_then es none = none
and_then es (some (more, done)) = some (es ++ more, done)

-- The loop over the frames, on fuel; `fails` says at which positions a send fails. The flag says that
-- all was sent, and `none` that the fuel ran out.
unfoldable pub audio_loop : ℕ → Str → ℕ → Bool → (ℕ → Bool) → Option (List Effect × Bool)
audio_loop zero pcm pos first fails = none
audio_loop (suc fuel) pcm pos first fails =
    let to = frame_end pcm pos in
    let chunk = slice pcm pos to in
    let rest = audio_loop fuel pcm to false fails in
    if not (ltb pos (length pcm))
    then some ([], true)
    else if fails pos
    then some (send_failed (audio chunk) ∷ (synthesis stream_error ∷ []), false)
    else and_then (send (audio chunk) ∷ first_observed first) rest

-- Behind the loop.
abbrev pub finish : Option (List Effect × Bool) → Option (List Effect)
finish none = none
finish (some (es, false)) = some es
finish (some (es, true)) = some (es ++ observe total_duration_ms ∷ (synthesis success ∷ []))

unfoldable pub fail_with : Synthesis → Str → Str → List Effect
fail_with label code message = synthesis label ∷ (send (error_message code message) ∷ [])

-- `fmt.Sprintf("status=%d body=%s", …)` over at most 1024 bytes of the body.
unfoldable pub status_text : ℕ → Str → Str
status_text status body = codes "status=" ++ (decimal status ++ (codes " body=" ++ take 1024 body))

-- The audio that was read.
unfoldable pub on_audio : Str → Option Str → (ℕ → Bool) → Option (List Effect)
on_audio pcm (some err) fails = some (fail_with decode_error (codes "decode") err)
on_audio [] none fails =
    some (fail_with empty_response (codes "empty") (codes "empty audio response"))
on_audio (b ∷ pcm) none fails = finish (audio_loop (suc (length (b ∷ pcm))) (b ∷ pcm) 0 true fails)

abbrev pub prepend : List Effect → Option (List Effect) → Option (List Effect)
prepend es none = none
prepend es (some more) = some (es ++ more)

-- The answer of ElevenLabs, with the error that `Session` returns.
unfoldable pub on_http : HttpResult → (ℕ → Bool) → Option (List Effect) × Option Str
on_http (request_fails err) fails = (some (synthesis request_error ∷ []), some err)
on_http (call_fails err) fails = (some (synthesis http_error ∷ []), some err)
on_http (response status body read_err) fails = (
  prepend (observe eleven_labs_latency_ms ∷ []) (
      if status / 100 == 2
      then on_audio body read_err fails
      else some (fail_with api_error (codes "http") (status_text status body))),
  none,
)

-- `url`, `body` and the headers of the POST request.
unfoldable pub speech_request : Str → StartRequest → SpeechRequest
speech_request api_key start = record {
  url =
      codes "https://api.elevenlabs.io/v1/text-to-speech/"
      ++ (start.voice_id ++ codes "?output_format=pcm_48000");
  headers =
      (codes "xi-api-key", api_key)
      ∷ ((codes "accept", codes "audio/wav")
          ∷ ((codes "content-type", codes "application/json") ∷ []));
  body = (codes "text", text start.text) ∷ [];
}

-- `Session` behind the start request, with the variable ELEVENLABS_API_KEY and what comes of a request.
unfoldable pub synthesize :
    Str
    → StartRequest
    → (SpeechRequest → HttpResult)
    → (ℕ → Bool)
    → Option (List Effect) × Option Str
synthesize api_key start http fails =
    let (effects, err) = on_http (http (speech_request api_key start)) fails in
    let greeting = send (connected start.session_id) ∷ [] in
    if is_empty api_key
    then (
      some (
          greeting ++ fail_with config_error (codes "config") (codes "missing ELEVENLABS_API_KEY")),
      none,
    )
    else (prepend greeting effects, err)

-- The first message of a client, as far as the service looks at it.
pub data FirstMessage : Type 0 where
  recv_fails : Str → FirstMessage
  other_message : FirstMessage
  start_message : StartRequest → FirstMessage

-- `Session`
unfoldable pub session :
    Str
    → FirstMessage
    → (SpeechRequest → HttpResult)
    → (ℕ → Bool)
    → Option (List Effect) × Option Str
session api_key (recv_fails err) http fails = (some [], some err)
session api_key other_message http fails = (some [], some (codes "expected start request"))
session api_key (start_message start) http fails = synthesize api_key start http fails
