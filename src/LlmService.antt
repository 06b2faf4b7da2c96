-- ===== src/LlmService.antt =====
-- internal/llm/server.go: the language model service, a session that asks Azure for the tokens of an
-- answer and cuts them into sentences. The temperature of a request, a float, is left out.
use yuzu_agent_webrtc_toy.Prelude.{
  ℕ, zero, suc, ◌+◌, ◌*◌, ◌/◌, ◌%◌, Bool, true, false, not, ◌&&◌, ◌||◌, List, [], ◌∷◌, ◌++◌, Option,
  none, some, length, take, drop, leb, ltb, ◌==◌, if◌then◌else◌,
}
use yuzu_agent_webrtc_toy.Prelude.Int.{ℤ, pos}
use yuzu_agent_webrtc_toy.Text.{Str, codes, str_eq, is_empty, trim_space, decimal}
use yuzu_agent_webrtc_toy.Maps.{Map, lookup}
use yuzu_agent_webrtc_toy.Clock.{to_u32}
use yuzu_agent_webrtc_toy.Json.{Value, null, bool, num, text, opaque}
pub mod Sse
pub mod Sentences

pub data ServerMessage : Type 0 where
  connected token sentence : Str → ServerMessage
  error_message : Str → Str → ServerMessage
  usage : ℕ → ℕ → ℕ → ServerMessage

-- The lines that `ReadBytes('\n')` returns, one after the other; what has no "\n" behind it comes with
-- an error and is dropped.
unfoldable pub lines_from : Str → Str → List Str
lines_from line [] = []
lines_from line (c ∷ s) =
    let closed = (line ++ c ∷ []) ∷ lines_from [] s in
    let longer = lines_from (line ++ c ∷ []) s in if c == 10 then closed else longer

abbrev pub lines_of : Str → List Str
lines_of s = lines_from [] s

-- `bytes.HasPrefix`
unfoldable pub has_prefix : Str → Str → Bool
has_prefix [] s = true
has_prefix (p ∷ ps) [] = false
has_prefix (p ∷ ps) (c ∷ s) = p == c && has_prefix ps s

-- What a line that is not blank does to the event and the data.
unfoldable pub field : Str → Str → Str → Str × Str
field line event chunk =
    if has_prefix (codes "event:") line
    then (trim_space (drop 6 line), chunk)
    else if has_prefix (codes "data:") line
    then (event, chunk ++ trim_space (drop 5 line))
    else (event, chunk)

-- `Next`: an event with its data, and the lines behind it; `none` is the error of the reader.
unfoldable pub next : Str → Str → List Str → Option (Str × Str × List Str)
next event chunk [] = none
next event chunk (raw ∷ rest) =
    let line = trim_space raw in
    let (event', chunk') = if is_empty line then (event, chunk) else field line event chunk in
    let later = next event' chunk' rest in
    if is_empty line && not (is_empty chunk) then some (event, chunk, rest) else later

-- A chunk that Azure sends, as far as the code looks into it: whether there are choices, the member
-- "content" of the first one's delta, and the object "usage".
pub record Chunk : Type 0 where
  pub has_choices : Bool
  pub content : Option Value
  pub usage : Option (Map Value)

-- `toString`
unfoldable pub to_string : Option Value → Str
to_string none = []
to_string (some null) = []
to_string (some (bool b)) = []
to_string (some (num n)) = []
to_string (some (text s)) = s
to_string (some (opaque k)) = []

-- `uint32(toInt(v))`, of whole numbers.
abbrev to_count : Option Value → ℕ
to_count none = 0
to_count (some null) = 0
to_count (some (bool b)) = 0
to_count (some (num n)) = to_u32 n
to_count (some (text s)) = 0
to_count (some (opaque k)) = 0

-- `isSentenceBoundary`
abbrev last_byte : Str → Option ℕ
last_byte [] = none
last_byte (c ∷ []) = some c
last_byte (c ∷ (d ∷ s)) = last_byte (d ∷ s)

abbrev ends_sentence : Option ℕ → Bool
ends_sentence none = false
ends_sentence (some c) = c == b'.' || (c == b'!' || c == b'?')

unfoldable pub is_sentence_boundary : Str → Bool
is_sentence_boundary s = ends_sentence (last_byte (trim_space s))

-- The content of a chunk, with the text that waits for the end of its sentence.
unfoldable pub on_content : Str → Str → Str × List ServerMessage
on_content buf content =
    let buf' = buf ++ content in
    if is_empty content
    then (buf, [])
    else if is_sentence_boundary buf'
    then ([], token content ∷ (sentence buf' ∷ []))
    else (buf', token content ∷ [])

unfoldable pub on_usage : Option (Map Value) → List ServerMessage
on_usage none = []
on_usage (some m) =
    usage (to_count (lookup (codes "prompt_tokens") m))
      (to_count (lookup (codes "completion_tokens") m)) (to_count (lookup (codes "total_tokens") m))
    ∷ []

-- A chunk that was parsed, or not.
unfoldable pub on_chunk : Str → Option Chunk → Str × List ServerMessage
on_chunk buf none = (buf, [])
on_chunk buf (some m) =
    let (buf', sent) = on_content buf (to_string m.content) in
    if m.has_choices then (buf', sent ++ on_usage m.usage) else (buf, [])

-- What is left at the end is a sentence.
unfoldable pub flush : Str → List ServerMessage
flush buf = if is_empty buf then [] else sentence buf ∷ []

abbrev pub and_then : List ServerMessage → Option (List ServerMessage) → Option (List ServerMessage)
and_then sent none = none
and_then sent (some more) = some (sent ++ more)

-- The end of the body: an error, or none where it is `io.EOF`.
abbrev pub stream_error : Option Str → List ServerMessage
stream_error none = []
stream_error (some err) = error_message (codes "stream") err ∷ []

-- The parser of JSON, the error at the end of the body, and whether the session is cancelled when so
-- many lines are left.
pub record Stream : Type 0 where
  pub parse : Str → Option Chunk
  pub read_error : Option Str
  pub cancelled : ℕ → Bool

-- A round of the loop behind the decoder, and the rest of it.
unfoldable pub on_event :
    (Str → List Str → Option (List ServerMessage))
    → Stream
    → Str
    → Option (Str × Str × List Str)
    → Option (List ServerMessage)
on_event rest s buf none = some (stream_error s.read_error ++ flush buf)
on_event rest s buf (some (event, chunk, lines)) =
    let (buf', sent) = on_chunk buf (s.parse chunk) in
    if str_eq chunk (codes "[DONE]") then some (flush buf) else and_then sent (rest buf' lines)

-- The loop over the events, on fuel; `none` means that the fuel ran out.
unfoldable pub event_loop : ℕ → Stream → Str → List Str → Option (List ServerMessage)
event_loop zero s buf lines = none
event_loop (suc fuel) s buf lines =
    let round = on_event (event_loop fuel s) s buf (next [] [] lines) in
    if s.cancelled (length lines) then some [] else round

-- `StartRequest`
pub record StartRequest : Type 0 where
  pub session_id : Str
  pub deployment : Str
  pub api_version : Str
  pub messages : List (Str × Str)
  pub max_tokens : ℕ

-- The request to Azure: its URL, the messages with their roles, and "max_tokens".
pub record AzureRequest : Type 0 where
  pub url : Str
  pub messages : List (Str × Str)
  pub max_tokens : Option ℕ

-- `strings.TrimRight(s, "/")`
unfoldable pub trim_slashes : Str → Str
trim_slashes [] = []
trim_slashes (c ∷ s) =
    let rest = trim_slashes s in if c == b'/' && is_empty rest then [] else c ∷ rest

abbrev or_default : Str → Str → Str
or_default s def = if is_empty s then def else s

unfoldable pub azure_request : Str → StartRequest → AzureRequest
unfolding trim_slashes
azure_request endpoint start = record {
  url =
      trim_slashes endpoint
      ++ (codes "/openai/deployments/"
          ++ (start.deployment
              ++ (codes "/chat/completions?api-version="
                  ++ or_default start.api_version (codes "2024-02-15-preview"))));
  messages = start.messages;
  max_tokens = if ltb 0 start.max_tokens then some start.max_tokens else none;
}

-- The answer of Azure to the request: an error, or a status with a body.
pub data HttpResult : Type 0 where
  call_fails : Str → HttpResult
  response : ℕ → Str → HttpResult

unfoldable pub status_text : ℕ → Str → Str
status_text status body = codes "status=" ++ (decimal status ++ (codes " body=" ++ take 1024 body))

unfoldable pub on_http : Stream → HttpResult → Option (List ServerMessage) × Option Str
on_http s (call_fails err) = (some [], some err)
on_http s (response status body) = (
  if status / 100 == 2
      then event_loop (suc (length (lines_of body))) s [] (lines_of body)
      else some (error_message (codes "http") (status_text status body) ∷ []),
  none,
)

-- `Session` behind the start request, with the variables AZURE_OPENAI_ENDPOINT and
-- AZURE_OPENAI_API_KEY, and Azure as a function of the request.
unfoldable pub answer :
    Str
    → Str
    → StartRequest
    → (AzureRequest → HttpResult)
    → Stream
    → Option (List ServerMessage) × Option Str
answer endpoint api_key start azure s =
    let (sent, err) = on_http s (azure (azure_request endpoint start)) in
    let greeting = connected start.session_id ∷ [] in
    if is_empty endpoint || is_empty api_key
    then (
      some (
          greeting
          ++ error_message (codes "config")
              (codes "missing AZURE_OPENAI_ENDPOINT or AZURE_OPENAI_API_KEY")
            ∷ []),
      none,
    )
    else (and_then greeting sent, err)

-- The first message of a client, as far as the service looks at it.
pub data FirstMessage : Type 0 where
  recv_fails : Str → FirstMessage
  other_message : FirstMessage
  start_message : StartRequest → FirstMessage

-- `Session`
unfoldable pub session :
    Str
    → Str
    → FirstMessage
    → (AzureRequest → HttpResult)
    → Stream
    → Option (List ServerMessage) × Option Str
session endpoint api_key (recv_fails err) azure s = (some [], some err)
session endpoint api_key other_message azure s = (some [], some (codes "expected start request"))
session endpoint api_key (start_message start) azure s = answer endpoint api_key start azure s
