-- ===== src/Stt/Provider.antt =====
-- internal/stt/deepgram.go: what a frame of the provider means, the texts that are kept for the end of
-- an utterance, and the failures behind the circuit breaker.
use yuzu_agent_webrtc_toy.Prelude.{
  ℕ, ◌+◌, ◌-◌, ◌*◌, ◌^◌, Bool, true, false, not, ◌||◌, List, [], ◌∷◌, ◌++◌, Option, none, some,
  length, leb, ltb, ◌==◌, if◌then◌else◌,
}
use yuzu_agent_webrtc_toy.Prelude.Int.{ℤ}
use yuzu_agent_webrtc_toy.Text.{Str, codes, is_empty, trim_space, scan_int, equal_fold}
use yuzu_agent_webrtc_toy.Maps.{Map, lookup}
use yuzu_agent_webrtc_toy.Clock.{Time, second, before}
use yuzu_agent_webrtc_toy.Json.{Value, null, bool, num, text, opaque}
use yuzu_agent_webrtc_toy.Stt.Session.{
  DgEvent, interim, final, error_event, reconnected, utterance_end, speech_started, meta,
}

-- `DeepgramConn`, without its socket, its context and its two channels.
pub record DeepgramConn : Type 0 where
  pub fails : List Time
  pub circuit : Time
  pub last_text : Str
  pub last_final_text : Str

unfoldable pub new_deepgram_conn : DeepgramConn
new_deepgram_conn = record { fails = []; circuit = 0; last_text = []; last_final_text = [] }

-- The members of a frame that the code descends into: `m["channel"]`, its "alternatives", and the
-- members of one of these. The first constructor of each is a value of another shape, or none.
pub data Alternative : Type 0 where
  no_members : Alternative
  members : Map Value → Alternative

pub data Channel : Type 0 where
  no_object no_array : Channel
  alternatives : List Alternative → Channel

-- A frame that is a JSON object: its members, and its member "channel".
pub record Frame : Type 0 where
  pub fields : Map Value
  pub channel : Channel

pub data Source : Type 0 where
  provider provider_cached interim_fallback : Source

-- What the connection does: an event for the session, and its metrics.
pub data Output : Type 0 where
  emitted : DgEvent → Output
  final_emitted_by : Source → Output
  empty_final_skipped circuit_opens reconnects : Output

-- `toString` and `toBool`
unfoldable pub to_string : Option Value → Str
to_string none = []
to_string (some null) = []
to_string (some (bool b)) = []
to_string (some (num n)) = []
to_string (some (text s)) = s
to_string (some (opaque k)) = []

unfoldable pub to_bool : Option Value → Bool
to_bool none = false
to_bool (some null) = false
to_bool (some (bool b)) = b
to_bool (some (num n)) = false
to_bool (some (text s)) = equal_fold s (codes "true")
to_bool (some (opaque k)) = false

-- `v == nil`
abbrev is_nil : Option Value → Bool
is_nil none = true
is_nil (some null) = true
is_nil (some (bool b)) = false
is_nil (some (num n)) = false
is_nil (some (text s)) = false
is_nil (some (opaque k)) = false

-- `msg` of an error frame.
abbrev or_else : Str → Str → Str
or_else s t = if is_empty s then t else s

unfoldable pub error_message : Map Value → Str
error_message m =
    or_else (to_string (lookup (codes "error") m))
      (or_else (to_string (lookup (codes "message") m)) (codes "provider_error"))

-- The trimmed transcript of the first alternative.
unfoldable pub transcript : Channel → Str
transcript no_object = []
transcript no_array = []
transcript (alternatives []) = []
transcript (alternatives (no_members ∷ rest)) = []
transcript (alternatives (members m ∷ rest)) =
    trim_space (to_string (lookup (codes "transcript") m))

-- "UtteranceEnd"
unfoldable pub on_provider_end : DeepgramConn → DeepgramConn × List Output
on_provider_end d =
    let fallback = or_else d.last_final_text d.last_text in
    let source = if is_empty d.last_final_text then interim_fallback else provider_cached in
    (
      record d { last_text = []; last_final_text = [] },
      (if is_empty fallback
            then empty_final_skipped ∷ []
            else emitted (final fallback) ∷ (final_emitted_by source ∷ []))
          ++ emitted utterance_end ∷ [],
    )

-- "Results"
unfoldable pub on_results : DeepgramConn → Str → Bool → DeepgramConn × List Output
on_results d heard is_final =
    let d' = record d { last_text = if is_empty heard then d.last_text else heard } in
    if is_final
    then (if is_empty heard then (d', empty_final_skipped ∷ []) else (
      record d' { last_final_text = heard },
      emitted (final heard) ∷ (final_emitted_by provider ∷ []),
    ))
    else (d', if is_empty heard then [] else emitted (interim heard) ∷ [])

-- The body of the read loop, on a frame that parses.
unfoldable pub on_frame : DeepgramConn → Frame → DeepgramConn × List Output
on_frame d frame =
    let m = frame.fields in
    let typ = to_string (lookup (codes "type") m) in
    if equal_fold typ (codes "Error") || not (is_nil (lookup (codes "error") m))
    then (d, emitted (error_event (error_message m)) ∷ [])
    else if equal_fold typ (codes "Metadata")
    then (d, emitted meta ∷ [])
    else if equal_fold typ (codes "UtteranceEnd")
    then on_provider_end d
    else if equal_fold typ (codes "SpeechStarted")
    then (d, emitted speech_started ∷ [])
    else if equal_fold typ (codes "Results")
    then on_results d (transcript frame.channel)
        (to_bool (lookup (codes "is_final") m) || to_bool (lookup (codes "speech_final") m))
    else (d, [])

-- `emit`, on the queue of 32 events; the flag says that the event was dropped.
unfoldable pub emit : List DgEvent → DgEvent → List DgEvent × Bool
emit queue e = if ltb (length queue) 32 then (queue ++ e ∷ [], false) else (queue, true)

-- The failures of the last 60 seconds.
unfoldable pub recent : Time → List Time → List Time
recent now [] = []
recent now (t ∷ ts) =
    let rest = recent now ts in if ltb now (t + 60 * second) then t ∷ rest else rest

-- `addFailure`
unfoldable pub add_failure : DeepgramConn → Time → DeepgramConn × List Output
add_failure d now =
    let d' = record d { fails = recent now (d.fails ++ now ∷ []) } in
    if leb 3 (length d'.fails)
    then (record d' { circuit = now + 30 * second }, circuit_opens ∷ [])
    else (d', [])

-- `resetFailures`
unfoldable pub reset_failures : DeepgramConn → DeepgramConn
reset_failures d = record d { fails = [] }

-- `nextBackoff`, in nanoseconds.
abbrev pub at_most : ℕ → ℕ → ℕ
at_most bound n = if ltb bound n then bound else n

unfoldable pub backoff_after : ℕ → ℕ
backoff_after n = if n == 0 then second else at_most (30 * second) (2 ^ (at_most 5 n - 1) * second)

unfoldable pub next_backoff : DeepgramConn → ℕ
next_backoff d = backoff_after (length d.fails)

-- What came of a call of the provider: an error of the dial, or the frames that were read, in order,
-- and the error behind them (a read error or "rotate"), with `none` where the context was cancelled.
pub data Service : Type 0 where
  dial_failed : Str → Service
  pumped : List Frame → Option Str → Service

unfoldable pub on_frames : DeepgramConn → List Frame → DeepgramConn × List Output
on_frames d [] = (d, [])
on_frames d (frame ∷ frames) =
    let (d', outputs) = on_frame d frame in
    let (d'', more) = on_frames d' frames in (d'', outputs ++ more)

pump : DeepgramConn → Service → DeepgramConn × List Output × Option Str
unfolding on_frames
pump d (dial_failed err) = (d, [], some err)
pump d (pumped frames err) =
    let (d', outputs) = on_frames d frames in
    (d', reconnects ∷ (emitted reconnected ∷ outputs), err)

-- `connectAndPump`: the error that it returns, and whether it dialled.
unfoldable pub connect_and_pump :
    DeepgramConn → Time → Service → DeepgramConn × List Output × Option Str × Bool
unfolding pump
connect_and_pump d now service =
    let (d', outputs, err) = pump d service in
    if before now d.circuit
    then (d, [], some (codes "circuit open"), false)
    else (d', outputs, err, true)

-- A round of the loop of `run` that starts at `now` and ends at `ended`; the flag says that it dialled.
unfoldable pub settle : DeepgramConn → Time → Option Str → DeepgramConn × List Output
settle d ended none = (reset_failures d, [])
settle d ended (some err) =
    let (d', outputs) = add_failure d ended in (d', outputs ++ emitted (error_event err) ∷ [])

unfoldable pub run_round : DeepgramConn → Time → Time → Service → DeepgramConn × List Output × Bool
run_round d now ended service =
    let (d', outputs, err, dialled) = connect_and_pump d now service in
    let (d'', more) = settle d' ended err in (d'', outputs ++ more, dialled)

-- `atoiEnv`, `nzd` and `orDefault`
abbrev or_default_int : ℤ → Option ℤ → ℤ
or_default_int def none = def
or_default_int def (some n) = n

unfoldable pub atoi_env : (Str → Str) → Str → ℤ → ℤ
atoi_env getenv name def =
    let s = trim_space (getenv name) in if is_empty s then def else or_default_int def (scan_int s)
