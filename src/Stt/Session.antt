-- ===== src/Stt/Session.antt =====
-- internal/stt/session.go: the session of a client, which turns the provider's transcripts into
-- utterances with at most one final each.
use yuzu_agent_webrtc_toy.Prelude.{
  ℕ, ◌+◌, ◌*◌, ◌%◌, Bool, true, false, not, ◌&&◌, ◌||◌, List, [], ◌∷◌, ◌++◌, Option, none, some,
  length, leb, ltb, if◌then◌else◌,
}
use yuzu_agent_webrtc_toy.Prelude.Int.{ℤ, pos, leb_ℤ, ltb_ℤ}
use yuzu_agent_webrtc_toy.Text.{
  Str, codes, str_eq, is_empty, trim_space, scan_int, decimal, equal_fold,
}
use yuzu_agent_webrtc_toy.Clock.{Time, is_zero, sub_time, milliseconds, millis, second, unix_milli}

-- `Session`, without its provider connection and its channel.
pub record Session : Type 0 where
  pub id : Str
  pub utter_id : Str
  pub started_at : Time
  pub last_act : Time
  pub bytes_in : ℕ
  pub frames_in : ℕ
  pub last_interim : Str
  pub seen_first_interim : Bool
  pub drain_at : Time
  pub endpoint_policy : Str
  pub final_emitted : Bool
  pub last_final_text : Str
  pub last_speech_started : Time
  pub last_utterance_end_at : Time
  pub last_interim_at : Time
  pub in_utterance : Bool

-- The events of `DGEvent`, by their type.
pub data DgEvent : Type 0 where
  interim final error_event : Str → DgEvent
  reconnected utterance_end speech_started meta : DgEvent

pub data Histogram : Type 0 where
  ttft_ms final_latency_ms : Histogram

-- The messages of a `ServerMessage` that a session sends on its channel, the metrics, and the
-- beginning of an utterance.
pub data Effect : Type 0 where
  send_interim send_final : Str → Str → Effect
  send_error : Str → Effect
  observe : Histogram → ℤ → Effect
  utterance_event : Str → Effect
  begin : Str → Effect

-- The variables STT_STUCK_FINAL_RESET_MS, MIN_SILENCE_FOR_NEW_UTTER_MS and
-- MIN_INTERIM_CHARS_FOR_NEW_UTTER, with their defaults.
pub record Limits : Type 0 where
  pub stuck_ms : ℤ
  pub min_silence_ms : ℤ
  pub min_chars : ℤ

-- `x := def; if v != "" { fmt.Sscanf(v, "%d", &x) }`
abbrev scanned : ℤ → Option ℤ → ℤ
scanned def none = def
scanned def (some n) = n

unfoldable pub env_scan : (Str → Str) → Str → ℤ → ℤ
env_scan getenv key def = let v = getenv key in if is_empty v then def else scanned def (scan_int v)

unfoldable pub limits : (Str → Str) → Limits
unfolding env_scan
limits getenv = record {
  stuck_ms = env_scan getenv (codes "STT_STUCK_FINAL_RESET_MS") (pos 1200);
  min_silence_ms = env_scan getenv (codes "MIN_SILENCE_FOR_NEW_UTTER_MS") (pos 700);
  min_chars = env_scan getenv (codes "MIN_INTERIM_CHARS_FOR_NEW_UTTER") (pos 4);
}

-- `NewSession`
unfoldable pub new_session : (Str → Str) → Str → Time → Session
new_session getenv id now =
    let pol = getenv (codes "STT_ENDPOINTING_POLICY") in
    record {
      id = id;
      utter_id = [];
      started_at = 0;
      last_act = now;
      bytes_in = 0;
      frames_in = 0;
      last_interim = [];
      seen_first_interim = false;
      drain_at = 0;
      endpoint_policy = if is_empty pol then codes "provider" else pol;
      final_emitted = false;
      last_final_text = [];
      last_speech_started = 0;
      last_utterance_end_at = 0;
      last_interim_at = 0;
      in_utterance = false;
    }

-- `StartUtterance`
unfoldable pub start_utterance : Session → Str → Time → Session
start_utterance s utter_id now = record s {
  utter_id = utter_id;
  started_at = now;
  last_act = now;
  seen_first_interim = false;
  final_emitted = false;
  last_interim = [];
  drain_at = 0;
  in_utterance = true;
}

-- `fmt.Sprintf("utt-%d", now.UnixMilli())`
unfoldable pub new_utterance_id : Time → Str
new_utterance_id now = codes "utt-" ++ decimal (unix_milli now)

-- `now.Sub(t) >= time.Duration(ms) * time.Millisecond`
abbrev pub elapsed : Time → Time → ℤ → Bool
elapsed now t ms = leb_ℤ (millis ms) (sub_time now t)

-- The guardrail against a final that stays marked as emitted.
unfoldable pub guardrail : Limits → Session → Time → Session × List Effect
guardrail l s now =
    if s.final_emitted
      && (not (is_zero s.last_interim_at)
          && (not (elapsed now s.last_interim_at l.stuck_ms)
              && elapsed now s.started_at l.stuck_ms))
    then (
      record s { final_emitted = false; last_final_text = []; in_utterance = false },
      utterance_event (codes "guardrail_reset") ∷ [],
    )
    else (s, [])

-- Whether an interim behind silence may begin an utterance.
unfoldable pub silence_ok : Limits → Session → Time → Bool
silence_ok l s now =
    is_zero s.last_interim_at
    || (elapsed now s.last_interim_at l.min_silence_ms
        || (not (is_zero s.last_utterance_end_at)
            && leb_ℤ (pos 0) (sub_time now s.last_utterance_end_at)))

-- A new utterance on an interim that is long enough.
unfoldable pub commit_interim : Limits → Session → Str → Time → Session × List Effect
unfolding silence_ok start_utterance
commit_interim l s text now =
    if not s.in_utterance
      && (leb_ℤ l.min_chars (pos (length (trim_space text))) && silence_ok l s now)
    then (
      record (start_utterance s (new_utterance_id now) now) { in_utterance = true },
      begin (new_utterance_id now) ∷ [],
    )
    else (s, [])

-- The time to the first interim of an utterance.
unfoldable pub first_interim : Session → Time → Session × List Effect
first_interim s now =
    if not s.seen_first_interim && not (is_zero s.started_at)
    then (
      record s { seen_first_interim = true },
      if ltb_ℤ (pos 0) (milliseconds (sub_time now s.started_at))
          then observe ttft_ms (milliseconds (sub_time now s.started_at)) ∷ []
          else [],
    )
    else (s, [])

-- "interim"
unfoldable pub on_interim : Limits → Session → Str → Time → Session × List Effect
on_interim l s text now =
    let (t, reset) = guardrail l s now in
    let (u, begun) = commit_interim l t text now in
    let v = record u { last_interim = text; last_interim_at = now } in
    let (w, seen) = first_interim v now in
    (w, reset ++ (begun ++ (seen ++ send_interim w.utter_id text ∷ [])))

-- `ms := time.Since(s.drainAt).Milliseconds(); if ms > 0 { … }`
unfoldable pub observe_drain : Session → Time → List Effect
observe_drain s now =
    if not (is_zero s.drain_at) && ltb_ℤ (pos 0) (milliseconds (sub_time now s.drain_at))
    then observe final_latency_ms (milliseconds (sub_time now s.drain_at)) ∷ []
    else []

-- A final is forwarded.
unfoldable pub forward_final : Session → Str → Time → Session × List Effect
forward_final s text now = (
  record s { final_emitted = true; last_final_text = text },
  observe_drain s now ++ send_final s.utter_id text ∷ [],
)

-- `boundaryOK || silenceOK`
unfoldable pub rolls_over : Limits → Session → Time → Bool
rolls_over l s now =
    (not (is_zero s.last_utterance_end_at)
      && leb_ℤ (sub_time now s.last_utterance_end_at) (pos (3 * second)))
    || (is_zero s.last_interim_at || elapsed now s.last_interim_at l.min_silence_ms)

-- A final behind one that was emitted: dropped, or the first of a new utterance.
unfoldable pub on_later_final : Limits → Session → Str → Time → Session × List Effect
on_later_final l s text now =
    if str_eq s.last_final_text text
    then (s, [])
    else if rolls_over l s now
    then (let (s', effects) =
          forward_final (start_utterance s (new_utterance_id now) now) text now in
        (s', begin (new_utterance_id now) ∷ effects))
    else (s, [])

-- "final"
unfoldable pub on_final : Limits → Session → Str → Time → Session × List Effect
on_final l s text now =
    if is_empty (trim_space text)
    then (s, [])
    else if s.final_emitted
    then on_later_final l s text now
    else forward_final s text now

-- "reconnected"
unfoldable pub on_reconnected : Session → Time → Session × List Effect
on_reconnected s now = (
  record s {
    final_emitted = false;
    last_final_text = [];
    last_interim = [];
    seen_first_interim = false;
    started_at = now;
    in_utterance = false;
    last_utterance_end_at = now;
  },
  utterance_event (codes "guardrail_reset") ∷ [],
)

-- "utterance_end"
unfoldable pub on_utterance_end : Session → Time → Session × List Effect
on_utterance_end s now = (
  record s {
    final_emitted = false;
    last_interim = [];
    seen_first_interim = false;
    started_at = now;
    last_final_text = [];
    in_utterance = false;
    last_utterance_end_at = now;
  },
  utterance_event (codes "utterance_end") ∷ [],
)

-- "speech_started"
unfoldable pub on_speech_started : Session → Time → Session × List Effect
on_speech_started s now =
    if not (is_zero s.last_speech_started)
      && ltb_ℤ (sub_time now s.last_speech_started) (millis (pos 250))
    then (s, [])
    else (record s { last_speech_started = now }, utterance_event (codes "speech_started") ∷ [])

-- The body of the loop of `run`.
unfoldable pub on_dg_event : Limits → Session → DgEvent → Time → Session × List Effect
on_dg_event l s (interim text) now = on_interim l s text now
on_dg_event l s (final text) now = on_final l s text now
on_dg_event l s (error_event text) now = (s, send_error text ∷ [])
on_dg_event l s reconnected now = on_reconnected s now
on_dg_event l s utterance_end now = on_utterance_end s now
on_dg_event l s speech_started now = on_speech_started s now
on_dg_event l s meta now = (s, [])

-- `Drain`
unfoldable pub drain : Session → Time → Session × List Effect
drain s now =
    let s' = record s { last_act = now; drain_at = now } in
    if equal_fold s'.endpoint_policy (codes "earliest") && not s'.final_emitted
    then (
      record s' { final_emitted = true },
      send_final s'.utter_id s'.last_interim ∷ observe_drain s' now,
    )
    else (s', [])

-- `IdleFor`; the duration in nanoseconds.
unfoldable pub idle_for : Session → ℤ → Time → Bool
idle_for s d now = leb_ℤ d (sub_time now s.last_act)

-- What `SendAudio` does with a frame: the sample file that it writes, and whether the queue of the
-- provider took the frame.
pub record AudioResult : Type 0 where
  pub session : Session
  pub sample_file : Bool
  pub dropped : Bool

-- `SendAudio`; `loud` says that the frame's level, a float, is above 500, and `queued` is the length
-- of the queue of 8 frames. `none` is the panic of `s.id[:8]`.
unfoldable pub send_audio : Session → ℕ → Bool → ℕ → Time → Option AudioResult
send_audio s bytes loud queued now =
    let s' = record s {
      bytes_in = (s.bytes_in + bytes) % 0x10000000000000000;
      frames_in = (s.frames_in + 1) % 0x10000000000000000;
      last_act = now;
    } in
    let saved = leb s'.frames_in 500 && loud in
    if saved && ltb (length s'.id) 8
    then none
    else some (record { session = s'; sample_file = saved; dropped = leb 8 queued })
