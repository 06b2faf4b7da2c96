-- ===== src/Loop/History.antt =====
-- The commands of internal/loop/dispatcher.go over a history of one worker, and its safety timeout.
use yuzu_agent_webrtc_toy.Prelude.{
  ℕ, ◌+◌, ◌≤◌, ◌≡◌, ◌≢◌, refl, ap, ◌∙◌, Bool, true, false, List, [], ◌∷◌, ◌++◌, arith,
  if◌then◌else◌,
}
use yuzu_agent_webrtc_toy.Prelude.Int.{ℤ}
use yuzu_agent_webrtc_toy.Text.{Str, codes, str_eq}
use yuzu_agent_webrtc_toy.Clock.{Time}
use yuzu_agent_webrtc_toy.Floor.{on_tts_started, on_tts_stopped, on_vad_start, on_vad_end}
use yuzu_agent_webrtc_toy.Loop.{
  SessState, Message, Effect, append, send_json, Kind, tts_started_kind, tts_first_audio_kind,
  tts_stopped_kind, vad_start_kind, vad_end_kind, cmd_ack_kind, worker_hello_kind, other_kind,
  dispatch, check_timeout, handle, kind_of, timed_out, latency_event,
}
use yuzu_agent_webrtc_toy.Loop.Stops.{commands, commands-append, barges_in, commands-handle}

-- A message with the fresh command id of its handling and the time at which it is handled.
abbrev pub Arrival : Type 0
Arrival = Message × Str × Time

unfoldable pub run_messages : SessState → ℤ → Str → List Arrival → SessState × List Effect
run_messages s timeout_sec session_id [] = (s, [])
run_messages s timeout_sec session_id ((msg, cmd_id, now) ∷ rest) =
    let (s', es) = handle s timeout_sec session_id msg cmd_id now in
    let (s'', more) = run_messages s' timeout_sec session_id rest in (s'', es ++ more)

-- The messages that end an outstanding command.
abbrev releasing : Kind → ℕ
releasing tts_stopped_kind = 1
releasing worker_hello_kind = 1
releasing _ = 0

abbrev pub releases : List Arrival → ℕ
releases [] = 0
releases ((msg, cmd_id, now) ∷ rest) = releasing (kind_of msg.type) + releases rest

-- The safety timeouts that were reported.
abbrev is_reset : Effect → Bool
is_reset (append type payload) = str_eq type (codes "tts_timeout_reset")
is_reset (send_json msg) = false

unfoldable pub resets : List Effect → ℕ
resets [] = 0
resets (e ∷ es) = (if is_reset e then 1 else 0) + resets es

resets-append : (es fs : List Effect) → resets (es ++ fs) ≡ resets es + resets fs
unfolding resets
resets-append [] fs = omega arith
resets-append (e ∷ es) fs = omega (arith, resets-append es fs)

abbrev room : SessState → ℕ
room s = if s.stopping then 0 else 1

-- A message pays for its command by one that is still free, or by releasing one.
module _ (s : SessState) (session_id : Str) (msg : Message) (cmd_id : Str) (now : Time) where
  dispatch-room :
      (k : Kind)
      → let (s', es) = dispatch k s session_id msg cmd_id now in
        commands es + room s' ≤ releasing k + room s
  unfolding dispatch commands on_tts_started on_tts_stopped on_vad_start on_vad_end latency_event
  dispatch-room tts_started_kind = ground arith
  dispatch-room tts_first_audio_kind = ground arith
  dispatch-room tts_stopped_kind = ground arith
  dispatch-room vad_start_kind = ground arith
  dispatch-room vad_end_kind = ground arith
  dispatch-room cmd_ack_kind = ground arith
  dispatch-room worker_hello_kind = ground arith
  dispatch-room other_kind = ground arith

  check_timeout-room :
      (timeout_sec : ℤ)
      → let (s', es) = check_timeout s timeout_sec now in commands es + room s' ≤ resets es + room s
  unfolding check_timeout commands resets str_eq
  check_timeout-room timeout_sec = ground arith

handle-room :
    (s : SessState) (timeout_sec : ℤ) (session_id : Str) (msg : Message) (cmd_id : Str) (now : Time)
    → let (s', es) = handle s timeout_sec session_id msg cmd_id now in
      commands es + room s' ≤ releasing (kind_of msg.type) + resets es + room s
unfolding handle
handle-room s timeout_sec session_id msg cmd_id now =
    let (s', es) = dispatch (kind_of msg.type) s session_id msg cmd_id now in
    let (s'', more) = check_timeout s' timeout_sec now in
    omega (
      arith,
      commands-append es more,
      resets-append es more,
      dispatch-room s session_id msg cmd_id now (kind_of msg.type),
      check_timeout-room s' session_id msg cmd_id now timeout_sec,
    )

-- Over any messages of a worker, the commands to stop are at most one more than the messages that
-- end a command (the speech stopped, or the worker came anew) and the reported timeouts together; and
-- not even one more where a command was outstanding at the start.
pub commands_bounded :
    (s : SessState) (timeout_sec : ℤ) (session_id : Str) (arrivals : List Arrival)
    → commands (run_messages s timeout_sec session_id arrivals).1
      ≤ releases arrivals
        + resets (run_messages s timeout_sec session_id arrivals).1
        + (if s.stopping then 0 else 1)
unfolding run_messages commands resets
commands_bounded s timeout_sec session_id [] = ground arith
commands_bounded s timeout_sec session_id ((msg, cmd_id, now) ∷ rest) =
    let (s', es) = handle s timeout_sec session_id msg cmd_id now in
    let (s'', more) = run_messages s' timeout_sec session_id rest in
    omega (
      arith,
      commands-append es more,
      resets-append es more,
      handle-room s timeout_sec session_id msg cmd_id now,
      commands_bounded s' timeout_sec session_id rest,
    )

-- The safety timeout looks at the start of the last speech, which only a new speech changes.
module _ (s : SessState) (session_id : Str) (msg : Message) (cmd_id : Str) (now : Time) where
  start-dispatch :
      (k : Kind)
      → k ≢ tts_started_kind
      → (dispatch k s session_id msg cmd_id now).0.tts_start_recv ≡ s.tts_start_recv
  unfolding dispatch
  start-dispatch k ne = ground arith

  resets-dispatch : (k : Kind) → resets (dispatch k s session_id msg cmd_id now).1 ≡ 0
  unfolding resets dispatch latency_event str_eq
  resets-dispatch tts_started_kind = refl
  resets-dispatch tts_first_audio_kind = refl
  resets-dispatch tts_stopped_kind = ground arith
  resets-dispatch vad_start_kind = ground arith
  resets-dispatch vad_end_kind = refl
  resets-dispatch cmd_ack_kind = refl
  resets-dispatch worker_hello_kind = refl
  resets-dispatch other_kind = refl

timed_out_same :
    (s s' : SessState) (timeout_sec : ℤ) (now : Time)
    → s'.tts_start_recv ≡ s.tts_start_recv
    → timed_out s' timeout_sec now ≡ timed_out s timeout_sec now
unfolding timed_out
timed_out_same s s' timeout_sec now e = rw e

-- What the safety timeout does when it is met, and when it is not.
record Reset (s : SessState) (es : List Effect) : Type 0 where
  reported : resets es ≡ 1
  free : s.stopping ≡ false
  forgotten : s.pending_cmd_id ≡ []

check_timeout_met :
    (s : SessState) (timeout_sec : ℤ) (now : Time)
    → timed_out s timeout_sec now ≡ true
    → Reset (check_timeout s timeout_sec now).0 (check_timeout s timeout_sec now).1
unfolding check_timeout resets str_eq
check_timeout_met s timeout_sec now t = ground arith

check_timeout_not_met :
    (s : SessState) (timeout_sec : ℤ) (now : Time)
    → timed_out s timeout_sec now ≡ false
    → (check_timeout s timeout_sec now).0 ≡ s
unfolding check_timeout
check_timeout_not_met s timeout_sec now t = ground arith

-- A message that starts no speech, and meets the timeout.
handle_met :
    (s : SessState) (timeout_sec : ℤ) (session_id : Str) (msg : Message) (cmd_id : Str) (now : Time)
    → kind_of msg.type ≢ tts_started_kind
    → timed_out s timeout_sec now ≡ true
    → let (s', es) = handle s timeout_sec session_id msg cmd_id now in Reset s' es
unfolding handle
handle_met s timeout_sec session_id msg cmd_id now ne t =
    let k = kind_of msg.type in
    let (s', es) = dispatch k s session_id msg cmd_id now in
    let same = start-dispatch s session_id msg cmd_id now k ne in
    let met = check_timeout_met s' timeout_sec now (timed_out_same s s' timeout_sec now same ∙ t) in
    let (s'', more) = check_timeout s' timeout_sec now in
    record {
      reported = omega (
        arith,
        met.reported,
        resets-append es more,
        resets-dispatch s session_id msg cmd_id now k,
      );
      free = met.free;
      forgotten = met.forgotten;
    }

barges_in_kind :
    (s : SessState) (msg : Message) → barges_in s msg ≡ true → kind_of msg.type ≢ tts_started_kind
barges_in_kind s msg b = ground arith

one_if : (b : Bool) → b ≡ true → ◌≡◌ {A = ℕ} (if b then 1 else 0) 1
one_if b e = ground arith

-- A command that is sent by a message which also meets the safety timeout is forgotten at once: no
-- command is pending afterwards, and none is held back, though one is outstanding at the worker.
pub timeout_forgets_command :
    (s : SessState) (timeout_sec : ℤ) (session_id : Str) (msg : Message) (cmd_id : Str) (now : Time)
    → barges_in s msg ≡ true
    → timed_out s timeout_sec now ≡ true
    → let (s', es) = handle s timeout_sec session_id msg cmd_id now in
      (commands es ≡ 1) × (s'.stopping ≡ false) × (s'.pending_cmd_id ≡ [])
timeout_forgets_command s timeout_sec session_id msg cmd_id now b t =
    let met = handle_met s timeout_sec session_id msg cmd_id now (barges_in_kind s msg b) t in
    (
      omega (
        arith,
        commands-handle s timeout_sec session_id msg cmd_id now,
        one_if (barges_in s msg) b,
      ),
      met.free,
      met.forgotten,
    )

-- The speech that a message reports as stopped goes on counting for the safety timeout: any later
-- message that does not start new speech, once the time since the old start is over, is reported as
-- a timeout.
pub stopped_speech_times_out :
    (s : SessState) (timeout_sec : ℤ) (session_id : Str) (stopped later : Message)
    → (cmd_id cmd_id' : Str) (now then_ : Time) → kind_of stopped.type ≡ tts_stopped_kind
    → kind_of later.type ≢ tts_started_kind
    → timed_out s timeout_sec now ≡ false
    → timed_out s timeout_sec then_ ≡ true
    → let s' = (handle s timeout_sec session_id stopped cmd_id now).0 in
      resets (handle s' timeout_sec session_id later cmd_id' then_).1 ≡ 1
unfolding handle
stopped_speech_times_out s timeout_sec session_id stopped later cmd_id cmd_id' now then_ k l n t =
    let (s', es) = dispatch (kind_of stopped.type) s session_id stopped cmd_id now in
    let same =
      start-dispatch s session_id stopped cmd_id now (kind_of stopped.type) (rw k (λ e. cc)) in
    let kept =
      check_timeout_not_met s' timeout_sec now (timed_out_same s s' timeout_sec now same ∙ n) in
    let start = ap (λ (q : SessState). q.tts_start_recv) kept ∙ same in
    let s'' = (check_timeout s' timeout_sec now).0 in
    let met = timed_out_same s s'' timeout_sec then_ start ∙ t in
    (handle_met s'' timeout_sec session_id later cmd_id' then_ l met).reported
