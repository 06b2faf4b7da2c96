-- ===== src/Stt/Utterances.antt =====
-- What internal/stt/session.go forwards as a final, and under which utterance identifier.
use yuzu_agent_webrtc_toy.Prelude.{
  ◌≡◌, refl, Bool, true, false, not, ◌&&◌, ◌||◌, List, [], ◌∷◌, ◌++◌, arith, length, if◌then◌else◌,
}
use yuzu_agent_webrtc_toy.Prelude.Int.{pos, leb_ℤ}
use yuzu_agent_webrtc_toy.Text.{Str, codes, str_eq, is_empty, trim_space, equal_fold}
use yuzu_agent_webrtc_toy.Clock.{Time}
use yuzu_agent_webrtc_toy.Stt.Session.{
  Session, DgEvent, interim, final, error_event, reconnected, utterance_end, speech_started, meta,
  Effect, send_interim, send_final, send_error, observe, utterance_event, begin, Limits,
  start_utterance, guardrail, commit_interim, first_interim, on_interim, observe_drain,
  forward_final, new_utterance_id, rolls_over, on_later_final, on_final, on_reconnected,
  on_utterance_end, on_speech_started, on_dg_event, drain,
}
use yuzu_agent_webrtc_toy.Stt.Finals.{Input, provides, drains, on_input, run_inputs}

-- The finals among some effects, as utterance identifiers and texts.
unfoldable pub forwarded : List Effect → List (Str × Str)
forwarded [] = []
forwarded (send_final utter_id text ∷ es) = (utter_id, text) ∷ forwarded es
forwarded (send_interim utter_id text ∷ es) = forwarded es
forwarded (send_error text ∷ es) = forwarded es
forwarded (observe h v ∷ es) = forwarded es
forwarded (utterance_event label ∷ es) = forwarded es
forwarded (begin utter_id ∷ es) = forwarded es

pub forwarded-append : (es fs : List Effect) → forwarded (es ++ fs) ≡ forwarded es ++ forwarded fs
unfolding forwarded
forwarded-append [] fs = refl
forwarded-append (send_final utter_id text ∷ es) fs = rw (forwarded-append es fs)
forwarded-append (send_interim utter_id text ∷ es) fs = forwarded-append es fs
forwarded-append (send_error text ∷ es) fs = forwarded-append es fs
forwarded-append (observe h v ∷ es) fs = forwarded-append es fs
forwarded-append (utterance_event label ∷ es) fs = forwarded-append es fs
forwarded-append (begin utter_id ∷ es) fs = forwarded-append es fs

-- What the parts of the handlers forward.
module _ (s : Session) (now : Time) where
  observe_drain-forwarded : forwarded (observe_drain s now) ≡ []
  unfolding forwarded observe_drain
  observe_drain-forwarded = ground arith

  forward_final-forwarded :
      (text : Str) → forwarded (forward_final s text now).1 ≡ (s.utter_id, text) ∷ []
  unfolding forwarded forward_final
  forward_final-forwarded text = rw (
    forwarded-append (observe_drain s now) (send_final s.utter_id text ∷ []),
    observe_drain-forwarded,
  )

  module _ (l : Limits) where
    guardrail-forwarded : forwarded (guardrail l s now).1 ≡ []
    unfolding forwarded guardrail
    guardrail-forwarded = ground arith

    commit_interim-forwarded : (text : Str) → forwarded (commit_interim l s text now).1 ≡ []
    unfolding forwarded commit_interim
    commit_interim-forwarded text = ground arith

  first_interim-forwarded : forwarded (first_interim s now).1 ≡ []
  unfolding forwarded first_interim
  first_interim-forwarded = ground arith

sent_interim-forwarded : (id text : Str) → forwarded (send_interim id text ∷ []) ≡ []
unfolding forwarded
sent_interim-forwarded id text = refl

-- An interim forwards no final.
on_interim-forwarded :
    (l : Limits) (s : Session) (text : Str) (now : Time)
    → forwarded (on_interim l s text now).1 ≡ []
unfolding on_interim
on_interim-forwarded l s text now =
    let (t, reset) = guardrail l s now in
    let (u, begun) = commit_interim l t text now in
    let v = record u { last_interim = text; last_interim_at = now } in
    let (w, seen) = first_interim v now in
    let sent = send_interim w.utter_id text ∷ [] in
    rw (
      forwarded-append reset (begun ++ (seen ++ sent)),
      forwarded-append begun (seen ++ sent),
      forwarded-append seen sent,
      guardrail-forwarded s now l,
      commit_interim-forwarded t now l text,
      first_interim-forwarded v now,
      sent_interim-forwarded w.utter_id text,
    )

-- Whether a final may be forwarded, and the identifier that it then has.
abbrev repeated : Limits → Session → Str → Time → Bool
repeated l s text now =
    s.final_emitted && (str_eq s.last_final_text text || not (rolls_over l s now))

abbrev final_id : Session → Time → Str
final_id s now = if s.final_emitted then new_utterance_id now else s.utter_id

start_utterance-utter_id :
    (s : Session) (id : Str) (now : Time) → (start_utterance s id now).utter_id ≡ id
unfolding start_utterance
start_utterance-utter_id s id now = refl

abbrev expected : Limits → Session → DgEvent → Time → List (Str × Str)
expected l s (final text) now =
    if is_empty (trim_space text) || repeated l s text now then [] else (final_id s now, text) ∷ []
expected l s (interim text) now = []
expected l s (error_event text) now = []
expected l s reconnected now = []
expected l s utterance_end now = []
expected l s speech_started now = []
expected l s meta now = []

-- What an event of the provider forwards, for every event: a blank final and a repeated one are
-- dropped, any other final is forwarded once, with its text, under the identifier of the utterance
-- or, where that one has had its final, under a new one; no other event forwards a final.
pub forwarded-on_dg_event :
    (l : Limits) (s : Session) (e : DgEvent) (now : Time)
    → forwarded (on_dg_event l s e now).1 ≡ expected l s e now
unfolding on_dg_event on_final on_later_final on_reconnected on_utterance_end on_speech_started
    forwarded
forwarded-on_dg_event l s (interim text) now = on_interim-forwarded l s text now
forwarded-on_dg_event l s (final text) now =
    let t = start_utterance s (new_utterance_id now) now in
    ground (
      arith,
      forward_final-forwarded s now text,
      forward_final-forwarded t now text,
      start_utterance-utter_id s (new_utterance_id now) now,
    )
forwarded-on_dg_event l s (error_event text) now = refl
forwarded-on_dg_event l s reconnected now = refl
forwarded-on_dg_event l s utterance_end now = refl
forwarded-on_dg_event l s speech_started now = ground arith
forwarded-on_dg_event l s meta now = refl

-- The utterance identifier through the events of a short answer.
final-keeps :
    (l : Limits) (s : Session) (text : Str) (now : Time)
    → s.final_emitted ≡ false
    → (on_dg_event l s (final text) now).0.utter_id ≡ s.utter_id
unfolding on_dg_event on_final forward_final
final-keeps l s text now fresh = ground arith

utterance_end-opens :
    (l : Limits) (s : Session) (now : Time)
    → let t = (on_dg_event l s utterance_end now).0 in
      (t.final_emitted ≡ false) × (t.in_utterance ≡ false) × (t.utter_id ≡ s.utter_id)
unfolding on_dg_event on_utterance_end
utterance_end-opens l s now = (refl, refl, refl)

short_interim-keeps :
    (l : Limits) (s : Session) (text : Str) (now : Time)
    → s.final_emitted ≡ false
    → s.in_utterance ≡ false
    → leb_ℤ l.min_chars (pos (length (trim_space text))) ≡ false
    → let t = (on_dg_event l s (interim text) now).0 in
      (t.final_emitted ≡ false) × (t.utter_id ≡ s.utter_id)
unfolding on_dg_event on_interim guardrail commit_interim first_interim
short_interim-keeps l s text now fresh idle short = ground arith

-- A fresh final is forwarded, and the session remembers it.
pub final-marks :
    (l : Limits) (s : Session) (text : Str) (now : Time)
    → s.final_emitted ≡ false
    → is_empty (trim_space text) ≡ false
    → let s' = (on_dg_event l s (final text) now).0 in
      (s'.final_emitted ≡ true) × (s'.last_final_text ≡ text)
unfolding on_dg_event on_final forward_final
final-marks l s text now fresh nonblank = rw (nonblank, fresh) (refl, refl)

pub fresh_final-forwarded :
    (l : Limits) (s : Session) (text : Str) (now : Time)
    → s.final_emitted ≡ false
    → is_empty (trim_space text) ≡ false
    → forwarded (on_dg_event l s (final text) now).1 ≡ (s.utter_id, text) ∷ []
fresh_final-forwarded l s text now fresh nonblank =
    rw (forwarded-on_dg_event l s (final text) now, nonblank, fresh)

drain-forwarded :
    (s : Session) (now : Time)
    → equal_fold s.endpoint_policy (codes "earliest") ≡ true
    → s.final_emitted ≡ false
    → forwarded (drain s now).1 ≡ (s.utter_id, s.last_interim) ∷ []
unfolding drain forwarded observe_drain
drain-forwarded s now e fresh =
    rw (e, fresh, observe_drain-forwarded (record s { last_act = now; drain_at = now }) now)

-- A first answer and a second one, which is heard as an interim and a final of the same text.
abbrev pub two_answers : Str → Str → Time → Time → Time → Time → List (Input × Time)
two_answers first second t0 t1 t2 t3 =
    (provides (final first), t0)
    ∷ ((provides utterance_end, t1)
        ∷ ((provides (interim second), t2) ∷ ((provides (final second), t3) ∷ [])))

-- Where the second of two answers is shorter than the interim that begins an utterance, and neither
-- is blank, both finals carry one utterance identifier, although the provider has ended the utterance
-- between them.
pub short_answer_reuses_id :
    (l : Limits) (s : Session) (first second : Str) (t0 t1 t2 t3 : Time)
    → s.final_emitted ≡ false
    → is_empty (trim_space first) ≡ false
    → is_empty (trim_space second) ≡ false
    → leb_ℤ l.min_chars (pos (length (trim_space second))) ≡ false
    → forwarded (run_inputs l s (two_answers first second t0 t1 t2 t3)).1
      ≡ (s.utter_id, first) ∷ ((s.utter_id, second) ∷ [])
unfolding run_inputs on_input forwarded
short_answer_reuses_id l s first second t0 t1 t2 t3 fresh b0 b1 short =
    let (s1, e1) = on_dg_event l s (final first) t0 in
    let (s2, e2) = on_dg_event l s1 utterance_end t1 in
    let (s3, e3) = on_dg_event l s2 (interim second) t2 in
    let (s4, e4) = on_dg_event l s3 (final second) t3 in
    let (f2, i2, u2) = utterance_end-opens l s1 t1 in
    let (f3, u3) = short_interim-keeps l s2 second t2 f2 i2 short in
    let id : s3.utter_id ≡ s.utter_id = cc (u3, u2, final-keeps l s first t0 fresh) in
    rw (
      forwarded-append e1 (e2 ++ (e3 ++ (e4 ++ []))),
      forwarded-append e2 (e3 ++ (e4 ++ [])),
      forwarded-append e3 (e4 ++ []),
      forwarded-append e4 [],
      fresh_final-forwarded l s first t0 fresh b0,
      forwarded-on_dg_event l s1 utterance_end t1,
      forwarded-on_dg_event l s2 (interim second) t2,
      fresh_final-forwarded l s3 second t3 f3 b1,
      id,
    )

-- Under the policy "earliest" a drain behind the end of an utterance forwards one blank final under the
-- identifier of the utterance that ended, whatever the provider had transcribed.
pub drain_after_end_is_blank :
    (l : Limits) (s : Session) (t0 t1 : Time)
    → equal_fold s.endpoint_policy (codes "earliest") ≡ true
    → forwarded (run_inputs l s ((provides utterance_end, t0) ∷ ((drains, t1) ∷ []))).1
      ≡ (s.utter_id, []) ∷ []
unfolding run_inputs on_input on_dg_event on_utterance_end forwarded
drain_after_end_is_blank l s t0 t1 e =
    let s' = (on_utterance_end s t0).0 in
    rw (forwarded-append (drain s' t1).1 [], drain-forwarded s' t1 e refl)
