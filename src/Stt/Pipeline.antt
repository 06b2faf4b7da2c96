-- ===== src/Stt/Pipeline.antt =====
-- The frames of the provider through internal/stt/deepgram.go and into internal/stt/session.go.
use mathlib.Core.List.{append_assoc, append-nil}
use yuzu_agent_webrtc_toy.Prelude.{
  ◌+◌, ◌≤◌, ◌≡◌, refl, Bool, true, false, ◌||◌, List, [], ◌∷◌, ◌++◌, arith, length, length-append,
  ltb, if◌then◌else◌,
}
use yuzu_agent_webrtc_toy.Text.{
  str_eq, str_eq_refl, Str, codes, is_empty, trim_space, trim_space_idem, equal_fold,
}
use yuzu_agent_webrtc_toy.Maps.{lookup}
use yuzu_agent_webrtc_toy.Clock.{Time}
use yuzu_agent_webrtc_toy.Json.{bool, text}
use yuzu_agent_webrtc_toy.Stt.Session.{
  Session, DgEvent, interim, final, error_event, reconnected, utterance_end, speech_started, meta,
  Limits, on_dg_event,
}
use yuzu_agent_webrtc_toy.Stt.Provider.{
  DeepgramConn, no_members, members, Channel, no_object, no_array, alternatives, Frame, Output,
  emitted, final_emitted_by, empty_final_skipped, circuit_opens, reconnects, to_string, to_bool,
  error_message, transcript, on_provider_end, on_results, on_frame, on_frames, emit,
}
use yuzu_agent_webrtc_toy.Stt.Finals.{Input, provides, on_input, run_inputs}
use yuzu_agent_webrtc_toy.Stt.Utterances.{
  forwarded, forwarded-append, forwarded-on_dg_event, final-marks, fresh_final-forwarded,
}

-- A transcript with something in it and no white space around it.
abbrev pub IsHeard : Str → Type 0
IsHeard s = (is_empty s ≡ false) × (trim_space s ≡ s)

-- The transcripts among the events of some outputs are all heard.
abbrev EventIsHeard : DgEvent → Type 0
EventIsHeard (interim s) = IsHeard s
EventIsHeard (final s) = IsHeard s
EventIsHeard (error_event s) = Unit
EventIsHeard reconnected = Unit
EventIsHeard utterance_end = Unit
EventIsHeard speech_started = Unit
EventIsHeard meta = Unit

abbrev pub AllHeard : List Output → Type 0
AllHeard [] = Unit
AllHeard (emitted e ∷ outputs) = EventIsHeard e × AllHeard outputs
AllHeard (final_emitted_by source ∷ outputs) = AllHeard outputs
AllHeard (empty_final_skipped ∷ outputs) = AllHeard outputs
AllHeard (circuit_opens ∷ outputs) = AllHeard outputs
AllHeard (reconnects ∷ outputs) = AllHeard outputs

AllHeard-append : (xs ys : List Output) → AllHeard xs → AllHeard ys → AllHeard (xs ++ ys)
AllHeard-append [] ys h k = k
AllHeard-append (emitted e ∷ xs) ys (p, h) k = (p, AllHeard-append xs ys h k)
AllHeard-append (final_emitted_by source ∷ xs) ys h k = AllHeard-append xs ys h k
AllHeard-append (empty_final_skipped ∷ xs) ys h k = AllHeard-append xs ys h k
AllHeard-append (circuit_opens ∷ xs) ys h k = AllHeard-append xs ys h k
AllHeard-append (reconnects ∷ xs) ys h k = AllHeard-append xs ys h k

-- The texts that a connection keeps are trimmed.
abbrev pub IsTrimmed : DeepgramConn → Type 0
IsTrimmed d =
    (trim_space d.last_text ≡ d.last_text) × (trim_space d.last_final_text ≡ d.last_final_text)

transcript-trimmed : (c : Channel) → trim_space (transcript c) ≡ transcript c
unfolding transcript trim_space
transcript-trimmed no_object = refl
transcript-trimmed no_array = refl
transcript-trimmed (alternatives []) = refl
transcript-trimmed (alternatives (no_members ∷ rest)) = refl
transcript-trimmed (alternatives (members m ∷ rest)) =
    trim_space_idem (to_string (lookup (codes "transcript") m))

-- What a step keeps: trimmed texts, and transcripts that are heard.
pub record Keeps (r : DeepgramConn × List Output) : Type 0 where
  pub trimmed : IsTrimmed r.0
  pub heard : AllHeard r.1

keeps :
    (d : DeepgramConn) (outputs : List Output) → IsTrimmed d → AllHeard outputs → Keeps (d, outputs)
keeps d outputs h k = record { trimmed = h; heard = k }

-- An event that leaves the texts alone.
plain : (d : DeepgramConn) (e : DgEvent) → IsTrimmed d → EventIsHeard e → Keeps (d, emitted e ∷ [])
plain d e h k = keeps d (emitted e ∷ []) h (k, tt)

on_results-Keeps :
    (d : DeepgramConn) (heard : Str) (is_final : Bool)
    → IsTrimmed d
    → trim_space heard ≡ heard
    → Keeps (on_results d heard is_final)
unfolding on_results
on_results-Keeps d [] true (p, q) t = keeps _ _ (p, q) tt
on_results-Keeps d [] false (p, q) t = keeps _ _ (p, q) tt
on_results-Keeps d (c ∷ s) true (p, q) t = keeps _ _ (t, t) ((refl, t), tt)
on_results-Keeps d (c ∷ s) false (p, q) t = keeps _ _ (t, q) ((refl, t), tt)

-- The fallback at the end of an utterance, by the two texts that are kept.
provider_end-Keeps :
    (d : DeepgramConn) (l f : Str)
    → trim_space l ≡ l
    → trim_space f ≡ f
    → Keeps (on_provider_end (record d { last_text = l; last_final_text = f }))
unfolding on_provider_end trim_space
provider_end-Keeps d [] [] p q = keeps _ _ (refl, refl) (tt, tt)
provider_end-Keeps d (c ∷ l) [] p q = keeps _ _ (refl, refl) ((refl, p), (tt, tt))
provider_end-Keeps d l (c ∷ f) p q = keeps _ _ (refl, refl) ((refl, q), (tt, tt))

choose :
    (b : Bool) (x y : DeepgramConn × List Output) → Keeps x → Keeps y → Keeps (if b then x else y)
choose true x y p q = p
choose false x y p q = q

on_frame-Keeps : (d : DeepgramConn) (frame : Frame) → IsTrimmed d → Keeps (on_frame d frame)
unfolding on_frame
on_frame-Keeps d frame h =
    let m = frame.fields in
    let is_final =
      to_bool (lookup (codes "is_final") m) || to_bool (lookup (codes "speech_final") m) in
    choose _ _ _ (plain d (error_event (error_message m)) h tt) (
      choose _ _ _ (plain d meta h tt) (
        choose _ _ _ (provider_end-Keeps d d.last_text d.last_final_text h.0 h.1) (
          choose _ _ _ (plain d speech_started h tt) (
            choose _ _ _
              (on_results-Keeps d (transcript frame.channel) is_final h
                (transcript-trimmed frame.channel))
              (keeps d [] h tt)))))

-- Over any frames of the provider, on a connection whose kept texts are trimmed: they stay so, and every
-- transcript that is emitted for the session, interim or final, the fallback of "UtteranceEnd"
-- included, has something in it and no white space around it.
pub on_frames-AllHeard :
    (d : DeepgramConn) (frames : List Frame) → IsTrimmed d → Keeps (on_frames d frames)
unfolding on_frames
on_frames-AllHeard d [] h = keeps d [] h tt
on_frames-AllHeard d (frame ∷ frames) h =
    let (d', outputs) = on_frame d frame in
    let one = on_frame-Keeps d frame h in
    let rest = on_frames-AllHeard d' frames one.trimmed in
    keeps _ _ rest.trimmed (AllHeard-append outputs (on_frames d' frames).1 one.heard rest.heard)

-- The events for the session among some outputs.
unfoldable pub events : List Output → List DgEvent
events [] = []
events (emitted e ∷ outputs) = e ∷ events outputs
events (final_emitted_by source ∷ outputs) = events outputs
events (empty_final_skipped ∷ outputs) = events outputs
events (circuit_opens ∷ outputs) = events outputs
events (reconnects ∷ outputs) = events outputs

-- Events for a session as they arrive, each at its time.
abbrev pub arrivals : List DgEvent → List Time → List (Input × Time)
arrivals [] times = []
arrivals (e ∷ es) [] = []
arrivals (e ∷ es) (t ∷ times) = (provides e, t) ∷ arrivals es times

-- A frame "Results" with a transcript, final or not, and a frame "UtteranceEnd".
abbrev pub results_frame : Bool → Str → Frame
results_frame is_final heard = record {
  fields = (codes "type", text (codes "Results")) ∷ ((codes "is_final", bool is_final) ∷ []);
  channel = alternatives (members ((codes "transcript", text heard) ∷ []) ∷ []);
}

abbrev pub end_frame : Frame
end_frame = record {
  fields = (codes "type", text (codes "UtteranceEnd")) ∷ [];
  channel = no_object;
}

-- What the connection emits for a final transcript and the end of its utterance: the final twice.
final_and_end :
    (d : DeepgramConn) (heard : Str)
    → is_empty (trim_space heard) ≡ false
    → events (on_frames d (results_frame true heard ∷ (end_frame ∷ []))).1
      ≡ final (trim_space heard) ∷ (final (trim_space heard) ∷ (utterance_end ∷ []))
unfolding events on_frames on_frame on_results on_provider_end transcript to_string to_bool lookup
    equal_fold str_eq
final_and_end d heard h = rw (h, h, h)

-- Through the session, behind an empty queue.
heard_once :
    (l : Limits) (d : DeepgramConn) (s : Session) (heard : Str) (t0 t1 t2 : Time)
    → is_empty (trim_space heard) ≡ false
    → s.final_emitted ≡ false
    → let es = events (on_frames d (results_frame true heard ∷ (end_frame ∷ []))).1 in
      forwarded (run_inputs l s (arrivals es (t0 ∷ (t1 ∷ (t2 ∷ []))))).1
      ≡ (s.utter_id, trim_space heard) ∷ []
unfolding run_inputs on_input forwarded
heard_once l d s heard t0 t1 t2 h fresh =
    let said = trim_space heard in
    let nonblank : is_empty (trim_space said) ≡ false = rw (trim_space_idem heard, h) in
    let (s1, e1) = on_dg_event l s (final said) t0 in
    let (s2, e2) = on_dg_event l s1 (final said) t1 in
    let (s3, e3) = on_dg_event l s2 utterance_end t2 in
    let (marked, kept) = final-marks l s said t0 fresh nonblank in
    let again : forwarded e2 ≡ [] =
      rw (forwarded-on_dg_event l s1 (final said) t1, nonblank, marked, kept, str_eq_refl said) in
    rw (
      final_and_end d heard h,
      forwarded-append e1 (e2 ++ (e3 ++ [])),
      forwarded-append e2 (e3 ++ []),
      forwarded-append e3 [],
      fresh_final-forwarded l s said t0 fresh nonblank,
      again,
      forwarded-on_dg_event l s2 utterance_end t2,
    )

-- Events that are emitted one after the other, on the queue of those that the session has not read yet.
unfoldable pub emit_all : List DgEvent → List DgEvent → List DgEvent
emit_all queue [] = queue
emit_all queue (e ∷ es) = emit_all (emit queue e).0 es

emit_all-room :
    (queue es : List DgEvent) → length queue + length es ≤ 32 → emit_all queue es ≡ queue ++ es
unfolding emit_all emit
emit_all-room [] [] room = refl
emit_all-room (e ∷ queue) [] room = rw (append-nil queue)
emit_all-room queue (e ∷ es) room =
    let fits : ltb (length queue) 32 ≡ true = ground (arith, room) in
    let more : length (queue ++ e ∷ []) + length es ≤ 32 =
      omega (arith, length-append queue (e ∷ []), room) in
    rw (fits, emit_all-room (queue ++ e ∷ []) es more, append_assoc queue (e ∷ []) es)

arrivals-append :
    (es fs : List DgEvent) (ts us : List Time)
    → length ts ≡ length es
    → arrivals (es ++ fs) (ts ++ us) ≡ arrivals es ts ++ arrivals fs us
arrivals-append [] fs [] us e = refl
arrivals-append [] fs (t ∷ ts) us e = ground (arith, e)
arrivals-append (x ∷ es) fs [] us e = ground (arith, e)
arrivals-append (x ∷ es) fs (t ∷ ts) us e =
    let same : length ts ≡ length es = omega (arith, e) in rw (arrivals-append es fs ts us same)

run_inputs-append :
    (l : Limits) (s : Session) (xs ys : List (Input × Time))
    → let (s', es) = run_inputs l s xs in
      (run_inputs l s (xs ++ ys)).1 ≡ es ++ (run_inputs l s' ys).1
unfolding run_inputs
run_inputs-append l s [] ys = refl
run_inputs-append l s ((i, now) ∷ xs) ys =
    let (s', es) = on_input l s i now in
    let (s'', more) = run_inputs l s' xs in
    rw (run_inputs-append l s' xs ys, append_assoc es more (run_inputs l s'' ys).1)

-- A final transcript and the end of its utterance, through the connection, the queue of its events, on
-- which at most 29 others wait that the session reads first, and the session: although the connection
-- emits the text twice, a session that has emitted no final for the utterance when it has read those
-- others forwards it once, trimmed, under the identifier of the utterance that it then has.
pub final_forwarded_once :
    (l : Limits) (d : DeepgramConn) (s : Session) (waiting : List DgEvent) (heard : Str)
    (ts : List Time) (t0 t1 t2 : Time)
    → length waiting ≤ 29
    → length ts ≡ length waiting
    → is_empty (trim_space heard) ≡ false
    → let (s', before) = run_inputs l s (arrivals waiting ts) in
      s'.final_emitted ≡ false
      → let es = events (on_frames d (results_frame true heard ∷ (end_frame ∷ []))).1 in
        forwarded (run_inputs l s (arrivals (emit_all waiting es) (ts ++ t0 ∷ (t1 ∷ (t2 ∷ []))))).1
        ≡ forwarded before ++ (s'.utter_id, trim_space heard) ∷ []
final_forwarded_once l d s waiting heard ts t0 t1 t2 room same h fresh =
    let es = events (on_frames d (results_frame true heard ∷ (end_frame ∷ []))).1 in
    let us = t0 ∷ (t1 ∷ (t2 ∷ [])) in
    let (s', before) = run_inputs l s (arrivals waiting ts) in
    let fits : length waiting + length es ≤ 32 =
      rw (final_and_end d heard h) (omega (arith, room)) in
    rw (
      emit_all-room waiting es fits,
      arrivals-append waiting es ts us same,
      run_inputs-append l s (arrivals waiting ts) (arrivals es us),
      forwarded-append before (run_inputs l s' (arrivals es us)).1,
      heard_once l d s' heard t0 t1 t2 h fresh,
    )
