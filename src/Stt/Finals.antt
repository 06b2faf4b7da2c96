-- ===== src/Stt/Finals.antt =====
-- How many final transcripts internal/stt/session.go forwards, and under which utterance.
use yuzu_agent_webrtc_toy.Prelude.{
  ℕ, ◌+◌, ◌≤◌, ◌≡◌, refl, Bool, true, false, ◌||◌, List, [], ◌∷◌, ◌++◌, arith, if◌then◌else◌,
}
use yuzu_agent_webrtc_toy.Text.{Str, codes, str_eq}
use yuzu_agent_webrtc_toy.Clock.{Time}
use yuzu_agent_webrtc_toy.Stt.Session.{
  Session, DgEvent, interim, final, error_event, reconnected, utterance_end, speech_started, meta,
  Effect, send_interim, send_final, send_error, observe, utterance_event, begin, Limits,
  start_utterance, guardrail, commit_interim, first_interim, on_interim, observe_drain,
  forward_final, new_utterance_id, on_later_final, on_final, on_reconnected, on_utterance_end,
  on_speech_started, on_dg_event, drain,
}

-- What reaches a session: an event of the provider, or a call for its client.
pub data Input : Type 0 where
  provides : DgEvent → Input
  starts : Str → Input
  drains : Input

unfoldable pub on_input : Limits → Session → Input → Time → Session × List Effect
on_input l s (provides e) now = on_dg_event l s e now
on_input l s (starts utter_id) now = (start_utterance s utter_id now, begin utter_id ∷ [])
on_input l s drains now = drain s now

unfoldable pub run_inputs : Limits → Session → List (Input × Time) → Session × List Effect
run_inputs l s [] = (s, [])
run_inputs l s ((i, now) ∷ rest) =
    let (s', es) = on_input l s i now in let (s'', more) = run_inputs l s' rest in (s'', es ++ more)

-- The finals that were forwarded.
unfoldable pub finals : List Effect → ℕ
finals [] = 0
finals (send_final utter_id text ∷ es) = 1 + finals es
finals (send_interim utter_id text ∷ es) = finals es
finals (send_error text ∷ es) = finals es
finals (observe h v ∷ es) = finals es
finals (utterance_event label ∷ es) = finals es
finals (begin utter_id ∷ es) = finals es

-- The beginnings of utterances, and the resets by the provider or by the guardrail.
abbrev is_reset : Str → Bool
is_reset label = str_eq label (codes "utterance_end") || str_eq label (codes "guardrail_reset")

unfoldable pub openings : List Effect → ℕ
openings [] = 0
openings (begin utter_id ∷ es) = 1 + openings es
openings (utterance_event label ∷ es) = (if is_reset label then 1 else 0) + openings es
openings (send_final utter_id text ∷ es) = openings es
openings (send_interim utter_id text ∷ es) = openings es
openings (send_error text ∷ es) = openings es
openings (observe h v ∷ es) = openings es

finals-append : (es fs : List Effect) → finals (es ++ fs) ≡ finals es + finals fs
unfolding finals
finals-append [] fs = omega arith
finals-append (send_final utter_id text ∷ es) fs = omega (arith, finals-append es fs)
finals-append (send_interim utter_id text ∷ es) fs = finals-append es fs
finals-append (send_error text ∷ es) fs = finals-append es fs
finals-append (observe h v ∷ es) fs = finals-append es fs
finals-append (utterance_event label ∷ es) fs = finals-append es fs
finals-append (begin utter_id ∷ es) fs = finals-append es fs

openings-append : (es fs : List Effect) → openings (es ++ fs) ≡ openings es + openings fs
unfolding openings
openings-append [] fs = omega arith
openings-append (send_final utter_id text ∷ es) fs = openings-append es fs
openings-append (send_interim utter_id text ∷ es) fs = openings-append es fs
openings-append (send_error text ∷ es) fs = openings-append es fs
openings-append (observe h v ∷ es) fs = openings-append es fs
openings-append (utterance_event label ∷ es) fs = omega (arith, openings-append es fs)
openings-append (begin utter_id ∷ es) fs = omega (arith, openings-append es fs)

-- A session has room for a final until it has emitted one.
abbrev room : Session → ℕ
room s = if s.final_emitted then 0 else 1

-- What a part of a handler costs: its finals are paid by openings or by the room that was left.
abbrev Pays : Session → Session × List Effect → Type 0
Pays s (s', es) = finals es + room s' ≤ openings es + room s

observe_drain-finals :
    (s : Session) (now : Time)
    → (finals (observe_drain s now) ≡ 0) × (openings (observe_drain s now) ≡ 0)
unfolding finals openings observe_drain
observe_drain-finals s now = ground arith

module _ (l : Limits) (s : Session) (now : Time) where
  guardrail-Pays : Pays s (guardrail l s now)
  unfolding guardrail finals openings str_eq
  guardrail-Pays = ground arith

  commit_interim-Pays : (text : Str) → Pays s (commit_interim l s text now)
  unfolding commit_interim finals openings
  commit_interim-Pays text = ground arith

  first_interim-Pays : Pays s (first_interim s now)
  unfolding first_interim finals openings
  first_interim-Pays = ground arith

  forward_final-Pays : (text : Str) → s.final_emitted ≡ false → Pays s (forward_final s text now)
  unfolding forward_final finals openings
  forward_final-Pays text fresh =
      let (f, o) = observe_drain-finals s now in
      let sent = send_final s.utter_id text ∷ [] in
      ground (
        arith,
        finals-append (observe_drain s now) sent,
        openings-append (observe_drain s now) sent,
        f,
        o,
      )

-- The costs of two parts in a row add up.
Pays-append :
    (s t u : Session) (es fs : List Effect) → Pays s (t, es) → Pays t (u, fs) → Pays s (u, es ++ fs)
Pays-append s t u es fs p q = omega (arith, finals-append es fs, openings-append es fs)

sent_interim-Pays : (w : Session) (id text : Str) → Pays w (w, send_interim id text ∷ [])
unfolding finals openings
sent_interim-Pays w id text = ground arith

begin-Pays :
    (s : Session) (id : Str) (now : Time) → Pays s (start_utterance s id now, begin id ∷ [])
unfolding start_utterance finals openings
begin-Pays s id now = ground arith

start_utterance-fresh :
    (s : Session) (id : Str) (now : Time) → (start_utterance s id now).final_emitted ≡ false
unfolding start_utterance
start_utterance-fresh s id now = refl

module _ (l : Limits) (s : Session) (now : Time) where
  on_interim-Pays : (text : Str) → Pays s (on_interim l s text now)
  unfolding on_interim
  on_interim-Pays text =
      let (t, reset) = guardrail l s now in
      let (u, begun) = commit_interim l t text now in
      let v = record u { last_interim = text; last_interim_at = now } in
      let (w, seen) = first_interim v now in
      let sent = send_interim w.utter_id text ∷ [] in
      Pays-append s t w reset (begun ++ (seen ++ sent)) (guardrail-Pays l s now) (
        Pays-append t u w begun (seen ++ sent) (commit_interim-Pays l t now text) (
          Pays-append v w w seen sent (first_interim-Pays l v now)
            (sent_interim-Pays w w.utter_id text)))

  on_later_final-Pays : (text : Str) → s.final_emitted ≡ true → Pays s (on_later_final l s text now)
  unfolding on_later_final finals openings
  on_later_final-Pays text e =
      let id = new_utterance_id now in
      let t = start_utterance s id now in
      let (t', es) = forward_final t text now in
      let rolled =
        Pays-append s t t' (begin id ∷ []) es (begin-Pays s id now)
          (forward_final-Pays l t now text (start_utterance-fresh s id now)) in
      ground (arith, rolled)

  on_final-Pays : (text : Str) → Pays s (on_final l s text now)
  unfolding on_final finals openings
  on_final-Pays text = ground (arith, on_later_final-Pays text, forward_final-Pays l s now text)

  on_dg_event-Pays : (e : DgEvent) → Pays s (on_dg_event l s e now)
  unfolding on_dg_event on_reconnected on_utterance_end on_speech_started finals openings str_eq
  on_dg_event-Pays (interim text) = on_interim-Pays text
  on_dg_event-Pays (final text) = on_final-Pays text
  on_dg_event-Pays (error_event text) = ground arith
  on_dg_event-Pays reconnected = ground arith
  on_dg_event-Pays utterance_end = ground arith
  on_dg_event-Pays speech_started = ground arith
  on_dg_event-Pays meta = ground arith

  drain-Pays : Pays s (drain s now)
  unfolding drain finals openings
  drain-Pays =
      let (f, o) = observe_drain-finals (record s { last_act = now; drain_at = now }) now in
      ground (arith, f, o)

  on_input-Pays : (i : Input) → Pays s (on_input l s i now)
  unfolding on_input start_utterance finals openings
  on_input-Pays (provides e) = on_dg_event-Pays e
  on_input-Pays (starts utter_id) = ground arith
  on_input-Pays drains = drain-Pays

-- Over any events of the provider and any calls for the client: the finals that are forwarded are at
-- most one more than the beginnings of utterances and the resets by the provider and the guardrail
-- together, and not even one more where a final was emitted already.
pub finals_bounded :
    (l : Limits) (s : Session) (inputs : List (Input × Time))
    → finals (run_inputs l s inputs).1
      ≤ openings (run_inputs l s inputs).1 + (if s.final_emitted then 0 else 1)
unfolding run_inputs finals openings
finals_bounded l s [] = ground arith
finals_bounded l s ((i, now) ∷ rest) =
    let (s', es) = on_input l s i now in
    let more = (run_inputs l s' rest).1 in
    omega (
      arith,
      finals-append es more,
      openings-append es more,
      on_input-Pays l s now i,
      finals_bounded l s' rest,
    )
