-- ===== src/Store/Log.antt =====
-- The event log of internal/store/store.go: its cap, what it keeps, and what it forgets.
use yuzu_agent_webrtc_toy.Prelude.{
  ℕ, zero, suc, ◌-◌, ◌≤◌, ◌<◌, ◌≡◌, refl, false, List, [], ◌∷◌, ◌++◌, inl, inr, some, arith,
  Bool-cases, length, drop, if◌then◌else◌, length-append, length-drop, ◌==◌, ==_iff,
}
use mathlib.Core.List.{append_assoc}
use yuzu_agent_webrtc_toy.Text.{Str, str_eq}
use yuzu_agent_webrtc_toy.Maps.{lookup, insert, lookup-insert}
use yuzu_agent_webrtc_toy.Clock.{Time}
use yuzu_agent_webrtc_toy.Json.{Payload}
use yuzu_agent_webrtc_toy.Store.{
  Store, Event, max_events, truncation_warning, cap_events, append_event, list_events, new_store,
  Session, create_session,
}

cap_events-le :
    (id : Str) (now : Time) (log : List Event) → length (cap_events id now log) ≤ max_events
unfolding cap_events
cap_events-le id now log = ground (
  arith,
  length-append (drop (length log - 199) log)
      (truncation_warning id (length log - 199) 199 now ∷ []),
  length-drop (length log - 199) log,
)

-- The log after an append, read back.
list_events-append_event :
    (s : Store) (id k typ : Str) (p : Payload) (now : Time)
    → list_events (append_event s id typ p now).0 k ≡ (
        if str_eq id k
        then cap_events id now (list_events s id ++ (append_event s id typ p now).1 ∷ [])
        else list_events s k)
unfolding list_events append_event
list_events-append_event s id k typ p now = elim (Bool-cases (str_eq id k)) [
  | inl e ↦ rw (lookup-insert, e) refl
  | inr e ↦ rw (lookup-insert, e) refl
]

-- No log is longer than the cap.
abbrev pub IsCapped : Store → Type 0
IsCapped s = (k : Str) → length (list_events s k) ≤ max_events

pub new_store-IsCapped : IsCapped new_store
unfolding new_store list_events lookup
new_store-IsCapped k = omega arith

pub append_event-IsCapped :
    (s : Store) (id typ : Str) (p : Payload) (now : Time)
    → IsCapped s
    → IsCapped (append_event s id typ p now).0
append_event-IsCapped s id typ p now capped k =
    let evt = (append_event s id typ p now).1 in
    let le = cap_events-le id now (list_events s id ++ evt ∷ []) in
    elim (Bool-cases (str_eq id k)) [
      | inl e ↦ rw (list_events-append_event, e) le
      | inr e ↦ rw (list_events-append_event, e) (capped k)
    ]

created :
    (s t : Store) (session : Session)
    → create_session s session ≡ some t
    → t.events ≡ insert session.id [] s.events
unfolding create_session
created s t session e = ground arith

pub create_session-IsCapped :
    (s t : Store) (session : Session) → IsCapped s → create_session s session ≡ some t → IsCapped t
unfolding create_session list_events
create_session-IsCapped s t session capped e k =
    rw (created s t session e) (elim (Bool-cases (str_eq session.id k)) [
      | inl same ↦ rw (lookup-insert, same) (omega arith)
      | inr other ↦ rw (lookup-insert, other) (capped k)
    ])

below :
    (log : List Event)
    → length log ≤ max_events
    → (length log == max_events) ≡ false
    → length log < max_events
below log le ne = ground arith

-- What an append does to the log of its session: below the cap the event goes to the end; at the cap
-- the two oldest events make room for it and for a warning behind it.
cap_events_below :
    (id : Str) (now : Time) (log : List Event) (evt : Event)
    → length log < max_events
    → cap_events id now (log ++ evt ∷ []) ≡ log ++ evt ∷ []
unfolding cap_events
cap_events_below id now log evt h = ground (arith, length-append log (evt ∷ []))

drop-append : (n : ℕ) (xs ys : List Event) → n ≤ length xs → drop n (xs ++ ys) ≡ drop n xs ++ ys
drop-append zero xs ys h = refl
drop-append (suc n) [] ys h = elim h [ ]
drop-append (suc n) (x ∷ xs) ys h = drop-append n xs ys (omega arith)

cap_events_full :
    (id : Str) (now : Time) (log : List Event) (evt : Event)
    → length log ≡ max_events
    → cap_events id now (log ++ evt ∷ [])
      ≡ drop 2 log ++ (evt ∷ truncation_warning id 2 199 now ∷ [])
unfolding cap_events
cap_events_full id now log evt h =
    let grown : length (log ++ evt ∷ []) ≡ 201 = omega (arith, length-append log (evt ∷ []), h) in
    let warning = truncation_warning id 2 199 now ∷ [] in
    rw grown (
      rw (drop-append 2 log (evt ∷ []) (omega (arith, h)))
        (append_assoc (drop 2 log) (evt ∷ []) warning))

-- The log of a session after an append, on every branch, and the logs of the others: below the cap the
-- event goes to the end; at the cap the two oldest events are dropped, for it and for a warning.
pub append_event-log :
    (s : Store) (id k typ : Str) (p : Payload) (now : Time)
    → IsCapped s
    → let (t, evt) = append_event s id typ p now in
      list_events t k ≡ (
        if str_eq id k
        then if length (list_events s id) == max_events
          then drop 2 (list_events s id) ++ (evt ∷ truncation_warning id 2 199 now ∷ [])
          else list_events s id ++ evt ∷ []
        else list_events s k)
append_event-log s id k typ p now capped =
    let evt = (append_event s id typ p now).1 in
    let log = list_events s id in
    rw list_events-append_event (elim (Bool-cases (str_eq id k)) [
      | inr e ↦ rw e
      | inl e ↦ rw e (elim (Bool-cases (length log == max_events)) [
        | inl full ↦
            rw full (cap_events_full id now log evt ((==_iff (length log) max_events).0 full))
        | inr room ↦ rw room (cap_events_below id now log evt (below log (capped id) room))
      ])
    ])
