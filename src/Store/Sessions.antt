-- ===== src/Store/Sessions.antt =====
-- The sessions of internal/store/store.go along any sequence of operations.
use yuzu_agent_webrtc_toy.Prelude.{
  ◌≡◌, refl, Bool, List, [], ◌∷◌, inl, inr, Option, none, some, arith, Bool-cases, Option-cases,
}
use yuzu_agent_webrtc_toy.Prelude.Int.{ℤ}
use yuzu_agent_webrtc_toy.Text.{Str, str_eq, str_eq_iff}
use yuzu_agent_webrtc_toy.Maps.{lookup, insert, lookup-insert}
use yuzu_agent_webrtc_toy.Clock.{Time}
use yuzu_agent_webrtc_toy.Json.{Payload}
use yuzu_agent_webrtc_toy.Store.{
  Store, Session, new_store, create_session, get_session, append_event, list_events,
  set_bot_running, set_bot_pid, set_bot_exit, set_local_stop_capable, set_local_stop_enabled,
}
use yuzu_agent_webrtc_toy.Store.Log.{
  IsCapped, new_store-IsCapped, append_event-IsCapped, create_session-IsCapped,
}

-- A call of a method that writes.
pub data Call : Type 0 where
  creates : Session → Call
  appends : Str → Str → Payload → Call
  sets_bot_running : Str → Bool → Call
  sets_bot_pid : Str → ℤ → Call
  sets_bot_exit : Str → ℤ → Time → Call
  sets_capable sets_enabled : Str → Bool → Call

-- A refused creation leaves the store as it was.
abbrev or_same : Store → Option Store → Store
or_same s none = s
or_same s (some t) = t

unfoldable pub call : Store → Call → Time → Store
call s (creates session) now = or_same s (create_session s session)
call s (appends id typ p) now = (append_event s id typ p now).0
call s (sets_bot_running id running) now = set_bot_running s id running
call s (sets_bot_pid id pid) now = set_bot_pid s id pid
call s (sets_bot_exit id code at) now = set_bot_exit s id code at
call s (sets_capable id b) now = set_local_stop_capable s id b
call s (sets_enabled id b) now = set_local_stop_enabled s id b

unfoldable pub calls : Store → List (Call × Time) → Store
calls s [] = s
calls s ((c, now) ∷ cs) = calls (call s c now) cs

events-set_bot_pid : (s : Store) (id : Str) (pid : ℤ) → (set_bot_pid s id pid).events ≡ s.events
unfolding set_bot_pid
events-set_bot_pid s id pid = ground arith

events-set_bot_exit :
    (s : Store) (id : Str) (code : ℤ) (at : Time) → (set_bot_exit s id code at).events ≡ s.events
unfolding set_bot_exit
events-set_bot_exit s id code at = ground arith

same_events-IsCapped : (s t : Store) → t.events ≡ s.events → IsCapped s → IsCapped t
unfolding list_events
same_events-IsCapped s t e capped k = rw e (capped k)

call-IsCapped : (s : Store) (c : Call) (now : Time) → IsCapped s → IsCapped (call s c now)
unfolding call set_bot_running set_local_stop_capable set_local_stop_enabled
call-IsCapped s (creates session) now capped = elim (Option-cases (create_session s session)) [
  | inl e ↦ rw e capped
  | inr (t, e) ↦ rw e (create_session-IsCapped s t session capped e)
]
call-IsCapped s (appends id typ p) now capped = append_event-IsCapped s id typ p now capped
call-IsCapped s (sets_bot_running id running) now capped = same_events-IsCapped s _ refl capped
call-IsCapped s (sets_bot_pid id pid) now capped =
    same_events-IsCapped s _ (events-set_bot_pid s id pid) capped
call-IsCapped s (sets_bot_exit id code at) now capped =
    same_events-IsCapped s _ (events-set_bot_exit s id code at) capped
call-IsCapped s (sets_capable id b) now capped = same_events-IsCapped s _ refl capped
call-IsCapped s (sets_enabled id b) now capped = same_events-IsCapped s _ refl capped

calls_from-IsCapped : (s : Store) (cs : List (Call × Time)) → IsCapped s → IsCapped (calls s cs)
unfolding calls
calls_from-IsCapped s [] capped = capped
calls_from-IsCapped s ((c, now) ∷ cs) capped =
    calls_from-IsCapped (call s c now) cs (call-IsCapped s c now capped)

-- After any calls on a new store, no session's log holds more than 200 events.
pub calls-IsCapped : (cs : List (Call × Time)) → IsCapped (calls new_store cs)
calls-IsCapped cs = calls_from-IsCapped new_store cs new_store-IsCapped

-- What is fixed when a session is created.
abbrev pub SameIdentity : Session → Session → Type 0
SameIdentity x y =
    (y.id ≡ x.id)
    × (y.room_name ≡ x.room_name)
    × (y.room_url ≡ x.room_url)
    × (y.bot_token ≡ x.bot_token)
    × (y.created_at ≡ x.created_at)

-- The session of a key is still there, with its identity.
abbrev pub Survives : Str → Session → Store → Type 0
Survives k x s = (y : Session) × (get_session s k ≡ some y) × SameIdentity x y

create_session-Survives :
    (s t : Store) (k : Str) (x session : Session)
    → create_session s session ≡ some t
    → Survives k x s
    → Survives k x t
unfolding create_session get_session
create_session-Survives s t k x session e (y, found, same) = (
  y,
  ground (arith, lookup-insert session.id k session s.sessions, str_eq_iff session.id k),
  same,
)

-- A write to a session that keeps its identity.
insert-Survives :
    (s : Store) (k id : Str) (x old new : Session)
    → lookup id s.sessions ≡ some old
    → SameIdentity old new
    → Survives k x s
    → Survives k x (record s { sessions = insert id new s.sessions })
unfolding get_session
insert-Survives s k id x old new was same (y, found, kept) = elim (Bool-cases (str_eq id k)) [
  | inl e ↦ (new, rw (lookup-insert, e) refl, ground (arith, str_eq_iff id k))
  | inr e ↦ (y, rw (lookup-insert, e) found, kept)
]

set_bot_pid-Survives :
    (s : Store) (k id : Str) (x : Session) (pid : ℤ)
    → Survives k x s
    → Survives k x (set_bot_pid s id pid)
unfolding set_bot_pid
set_bot_pid-Survives s k id x pid h = elim (Option-cases (lookup id s.sessions)) [
  | inl e ↦ rw (e, set_bot_pid) h
  | inr (old, e) ↦
      rw (e, set_bot_pid) (insert-Survives s k id x old _ e (refl, refl, refl, refl, refl) h)
]

set_bot_exit-Survives :
    (s : Store) (k id : Str) (x : Session) (code : ℤ) (at : Time)
    → Survives k x s
    → Survives k x (set_bot_exit s id code at)
unfolding set_bot_exit
set_bot_exit-Survives s k id x code at h = elim (Option-cases (lookup id s.sessions)) [
  | inl e ↦ rw (e, set_bot_exit) h
  | inr (old, e) ↦
      rw (e, set_bot_exit) (insert-Survives s k id x old _ e (refl, refl, refl, refl, refl) h)
]

call-Survives :
    (s : Store) (k : Str) (x : Session) (c : Call) (now : Time)
    → Survives k x s
    → Survives k x (call s c now)
unfolding call append_event set_bot_running set_local_stop_capable set_local_stop_enabled
    get_session
call-Survives s k x (creates session) now h = elim (Option-cases (create_session s session)) [
  | inl e ↦ rw e h
  | inr (t, e) ↦ rw e (create_session-Survives s t k x session e h)
]
call-Survives s k x (appends id typ p) now h = h
call-Survives s k x (sets_bot_running id running) now h = h
call-Survives s k x (sets_bot_pid id pid) now h = set_bot_pid-Survives s k id x pid h
call-Survives s k x (sets_bot_exit id code at) now h = set_bot_exit-Survives s k id x code at h
call-Survives s k x (sets_capable id b) now h = h
call-Survives s k x (sets_enabled id b) now h = h

-- A session that the store has is never lost or replaced: after any calls its key still holds a
-- session with the same id, room, bot token and creation time.
pub session-Survives :
    (s : Store) (k : Str) (x : Session) (cs : List (Call × Time))
    → Survives k x s
    → Survives k x (calls s cs)
unfolding calls
session-Survives s k x [] h = h
session-Survives s k x ((c, now) ∷ cs) h =
    session-Survives (call s c now) k x cs (call-Survives s k x c now h)
