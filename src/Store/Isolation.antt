-- ===== src/Store/Isolation.antt =====
-- internal/store/store.go for one session: what the store has of it, and which operations leave that.
use yuzu_agent_webrtc_toy.Prelude.{
  ◌≡◌, refl, ◌∙◌, Bool, true, false, List, [], Option, some, arith, Option-cases, inl, inr,
}
use yuzu_agent_webrtc_toy.Prelude.Int.{ℤ}
use yuzu_agent_webrtc_toy.Text.{Str, str_eq}
use yuzu_agent_webrtc_toy.Maps.{lookup, insert, lookup-insert, lookup-insert_self}
use yuzu_agent_webrtc_toy.Clock.{Time}
use yuzu_agent_webrtc_toy.Json.{Payload}
use yuzu_agent_webrtc_toy.Bot.{is_some}
use yuzu_agent_webrtc_toy.Store.{
  Event, Session, WorkerState, Store, create_session, append_event, set_bot_running, set_bot_pid,
  set_bot_exit, set_local_stop_capable, set_local_stop_enabled, list_events,
}
use yuzu_agent_webrtc_toy.Store.Log.{IsCapped, append_event-IsCapped, create_session-IsCapped}

-- What the store has of a session.
pub record Stored : Type 0 where
  pub session : Option Session
  pub events : Option (List Event)
  pub running : Option Bool
  pub worker : Option WorkerState

unfoldable pub stored : Str → Store → Stored
stored j s = record {
  session = lookup j s.sessions;
  events = lookup j s.events;
  running = lookup j s.bot_running;
  worker = lookup j s.worker_state;
}

unfoldable pub is_known : Store → Str → Bool
is_known s id = is_some (lookup id s.sessions)

-- An operation on a session leaves the others.
module _ (s : Store) (id j : Str) (other : str_eq id j ≡ false) where
  pub stored-append_event :
      (typ : Str) (payload : Payload) (now : Time)
      → stored j (append_event s id typ payload now).0 ≡ stored j s
  unfolding stored append_event
  stored-append_event typ payload now = rw (lookup-insert id j, other) refl

  pub stored-set_bot_running : (b : Bool) → stored j (set_bot_running s id b) ≡ stored j s
  unfolding stored set_bot_running
  stored-set_bot_running b = rw (lookup-insert id j, other) refl

  pub stored-set_local_stop_capable :
      (b : Bool) → stored j (set_local_stop_capable s id b) ≡ stored j s
  unfolding stored set_local_stop_capable
  stored-set_local_stop_capable b = rw (lookup-insert id j, other) refl

  pub stored-set_local_stop_enabled :
      (b : Bool) → stored j (set_local_stop_enabled s id b) ≡ stored j s
  unfolding stored set_local_stop_enabled
  stored-set_local_stop_enabled b = rw (lookup-insert id j, other) refl

  pub stored-set_bot_pid : (pid : ℤ) → stored j (set_bot_pid s id pid) ≡ stored j s
  unfolding stored set_bot_pid
  stored-set_bot_pid pid = elim (Option-cases (lookup id s.sessions)) [
    | inl e ↦ rw e refl
    | inr (sess, e) ↦ rw (e, lookup-insert id j, other) refl
  ]

  pub stored-set_bot_exit :
      (code : ℤ) (at : Time) → stored j (set_bot_exit s id code at) ≡ stored j s
  unfolding stored set_bot_exit
  stored-set_bot_exit code at = elim (Option-cases (lookup id s.sessions)) [
    | inl e ↦ rw e refl
    | inr (sess, e) ↦ rw (e, lookup-insert id j, other) refl
  ]

-- `t` has every session that `s` has, differs from it in the session `id` only, and its logs are within
-- the cap if those of `s` are.
pub record Only (id : Str) (s t : Store) : Type 0 where
  pub others : (j : Str) → str_eq id j ≡ false → stored j t ≡ stored j s
  pub kept : is_known s id ≡ true → is_known t id ≡ true
  pub capped : IsCapped s → IsCapped t

pub same-Only : (id : Str) (s : Store) → Only id s s
same-Only id s = record { others = λ j other. refl; kept = λ h. h; capped = λ h. h }

pub both-Only : {id : Str} {s t u : Store} → Only id s t → Only id t u → Only id s u
both-Only f g = record {
  others = λ j other. g.others j other ∙ f.others j other;
  kept = λ h. g.kept (f.kept h);
  capped = λ h. g.capped (f.capped h);
}

module _ (s : Store) (id : Str) where
  pub append_event-Only :
      (typ : Str) (payload : Payload) (now : Time) → Only id s (append_event s id typ payload now).0
  unfolding append_event is_known
  append_event-Only typ payload now = record {
    others = λ j other. stored-append_event s id j other typ payload now;
    kept = λ h. h;
    capped = append_event-IsCapped s id typ payload now;
  }

  pub set_bot_running-Only : (b : Bool) → Only id s (set_bot_running s id b)
  unfolding set_bot_running is_known list_events
  set_bot_running-Only b = record {
    others = λ j other. stored-set_bot_running s id j other b;
    kept = λ h. h;
    capped = λ h. h;
  }

  pub set_local_stop_capable-Only : (b : Bool) → Only id s (set_local_stop_capable s id b)
  unfolding set_local_stop_capable is_known list_events
  set_local_stop_capable-Only b = record {
    others = λ j other. stored-set_local_stop_capable s id j other b;
    kept = λ h. h;
    capped = λ h. h;
  }

  pub set_local_stop_enabled-Only : (b : Bool) → Only id s (set_local_stop_enabled s id b)
  unfolding set_local_stop_enabled is_known list_events
  set_local_stop_enabled-Only b = record {
    others = λ j other. stored-set_local_stop_enabled s id j other b;
    kept = λ h. h;
    capped = λ h. h;
  }

  pub set_bot_pid-Only : (pid : ℤ) → Only id s (set_bot_pid s id pid)
  unfolding set_bot_pid is_known list_events
  set_bot_pid-Only pid = record {
    others = λ j other. stored-set_bot_pid s id j other pid;
    kept = elim (Option-cases (lookup id s.sessions)) [
      | inl e ↦ rw e (λ h. rw e h)
      | inr (sess, e) ↦ rw (e, lookup-insert_self id) (λ h. refl)
    ];
    capped = elim (Option-cases (lookup id s.sessions)) [
      | inl e ↦ rw e (λ h. h)
      | inr (sess, e) ↦ rw e (λ h. h)
    ];
  }

  pub set_bot_exit-Only : (code : ℤ) (at : Time) → Only id s (set_bot_exit s id code at)
  unfolding set_bot_exit is_known list_events
  set_bot_exit-Only code at = record {
    others = λ j other. stored-set_bot_exit s id j other code at;
    kept = elim (Option-cases (lookup id s.sessions)) [
      | inl e ↦ rw e (λ h. rw e h)
      | inr (sess, e) ↦ rw (e, lookup-insert_self id) (λ h. refl)
    ];
    capped = elim (Option-cases (lookup id s.sessions)) [
      | inl e ↦ rw e (λ h. h)
      | inr (sess, e) ↦ rw e (λ h. h)
    ];
  }

-- A session that was created is known.
pub create_session-Only :
    (s t : Store) (session : Session)
    → create_session s session ≡ some t
    → Only session.id s t × (is_known t session.id ≡ true)
unfolding create_session is_known stored
create_session-Only s t session h = elim (Option-cases (lookup session.id s.sessions)) [
  | inl e ↦
      let sessions : t.sessions ≡ insert session.id session s.sessions = ground (arith, e, h) in
      let events : t.events ≡ insert session.id [] s.events = ground (arith, e, h) in
      let running : t.bot_running ≡ s.bot_running = ground (arith, e, h) in
      let worker : t.worker_state ≡ s.worker_state = ground (arith, e, h) in
      let known : is_some (lookup session.id t.sessions) ≡ true =
        rw (sessions, lookup-insert_self session.id) refl in
      (
        record {
          others = λ j other.
              rw
                (
                  sessions,
                  events,
                  running,
                  worker,
                  lookup-insert session.id j session s.sessions,
                  lookup-insert session.id j [] s.events,
                  other,
                )
                refl;
          kept = λ k. known;
          capped = λ capped. create_session-IsCapped s t session capped h;
        },
        known,
      )
  | inr (old, e) ↦ ground (arith, e, h)
]
