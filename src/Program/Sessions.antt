-- ===== src/Program/Sessions.antt =====
-- What holds in any run of cmd/server: it has nothing of a session that was not created.
use yuzu_agent_webrtc_toy.Prelude.{
  length, ◌≤◌, ℕ, ◌<◌, ◌≡◌, ◌≢◌, ◌⊎◌, inl, inr, refl, ap, subst, ◌∙◌, sym, true, false, [], Option,
  none, arith, Bool-cases,
}
use yuzu_agent_webrtc_toy.Prelude.Int.{ℤ}
use yuzu_agent_webrtc_toy.Text.{Str, str_eq, str_eq_iff}
use yuzu_agent_webrtc_toy.Maps.{lookup}
use yuzu_agent_webrtc_toy.Clock.{Time}
use yuzu_agent_webrtc_toy.Auth.{Crypto}
use yuzu_agent_webrtc_toy.Store.{Store, get_session, new_store, list_events, max_events}
use yuzu_agent_webrtc_toy.Store.Log.{new_store-IsCapped}
use yuzu_agent_webrtc_toy.Store.Isolation.{stored, is_known}
use yuzu_agent_webrtc_toy.Bot.{new_local_runner}
use yuzu_agent_webrtc_toy.Bot.Processes.{count}
use yuzu_agent_webrtc_toy.Bot.Isolation.{ran}
use yuzu_agent_webrtc_toy.WorkerWs.{
  WorkerConfig, Admission, admitted, bad_request, not_found, unauthorized, admit, is_some,
}
use yuzu_agent_webrtc_toy.WorkerWs.Connections.{admit-MayConnect}
use yuzu_agent_webrtc_toy.Api.{Config}
use yuzu_agent_webrtc_toy.Api.Sessions.{
  handle_start_session, start_known, handle_end_session, end_known,
}
use yuzu_agent_webrtc_toy.Api.Dev.{dev_authorized, handle_debug_vad, debug_known}
use yuzu_agent_webrtc_toy.Api.Isolation.{handle_create_session-known}
use yuzu_agent_webrtc_toy.Program.{
  Program, new_program, backend, on_admission, on_debug_vad, Action, connects, reads, creates,
  starts, ends, debug_vad, bot_exits, bot_logs, step,
}
use yuzu_agent_webrtc_toy.Program.Isolation.{View, view, session_of, step-Affects}

-- A handler reads once it has started, a process that lives can exit, and a session whose bot was
-- started once can have lines of its output, also after its exit.
abbrev pub Enabled : Program → Action → Type 0
Enabled p (connects session_id authz conn) = Unit
Enabled p (reads session_id read write cmd_id) =
    (is_some (lookup session_id p.ws.last_seq) ≡ true) × (cmd_id ≢ [])
Enabled p (creates daily id) = Unit
Enabled p (starts req id launch) = Unit
Enabled p (ends id) = Unit
Enabled p (debug_vad req id typ cmd_id) = cmd_id ≢ []
Enabled p (bot_exits id err) = 0 < count id p.runner.alive
Enabled p (bot_logs id stream line) = is_some (lookup id p.ws.store.bot_running) ≡ true

pub data Reach (c : Crypto) (p : Program) : Program → Type 0 where
  here : Reach c p p
  next :
      {q : Program}
      → Reach c p q
      → (a : Action) → (now : Time) → Enabled q a
      → Reach c p (step c q a now).0

-- Nothing.
abbrev pub no_view : View
no_view = record {
  stored = record { session = none; events = none; running = none; worker = none };
  ran = record { proc = none; starting = 0; alive = 0 };
  conn = none;
  last_seq = none;
  floor = none;
}

-- The program has nothing of a session that its store does not have.
abbrev pub IsTidy : Program → Type 0
IsTidy p = (j : Str) → is_known p.ws.store j ≡ false → view j p ≡ no_view

new_program-IsTidy :
    (cfg : Config) (ws_cfg : WorkerConfig) (timeout_sec : ℤ) (worker_cmd : Str)
    → IsTidy (new_program cfg ws_cfg timeout_sec worker_cmd)
unfolding new_program new_store new_local_runner view stored ran count lookup
new_program-IsTidy cfg ws_cfg timeout_sec worker_cmd j h = refl

known-view :
    (p q : Program) (j : Str) → view j q ≡ view j p → is_known q.ws.store j ≡ is_known p.ws.store j
unfolding view stored is_known
known-view p q j e = ap (λ v. is_some v.stored.session) e

unknown-none : (s : Store) (id : Str) → is_known s id ≡ false → get_session s id ≡ none
unfolding is_known get_session
unknown-none s id h = ground (arith, h)

-- Without an admission nothing changes.
pub on_admission-refused :
    (p : Program) (a : Admission) (conn : Option ℕ) (now : Time)
    → ((sid : Str) → a ≢ admitted sid)
    → on_admission p a conn now ≡ p
unfolding on_admission
on_admission-refused p (admitted sid) conn now h = elim (h sid refl) [ ]
on_admission-refused p bad_request conn now h = refl
on_admission-refused p not_found conn now h = refl
on_admission-refused p unauthorized conn now h = refl

-- A step for a session that is not known leaves the program as it is, or creates that session.
module _ (c : Crypto) (p : Program) (now : Time) (tidy : IsTidy p) where
  not_admitted :
      (id authz sid : Str)
      → is_known p.ws.store id ≡ false
      → admit c p.ws id authz now ≢ admitted sid
  not_admitted id authz sid h e =
      let known = (admit-MayConnect c p.ws id authz sid now e).1.known in
      ground (arith, unknown-none p.ws.store id h, known)

  not_read : (id : Str) → is_known p.ws.store id ≡ false → lookup id p.ws.last_seq ≡ none
  unfolding view
  not_read id h = ap (λ v. v.last_seq) (tidy id h)

  not_alive : (id : Str) → is_known p.ws.store id ≡ false → count id p.runner.alive ≡ 0
  unfolding view ran
  not_alive id h = ap (λ v. v.ran.alive) (tidy id h)

  not_started :
      (id : Str) → is_known p.ws.store id ≡ false → lookup id p.ws.store.bot_running ≡ none
  unfolding view stored
  not_started id h = ap (λ v. v.stored.running) (tidy id h)

  step-unknown :
      (a : Action)
      → Enabled p a
      → is_known p.ws.store (session_of a) ≡ false
      → ((step c p a now).0 ≡ p) ⊎ (is_known (step c p a now).0.ws.store (session_of a) ≡ true)
  unfolding step session_of handle_start_session handle_end_session handle_debug_vad on_debug_vad
      start_known end_known debug_known
  step-unknown (connects id authz conn) enabled h = inl (
      on_admission-refused p (admit c p.ws id authz now) conn now
        (λ sid. not_admitted id authz sid h))
  step-unknown (reads id read write cmd_id) enabled h = ground (arith, not_read id h, enabled.0)
  step-unknown (creates daily id) enabled h =
      elim (handle_create_session-known p.cfg daily (backend p) id now) [
        | inl same ↦ inl (rw same refl)
        | inr known ↦ inr known
      ]
  step-unknown (starts req id launch) enabled h = rw (unknown-none p.ws.store id h) (inl refl)
  step-unknown (ends id) enabled h = rw (unknown-none p.ws.store id h) (inl refl)
  step-unknown (debug_vad req id typ cmd_id) enabled h =
      rw (unknown-none p.ws.store id h) (elim (Bool-cases (dev_authorized p.cfg req)) [
        | inl e ↦ rw e (inl refl)
        | inr e ↦ rw e (inl refl)
      ])
  step-unknown (bot_exits id err) enabled h = ground (arith, not_alive id h, enabled)
  step-unknown (bot_logs id stream line) enabled h = ground (arith, not_started id h, enabled)

  own_view :
      (a : Action)
      → Enabled p a
      → is_known (step c p a now).0.ws.store (session_of a) ≡ false
      → view (session_of a) (step c p a now).0 ≡ no_view
  own_view a enabled h = elim (Bool-cases (is_known p.ws.store (session_of a))) [
    | inl was ↦ ground (arith, (step-Affects c p a now).kept was, h)
    | inr was ↦ elim (step-unknown a enabled was) [
      | inl same ↦ ap (view (session_of a)) same ∙ tidy (session_of a) was
      | inr known ↦ ground (arith, known, h)
    ]
  ]

  step-IsTidy : (a : Action) → Enabled p a → IsTidy (step c p a now).0
  step-IsTidy a enabled j h =
      let q = (step c p a now).0 in
      let f = step-Affects c p a now in
      elim (Bool-cases (str_eq (session_of a) j)) [
        | inl same ↦
            subst (λ (x : Str). is_known q.ws.store x ≡ false → view x q ≡ no_view)
              ((str_eq_iff (session_of a) j).0 same) (own_view a enabled) h
        | inr other ↦ f.others j other ∙ tidy j (sym (known-view p q j (f.others j other)) ∙ h)
      ]

module _ (c : Crypto) (cfg : Config) (ws_cfg : WorkerConfig) (timeout_sec : ℤ)
    (worker_cmd : Str) where
  IsTidy-reach :
      {p : Program} → Reach c (new_program cfg ws_cfg timeout_sec worker_cmd) p → IsTidy p
  IsTidy-reach here = new_program-IsTidy cfg ws_cfg timeout_sec worker_cmd
  IsTidy-reach (next {q} reach a now enabled) = step-IsTidy c q now (IsTidy-reach reach) a enabled

-- In any run of the backend from its start, a session that its store does not have is one of which it has
-- nothing: no log, no flag, no connection, no sequence number, no state of the floor and no process.
pub nothing_of_unknown :
    (c : Crypto) (cfg : Config) (ws_cfg : WorkerConfig) (timeout_sec : ℤ) (worker_cmd : Str)
    (p : Program)
    → Reach c (new_program cfg ws_cfg timeout_sec worker_cmd) p
    → (j : Str) → is_known p.ws.store j ≡ false
    → view j p ≡ no_view
nothing_of_unknown c cfg ws_cfg timeout_sec worker_cmd p reach =
    IsTidy-reach c cfg ws_cfg timeout_sec worker_cmd reach

-- In any run of the backend from its start, no log has more than 200 events.
pub reach-IsCapped :
    (c : Crypto) (cfg : Config) (ws_cfg : WorkerConfig) (timeout_sec : ℤ) (worker_cmd : Str)
    (p : Program) (j : Str)
    → Reach c (new_program cfg ws_cfg timeout_sec worker_cmd) p
    → length (list_events p.ws.store j) ≤ max_events
unfolding new_program
reach-IsCapped c cfg ws_cfg timeout_sec worker_cmd _ j here = new_store-IsCapped j
reach-IsCapped c cfg ws_cfg timeout_sec worker_cmd _ j (next {q} reach a now enabled) =
    (step-Affects c q a now).capped
      (λ k. reach-IsCapped c cfg ws_cfg timeout_sec worker_cmd q k reach) j
