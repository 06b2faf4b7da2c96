-- ===== src/WorkerWs/Isolation.antt =====
-- internal/workerws/handler.go changes the store, the registry and the sequence numbers for the session of
-- its connection only.
use yuzu_agent_webrtc_toy.Prelude.{
  ℕ, ◌≡◌, refl, Bool, true, false, Option, none, some, if◌then◌else◌, Bool-cases, inl, inr, ◌∙◌,
}
use yuzu_agent_webrtc_toy.Prelude.Int.{ℤ, pos, ltb_ℤ}
use yuzu_agent_webrtc_toy.Text.{Str, codes, str_eq}
use yuzu_agent_webrtc_toy.Maps.{Map, lookup, insert, delete, lookup-insert, lookup-delete}
use yuzu_agent_webrtc_toy.Clock.{Time}
use yuzu_agent_webrtc_toy.Json.{Payload, get_bool}
use yuzu_agent_webrtc_toy.Store.{or_zero, set_local_stop_enabled}
use yuzu_agent_webrtc_toy.Store.Isolation.{
  Only, same-Only, both-Only, append_event-Only, set_local_stop_capable-Only,
  set_local_stop_enabled-Only,
}
use yuzu_agent_webrtc_toy.Loop.{Message}
use yuzu_agent_webrtc_toy.WorkerWs.{
  Server, append, replace, connect, disconnect, is_some, send_json,
}
use yuzu_agent_webrtc_toy.WorkerWs.Messages.{
  set_capable, policy_event, on_hello, has_gap, check_seq, on_worker_message, on_invalid_message,
  enrich_message, enrich_payload,
}

-- A map that differs from another at one key only.
abbrev KeepsOthers {ℓ} : {V : Type ℓ} → Str → Map V → Map V → Type ℓ
KeepsOthers id m n = (j : Str) → str_eq id j ≡ false → lookup j n ≡ lookup j m

-- `t` differs from `s` in the session `id` only, and has every session that `s` has.
pub record Serves (id : Str) (s t : Server) : Type 0 where
  pub store : Only id s.store t.store
  pub conns : KeepsOthers id s.conns t.conns
  pub last_seq : KeepsOthers id s.last_seq t.last_seq

pub same-Serves : (id : Str) (s : Server) → Serves id s s
same-Serves id s = record {
  store = same-Only id s.store;
  conns = λ j other. refl;
  last_seq = λ j other. refl;
}

pub both-Serves : {id : Str} {s t u : Server} → Serves id s t → Serves id t u → Serves id s u
both-Serves f g = record {
  store = both-Only f.store g.store;
  conns = λ j other. g.conns j other ∙ f.conns j other;
  last_seq = λ j other. g.last_seq j other ∙ f.last_seq j other;
}

pub append-Serves :
    (s : Server) (id typ : Str) (payload : Payload) (now : Time)
    → Serves id s (append s id typ payload now)
append-Serves s id typ payload now = record {
  store = append_event-Only s.store id typ payload now;
  conns = λ j other. refl;
  last_seq = λ j other. refl;
}

conns-Serves :
    (s : Server) (id : Str) (conns : Map ℕ)
    → KeepsOthers id s.conns conns
    → Serves id s (record s { conns = conns })
conns-Serves s id conns h = record {
  store = same-Only id s.store;
  conns = h;
  last_seq = λ j other. refl;
}

seq-Serves :
    (s : Server) (id : Str) (n : ℤ) → Serves id s (record s { last_seq = insert id n s.last_seq })
seq-Serves s id n = record {
  store = same-Only id s.store;
  conns = λ j other. refl;
  last_seq = λ j other. lookup-insert id j n s.last_seq ∙ rw other refl;
}

-- A step that is taken or not.
if-Serves :
    (b : Bool) (id : Str) (s t u : Server)
    → Serves id s t
    → Serves id s u
    → Serves id s (if b then t else u)
if-Serves true id s t u f g = f
if-Serves false id s t u f g = g

module _ (s : Server) (id : Str) (now : Time) where
  pub connect-Serves : (conn : ℕ) → Serves id s (connect s id conn now)
  unfolding connect replace
  connect-Serves conn =
      let s' : Server = record s { conns = insert id conn s.conns } in
      let known = is_some (lookup id s.conns) in
      let s'' : Server = if known then append s' id (codes "worker_replaced") none now else s' in
      let s''' = append s'' id (codes "worker_connected") none now in
      both-Serves
        (conns-Serves s id (insert id conn s.conns)
          (λ j other. lookup-insert id j conn s.conns ∙ rw other refl))
        (both-Serves
          (if-Serves known id s' (append s' id (codes "worker_replaced") none now) s'
            (append-Serves s' id _ none now) (same-Serves id s'))
          (both-Serves (append-Serves s'' id (codes "worker_connected") none now)
            (seq-Serves s''' id (pos 0))))

  pub disconnect-Serves : Serves id s (disconnect s id now)
  unfolding disconnect
  disconnect-Serves =
      let s' : Server = record s { conns = delete id s.conns } in
      both-Serves
        (conns-Serves s id (delete id s.conns)
          (λ j other. lookup-delete id j s.conns ∙ rw other refl))
        (append-Serves s' id _ none now)

  pub on_invalid_message-Serves : (err : Str) → Serves id s (on_invalid_message s id err now)
  unfolding on_invalid_message
  on_invalid_message-Serves err = append-Serves s id _ _ now

set_capable-Serves : (s : Server) (id : Str) (v : Option Bool) → Serves id s (set_capable s id v)
set_capable-Serves s id none = same-Serves id s
set_capable-Serves s id (some v) = record {
  store = set_local_stop_capable-Only s.store id v;
  conns = λ j other. refl;
  last_seq = λ j other. refl;
}

policy_event-Serves :
    (s : Server) (id : Str) (err : Option Str) (now : Time)
    → Serves id s (policy_event s id err now)
policy_event-Serves s id none now = append-Serves s id _ _ now
policy_event-Serves s id (some err) now = append-Serves s id _ _ now

on_hello-Serves :
    (s : Server) (id : Str) (msg : Message) (write : Option Str) (now : Time)
    → Serves id s (on_hello s id msg write now).0
unfolding on_hello
on_hello-Serves s id msg write now =
    let s' = set_capable s id (get_bool (codes "local_stop_capable") msg.payload) in
    let enabled = s'.cfg.local_stop_enabled in
    let s'' : Server = record s' { store = set_local_stop_enabled s'.store id enabled } in
    let told : Serves id s' s'' = record {
      store = set_local_stop_enabled-Only s'.store id enabled;
      conns = λ j other. refl;
      last_seq = λ j other. refl;
    } in
    both-Serves (set_capable-Serves s id (get_bool (codes "local_stop_capable") msg.payload))
      (both-Serves told (policy_event-Serves s'' id (send_json (lookup id s''.conns) write) now))

check_seq-Serves :
    (s : Server) (id : Str) (seq : ℤ) (now : Time) → Serves id s (check_seq s id seq now)
unfolding check_seq
check_seq-Serves s id seq now =
    let prev = or_zero (pos 0) (lookup id s.last_seq) in
    elim (Bool-cases (has_gap prev seq)) [
      | inl e ↦ rw e (
          both-Serves (append-Serves s id _ _ now)
            (if-Serves (ltb_ℤ prev seq) id _ _ _ (seq-Serves _ id seq) (same-Serves id _)))
      | inr e ↦ rw e (if-Serves (ltb_ℤ prev seq) id s _ s (seq-Serves s id seq) (same-Serves id s))
    ]

pub on_worker_message-Serves :
    (s : Server) (id : Str) (msg : Message) (write : Option Str) (now : Time)
    → Serves id s (on_worker_message s id msg write now).0
unfolding on_worker_message
on_worker_message-Serves s id msg write now =
    let msg' = enrich_message msg msg.payload in
    let s' = append s id msg.type (enrich_payload msg msg.payload) now in
    elim (Bool-cases (str_eq msg.type (codes "worker_hello"))) [
      | inl e ↦ rw e (
          both-Serves (append-Serves s id msg.type _ now) (
            both-Serves (on_hello-Serves s' id msg' write now) (check_seq-Serves _ id msg.seq now)))
      | inr e ↦
          rw e
            (both-Serves (append-Serves s id msg.type _ now) (check_seq-Serves s' id msg.seq now))
    ]
