-- ===== src/Examples/Recognition.antt =====
-- Runs of internal/stt/server.go on concrete inputs.
use yuzu_agent_webrtc_toy.Prelude.{
  ◌*◌, ◌≡◌, refl, Bool, true, false, [], ◌∷◌, none, some, if◌then◌else◌,
}
use yuzu_agent_webrtc_toy.Text.{Str, codes, str_eq, equal_fold}
use yuzu_agent_webrtc_toy.Maps.{lookup, insert}
use yuzu_agent_webrtc_toy.Clock.{second}
use yuzu_agent_webrtc_toy.Stt.Session.{new_session, start_utterance}
use yuzu_agent_webrtc_toy.Stt.Server.{
  Server, Stream, start, goes_on, panics, connected, new_stt_server, update, get_or_create, reap,
}
use yuzu_agent_webrtc_toy.Stt.Server.Messages.{on_start, on_drain, on_message}
use yuzu_agent_webrtc_toy.Stt.Server.Steps.{server_of, here, next, messages, reaps}
use yuzu_agent_webrtc_toy.Stt.Server.Gauge.{IsCounted, gauge_bounded}
use yuzu_agent_webrtc_toy.Stt.Server.Restart.{drain_after_restart_panics}

-- The policy is "earliest", and no other variable is set.
abbrev getenv : Str → Str
getenv key = if str_eq key (codes "STT_ENDPOINTING_POLICY") then codes "earliest" else []

abbrev fresh : Stream
fresh = record {
  sess = none;
  session_id = [];
  bytes_in = 0;
  frames_in = 0;
  last_met = second;
  ev_ch = none;
  created = [];
}

abbrev one_session : Bool → Bool → Server
one_session cancelled closed = record {
  sess = (codes "s1", 0) ∷ [];
  heap =
      record {
        session = start_utterance (new_session getenv (codes "s1") second) (codes "u1") second;
        cancelled = cancelled;
        events = [];
        events_closed = closed;
      }
      ∷ [];
  idle_ttl = (new_stt_server getenv).idle_ttl;
  gauge_incs = 1;
  gauge_decs = 0;
}

abbrev attached : Stream
attached = record fresh { sess = some 0; session_id = codes "s1"; ev_ch = some 0; created = 0 ∷ [] }

started :
    server_of
      (on_message getenv (new_stt_server getenv) fresh (start (codes "s1") (codes "u1")) second)
    ≡ some (one_session false false)
unfolding on_message on_start new_stt_server get_or_create lookup insert update
started = refl

gauge_bounded_example : IsCounted (reap (one_session false false) (100 * second))
gauge_bounded_example = gauge_bounded getenv (reap (one_session false false) (100 * second)) (
    next
      (next here
        (messages fresh (start (codes "s1") (codes "u1")) second (one_session false false) started))
      (reaps (100 * second)))

drain_after_restart_panics_example :
    (t : Server) × (u : Stream) × (on_start getenv
        (one_session true true)
        fresh
        (codes "s1")
        (codes "u2")
        (9 * second)
      ≡ goes_on t u (connected (codes "s1") ∷ []))
    × (on_drain t u (10 * second) ≡ panics)
unfolding lookup str_eq equal_fold start_utterance new_session
drain_after_restart_panics_example =
    drain_after_restart_panics getenv (one_session true true) fresh (codes "s1") (codes "u2")
      (9 * second) (10 * second) 0 _ refl refl refl refl
