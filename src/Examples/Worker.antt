-- ===== src/Examples/Worker.antt =====
-- Connections of internal/workerws on concrete inputs.
use yuzu_agent_webrtc_toy.Prelude.{◌+◌, ◌*◌, ◌≡◌, refl, true, [], ◌∷◌, ◌++◌, none, some, arith}
use yuzu_agent_webrtc_toy.Prelude.Int.{pos}
use yuzu_agent_webrtc_toy.Text.{Str, codes, str_eq}
use yuzu_agent_webrtc_toy.Maps.{lookup}
use yuzu_agent_webrtc_toy.Clock.{Time, second, unix_epoch}
use yuzu_agent_webrtc_toy.Store.{Session, get_session}
use yuzu_agent_webrtc_toy.WorkerWs.{
  Server, admitted, admit, admit_known, admit_bearer, strip_prefix,
}
use yuzu_agent_webrtc_toy.WorkerWs.Connections.{MayConnect, admit-MayConnect}
use yuzu_agent_webrtc_toy.WorkerWs.Messages.{check_seq}
use yuzu_agent_webrtc_toy.WorkerWs.Sequence.{check_seqs, gap_is_reported}
use yuzu_agent_webrtc_toy.Json.{num}
use yuzu_agent_webrtc_toy.Store.{append_event}
use yuzu_agent_webrtc_toy.Examples.Auth.{toy, token, token_accepted}

abbrev pub room : Session
room = record {
  id = codes "s1";
  room_name = codes "room";
  room_url = codes "https://example.org/room";
  bot_token = [];
  created_at = 0;
  status = codes "created";
  bot_pid = pos 0;
  bot_last_exit_code = pos 0;
  bot_last_exit_at = none;
}

abbrev pub server : Server
server = record {
  cfg = record { token_secret = codes "key"; token_skew_secs = pos 30; local_stop_enabled = true };
  store = record {
    sessions = (codes "s1", room) ∷ [];
    events = [];
    bot_running = [];
    worker_state = [];
  };
  conns = [];
  last_seq = [];
}

abbrev authz : Str
authz = codes "Bearer " ++ token

abbrev at : Time
at = unix_epoch + 1010 * second

server-admits : admit toy server (codes "s1") authz at ≡ admitted (codes "s1")
unfolding admit admit_known admit_bearer strip_prefix get_session lookup str_eq
server-admits = rw token_accepted refl

admit-MayConnect_example : (codes "s1" ≡ codes "s1") × MayConnect toy server (codes "s1") authz at
admit-MayConnect_example =
    admit-MayConnect toy server (codes "s1") authz (codes "s1") at server-admits

-- Two messages, and then one with two numbers left out.
abbrev counting : Server
counting = record server { last_seq = (codes "s1", pos 1) ∷ [] }

counted : lookup (codes "s1") counting.last_seq ≡ some (pos 1)
unfolding lookup str_eq
counted = refl

gap_is_reported_example :
    let s' = check_seqs counting (codes "s1") ((pos 2, at) ∷ (pos 3, (at + 1)) ∷ []) in
    (s'.store ≡ server.store)
    × ((check_seq s' (codes "s1") (pos 6) (at + 2)).store
        ≡ (append_event server.store
            (codes "s1")
            (codes "worker_seq_gap")
            (some (
              (codes "prev", num (pos 3))
              ∷ (codes "now", num (pos 6))
              ∷ (codes "gap", num (pos 3))
              ∷ []))
            (at + 2)).0)
gap_is_reported_example =
    gap_is_reported counting (codes "s1") 1 6 (at ∷ ((at + 1) ∷ [])) (at + 2) counted (omega arith)
      (omega arith) (omega arith)
