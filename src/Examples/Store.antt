-- ===== src/Examples/Store.antt =====
-- internal/store/store.go on a log that is nearly empty and on one that is full.
use yuzu_agent_webrtc_toy.Prelude.{◌≡◌, refl, List, [], ◌∷◌, ◌++◌, none, arith, replicate}
use yuzu_agent_webrtc_toy.Prelude.Int.{pos}
use yuzu_agent_webrtc_toy.Text.{Str, codes, str_eq}
use yuzu_agent_webrtc_toy.Maps.{lookup}
use yuzu_agent_webrtc_toy.Clock.{Time}
use yuzu_agent_webrtc_toy.Store.{
  Store, Session, Event, append_event, list_events, get_session, truncation_warning,
}
use yuzu_agent_webrtc_toy.Store.Log.{IsCapped, append_event-log}
use yuzu_agent_webrtc_toy.Store.Sessions.{
  Call, creates, appends, sets_bot_pid, calls, Survives, session-Survives,
}

abbrev sid : Str
sid = codes "s1"

abbrev session : Session
session = record {
  id = sid;
  room_name = codes "ai-interview-s1";
  room_url = codes "https://team/ai-interview-s1";
  bot_token = codes "t";
  created_at = 5;
  status = codes "created";
  bot_pid = pos 0;
  bot_last_exit_code = pos 0;
  bot_last_exit_at = none;
}

abbrev history : List (Call × Time)
history =
    (creates session, 5)
    ∷ (appends sid (codes "bot_started") none, 6)
    ∷ (sets_bot_pid sid (pos 42), 7)
    ∷ (creates session, 8)
    ∷ []

abbrev tick : Event
tick = record { type = codes "tick"; ts = 1; payload = none }

-- A store with a full log.
abbrev full : Store
full = record {
  sessions = (sid, session) ∷ [];
  events = (sid, replicate 200 tick) ∷ [];
  bot_running = [];
  worker_state = [];
}

full-IsCapped : IsCapped full
unfolding list_events lookup
full-IsCapped k = ground arith

append_event-log_example :
    let (t, evt) = append_event full sid (codes "last") none 9 in
    list_events t sid ≡ replicate 198 tick ++ (evt ∷ truncation_warning sid 2 199 9 ∷ [])
unfolding list_events lookup str_eq
append_event-log_example = append_event-log full sid sid (codes "last") none 9 full-IsCapped

session-Survives_example : Survives sid session (calls full history)
unfolding get_session lookup str_eq
session-Survives_example =
    session-Survives full sid session history (session, refl, (refl, refl, refl, refl, refl))
