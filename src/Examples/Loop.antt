-- ===== src/Examples/Loop.antt =====
-- internal/loop/dispatcher.go on one interrupted utterance.
use yuzu_agent_webrtc_toy.Prelude.{◌+◌, ◌*◌, ◌≤◌, ◌≡◌, refl, true, List, [], ◌∷◌, none, some}
use yuzu_agent_webrtc_toy.Prelude.Int.{pos}
use yuzu_agent_webrtc_toy.Text.{Str, codes, str_eq}
use yuzu_agent_webrtc_toy.Maps.{lookup}
use yuzu_agent_webrtc_toy.Clock.{Time, second}
use yuzu_agent_webrtc_toy.Json.{Payload, text, get_text}
use yuzu_agent_webrtc_toy.Floor.{new_manager, on_tts_started, on_tts_stopped, on_vad_start}
use yuzu_agent_webrtc_toy.Loop.{
  SessState, Message, new_sess_state, kind_of, dispatch, check_timeout, handle, is_barge_in_source,
  latency_event,
}
use yuzu_agent_webrtc_toy.Loop.Stops.{commands}
use yuzu_agent_webrtc_toy.Loop.History.{Arrival, run_messages, resets, commands_bounded}

abbrev sid : Str
sid = codes "s1"

abbrev noon : Time
noon = 63000000000 * second

abbrev message : Str → Payload → Message
message type payload = record {
  type = type;
  ts_ms = pos 1000;
  session_id = sid;
  seq = pos 1;
  command_id = [];
  utterance_id = codes "u1";
  payload = payload;
}

abbrev pub speech : Message
speech = message (codes "vad_start") (some ((codes "source", text (codes "candidate_audio")) ∷ []))

abbrev stopped : Message
stopped = message (codes "tts_stopped") (some ((codes "reason", text (codes "interrupted")) ∷ []))

abbrev interrupted : List Arrival
interrupted =
    (message (codes "tts_started") none, codes "c1", noon)
    ∷ (message (codes "tts_first_audio") none, codes "c2", noon + 1 * second)
    ∷ (speech, codes "c3", noon + 2 * second)
    ∷ (speech, codes "c4", noon + 3 * second)
    ∷ (stopped, codes "c5", noon + 4 * second)
    ∷ []

-- The second start of speech sends no second command.
one_command : commands (run_messages new_sess_state (pos 60) sid interrupted).1 ≡ 1
unfolding commands run_messages new_sess_state handle dispatch check_timeout kind_of str_eq get_text
    lookup is_barge_in_source latency_event on_tts_started on_tts_stopped on_vad_start new_manager
one_command = refl

commands_bounded_example :
    commands (run_messages new_sess_state (pos 60) sid interrupted).1
    ≤ 1 + resets (run_messages new_sess_state (pos 60) sid interrupted).1 + 1
unfolding new_sess_state kind_of str_eq
commands_bounded_example = commands_bounded new_sess_state (pos 60) sid interrupted

-- The agent speaks, its audio plays, and it started at noon.
abbrev pub playing : SessState
playing = record new_sess_state {
  fsm = record {
    speaking = true;
    active_utterance_id = codes "u1";
    last_vad_start_ts_ms = pos 0;
    last_tts_started_ts_ms = pos 900;
  };
  barge_in_armed = true;
  tts_start_recv = noon;
}
