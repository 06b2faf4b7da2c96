-- ===== src/Examples/Program.antt =====
-- The backend from its start: a session is created, its worker connects and speaks, and is interrupted.
use yuzu_agent_webrtc_toy.Prelude.{◌+◌, ◌≡◌, refl, false, [], ◌∷◌, none, some}
use yuzu_agent_webrtc_toy.Prelude.Int.{pos}
use yuzu_agent_webrtc_toy.Text.{codes, str_eq}
use yuzu_agent_webrtc_toy.Maps.{lookup, insert}
use yuzu_agent_webrtc_toy.Json.{text, get_text}
use yuzu_agent_webrtc_toy.Store.Isolation.{is_known}
use yuzu_agent_webrtc_toy.Loop.{
  SessState, check_timeout, state, kind_of, handle, dispatch, is_barge_in_source, new_sess_state,
  stop_command,
}
use yuzu_agent_webrtc_toy.Loop
use yuzu_agent_webrtc_toy.Store.{create_session, append_event, get_session}
use yuzu_agent_webrtc_toy.Floor.{new_manager, on_vad_start}
use yuzu_agent_webrtc_toy.Api.Dev.{handle_debug_vad, dev_authorized}
use yuzu_agent_webrtc_toy.Loop.Invariant.{IsValid}
use yuzu_agent_webrtc_toy.WorkerWs.{written}
use yuzu_agent_webrtc_toy.Api.{DailyClient, minted}
use yuzu_agent_webrtc_toy.Api.Sessions.{handle_create_session}
use yuzu_agent_webrtc_toy.Program.{
  Program, new_program, reads, decoded, creates, debug_vad, step, on_read, on_debug_vad, on_message,
  perform,
}
use yuzu_agent_webrtc_toy.Program.Writes.{on_read-writes, write_all}
use yuzu_agent_webrtc_toy.Program.Registered.{AreRegistered, step-AreRegistered}
use yuzu_agent_webrtc_toy.Program.Isolation.{view, Affects, session_of, step-Affects}
use yuzu_agent_webrtc_toy.Program.Sessions.{Reach, here, next, no_view, nothing_of_unknown}
use yuzu_agent_webrtc_toy.Program.Floors.{reach-IsValid}
use yuzu_agent_webrtc_toy.Examples.Api.{cfg, request, now}
use yuzu_agent_webrtc_toy.Examples.Auth.{toy}
use yuzu_agent_webrtc_toy.Examples.Worker.{server}
use yuzu_agent_webrtc_toy.Examples.Loop.{playing, speech}

abbrev pub daily : DailyClient
daily = record {
  create_room = λ name privacy. none;
  create_meeting_token = λ name user exp. minted (codes "t");
}

abbrev pub start : Program
start = new_program cfg server.cfg (pos 60) (codes "python bot.py")

abbrev pub created_one : Program
created_one = (step toy start (creates daily (codes "s1")) now).0

abbrev pub debugged : Program
debugged =
    (step toy created_one (debug_vad request (codes "s1") (codes "vad_start") (codes "c1"))
      (now + 9)).0

pub run : Reach toy start debugged
run =
    next (next here (creates daily (codes "s1")) now tt)
      (debug_vad request (codes "s1") (codes "vad_start") (codes "c1")) (now + 9) (λ e. cc)

unknown : is_known debugged.ws.store (codes "s2") ≡ false
unfolding is_known lookup step on_debug_vad handle_debug_vad dev_authorized handle_create_session
    new_program create_session append_event insert str_eq on_message Loop.on_message perform
    get_session handle dispatch kind_of new_sess_state check_timeout on_vad_start new_manager
unknown = refl

abbrev heard : SessState
heard = record new_sess_state {
  fsm = record new_manager { last_vad_start_ts_ms = pos 1000000 };
  last_vad_ts_ms = pos 1000000;
  last_vad_recv_ms = pos 1000000;
}

-- The start of speech is noted, and there is nothing to stop.
noted : lookup (codes "s1") debugged.dispatcher.sessions ≡ some heard
unfolding is_known lookup step on_debug_vad handle_debug_vad dev_authorized handle_create_session
    new_program create_session append_event insert str_eq on_message Loop.on_message perform
    get_session handle dispatch kind_of new_sess_state check_timeout on_vad_start new_manager
noted = refl

reach-IsValid_example : IsValid heard
reach-IsValid_example =
    reach-IsValid toy cfg server.cfg (pos 60) (codes "python bot.py") debugged run (codes "s1") _
      noted

nothing_of_unknown_example : view (codes "s2") debugged ≡ no_view
nothing_of_unknown_example =
    nothing_of_unknown toy cfg server.cfg (pos 60) (codes "python bot.py") debugged run (codes "s2")
      unknown

-- The worker of a session whose agent speaks.
abbrev interrupted : Program
interrupted = record start {
  ws = record server { conns = (codes "s1", 7) ∷ [] };
  dispatcher = record { sessions = (codes "s1", playing) ∷ []; tts_timeout_sec = pos 60 };
}

on_read-writes_example :
    (on_read interrupted (codes "s1") (decoded speech) none (codes "c1") now).1
    ≡ (
      7,
      record {
        type = codes "stop_tts";
        ts_ms = pos 1000000;
        session_id = codes "s1";
        seq = pos 0;
        command_id = codes "c1";
        utterance_id = codes "u1";
        payload = some ((codes "mode", text (codes "current")) ∷ []);
      },
    )
      ∷ []
unfolding write_all str_eq kind_of state lookup is_barge_in_source get_text new_sess_state written
    stop_command
on_read-writes_example = on_read-writes interrupted (codes "s1") speech none (codes "c1") now

step-AreRegistered_example :
    AreRegistered interrupted.ws.conns
      (step toy interrupted (reads (codes "s1") (decoded speech) none (codes "c1")) now).1
step-AreRegistered_example =
    step-AreRegistered toy interrupted (reads (codes "s1") (decoded speech) none (codes "c1")) now

step-Affects_example :
    Affects
      (codes "s1")
      interrupted
      (step toy interrupted (reads (codes "s1") (decoded speech) none (codes "c1")) now).0
unfolding session_of
step-Affects_example =
    step-Affects toy interrupted (reads (codes "s1") (decoded speech) none (codes "c1")) now
