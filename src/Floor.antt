-- ===== src/Floor.antt =====
-- internal/floor/floor.go: who has the floor, and when the agent must give it up.
use yuzu_agent_webrtc_toy.Prelude.{Bool, true, false, [], if◌then◌else◌}
use yuzu_agent_webrtc_toy.Prelude.Int.{ℤ, pos}
use yuzu_agent_webrtc_toy.Text.{Str, codes}

-- `Decision`
pub record Decision : Type 0 where
  pub should_stop : Bool
  pub stop_utterance_id : Str
  pub reason : Str

-- `Manager`; the two times are `int64` milliseconds of the worker's clock.
pub record Manager : Type 0 where
  pub speaking : Bool
  pub active_utterance_id : Str
  pub last_vad_start_ts_ms : ℤ
  pub last_tts_started_ts_ms : ℤ

-- `Decision{}`
abbrev pub no_decision : Decision
no_decision = record { should_stop = false; stop_utterance_id = []; reason = [] }

-- `New`
unfoldable pub new_manager : Manager
new_manager = record {
  speaking = false;
  active_utterance_id = [];
  last_vad_start_ts_ms = pos 0;
  last_tts_started_ts_ms = pos 0;
}

-- `OnTTSStarted`
unfoldable pub on_tts_started : Manager → Str → ℤ → Manager × Decision
on_tts_started m utterance_id ts_ms = (
  record m { speaking = true; active_utterance_id = utterance_id; last_tts_started_ts_ms = ts_ms },
  no_decision,
)

-- `OnTTSStopped`
unfoldable pub on_tts_stopped : Manager → Str → ℤ → Str → Manager × Decision
on_tts_stopped m utterance_id ts_ms reason =
    (record m { speaking = false; active_utterance_id = [] }, no_decision)

-- `OnVADStart`
unfoldable pub on_vad_start : Manager → ℤ → Manager × Decision
on_vad_start m ts_ms = (
  record m { last_vad_start_ts_ms = ts_ms },
  if m.speaking
      then record {
        should_stop = true;
        stop_utterance_id = m.active_utterance_id;
        reason = codes "barge_in";
      }
      else no_decision,
)

-- `OnVADEnd`
unfoldable pub on_vad_end : Manager → ℤ → Manager × Decision
on_vad_end m ts_ms = (m, no_decision)
