-- ===== src/Examples/Bot.antt =====
-- Runs of internal/bot/runner.go on concrete inputs.
use yuzu_agent_webrtc_toy.Prelude.{◌+◌, ◌≤◌, ◌<◌, ◌≡◌, ◌↔◌, refl, true, List, [], ◌∷◌, arith}
use yuzu_agent_webrtc_toy.Text.{Str, codes, str_eq, trim_space}
use yuzu_agent_webrtc_toy.Maps.{IsMap, occurrences, Map, lookup, insert}
use yuzu_agent_webrtc_toy.Bot.{
  LocalRunner, new_local_runner, is_running, reserve, started, merged, merge_env, split_entry,
  add_base, add_all, env_to_list,
}
use yuzu_agent_webrtc_toy.Bot.Processes.{
  count, Reach, here, next, reserving, starting, one_process_a_session,
}
use yuzu_agent_webrtc_toy.Bot.Environment.{or_else, last_given, merged_lem}

abbrev idle : LocalRunner
idle = new_local_runner (codes "python bot.py")

abbrev busy : LocalRunner
busy = started (reserve idle (codes "s1")).0 (codes "s1") 42

busy-Reach : Reach idle busy
unfolding reserve is_running new_local_runner trim_space lookup count str_eq
busy-Reach =
    next (next here (reserving idle (codes "s1")))
      (starting (reserve idle (codes "s1")).0 (codes "s1") 42 (omega arith))

one_process_a_session_example :
    (count (codes "s1") busy.starting + count (codes "s1") busy.alive ≤ 1)
    × ((is_running busy (codes "s1") ≡ true)
        ↔ (0 < count (codes "s1") busy.starting + count (codes "s1") busy.alive))
one_process_a_session_example =
    one_process_a_session (codes "python bot.py") busy busy-Reach (codes "s1")

abbrev base : List Str
base = codes "HOME=/root" ∷ (codes "STT_ENABLED=false" ∷ (codes "=x" ∷ []))

abbrev extra : Map Str
extra = (codes "STT_ENABLED", codes "true") ∷ []

merge_env_runs : merge_env base extra ≡ codes "HOME=/root" ∷ (codes "STT_ENABLED=true" ∷ [])
unfolding merge_env merged split_entry add_base add_all env_to_list insert str_eq
merge_env_runs = refl

merged_lem_example :
    IsMap (merged base extra)
    × ((k : Str) → lookup k (merged base extra) ≡ or_else (lookup k extra) (last_given base k))
unfolding occurrences
merged_lem_example = merged_lem base extra (λ k. ground arith)
