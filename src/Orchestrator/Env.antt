-- ===== src/Orchestrator/Env.antt =====
-- The environment variables that internal/orchestrator reads, and its `envInt`.
use yuzu_agent_webrtc_toy.Prelude.{ℕ, Option, none, some, if◌then◌else◌}
use yuzu_agent_webrtc_toy.Prelude.Int.{ℤ, pos}
use yuzu_agent_webrtc_toy.Text.{Str, codes, is_empty, atoi}
use yuzu_agent_webrtc_toy.Clock.{to_u32}

-- `os.Getenv`: the empty string for a variable that is not set.
abbrev pub Getenv : Type 0
Getenv = Str → Str

abbrev or_def : Option ℤ → ℤ → ℤ
or_def none def = def
or_def (some n) def = n

-- `envInt`
unfoldable pub env_int : Getenv → Str → ℤ → ℤ
env_int getenv key def = let v = getenv key in if is_empty v then def else or_def (atoi v) def

-- `uint32(envInt("LOCAL_STOP_GUARD_MS", 1000))`
unfoldable pub env_guard_ms : Getenv → ℕ
unfolding env_int
env_guard_ms getenv = to_u32 (env_int getenv (codes "LOCAL_STOP_GUARD_MS") (pos 1000))

-- `uint32(envInt("LOCAL_STOP_MIN_RMS", 1200))`
unfoldable pub env_min_rms : Getenv → ℕ
unfolding env_int
env_min_rms getenv = to_u32 (env_int getenv (codes "LOCAL_STOP_MIN_RMS") (pos 1200))
