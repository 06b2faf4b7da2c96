-- ===== src/Orchestrator.antt =====
-- internal/orchestrator: the control service that the media gateway streams its events to. It
-- decides when the candidate barges in, keeps the phase of each session, and drives the language
-- model. `State` has the data, `Vad`, `Conversation`, `Llm` and `Server` the operations.
pub mod State
pub mod Env
pub mod Vad
pub mod Conversation
pub mod Llm
pub mod Server
pub mod Goroutines
pub mod Invariant
pub mod Reachable
pub mod Debounce
pub mod Effects
pub mod Traffic
pub mod Isolation
pub mod Guard
pub mod Streams
pub mod Orphans
