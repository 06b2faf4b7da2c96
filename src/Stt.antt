-- ===== src/Stt.antt =====
-- internal/stt: the speech recognition sidecar. `Session` is session.go, the utterances of one client.
pub mod Session
pub mod Provider
pub mod Circuit
pub mod Finals
pub mod Utterances
pub mod Pipeline
pub mod Sending
pub mod Server
