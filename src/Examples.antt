-- ===== src/Examples.antt =====
-- Runs of the models on concrete inputs, and the theorems at inputs that meet their hypotheses.
mod Orchestrator
mod Loop
mod Store
mod Stt
mod Recognition
mod Sending
mod Auth
mod Bot
mod Tts
mod Llm
mod Worker
mod Api
mod Daily
mod Health
mod Program
mod Config
mod Provider
