-- ===== src/Lib.antt =====
-- The Go services behind a voice agent in a video room: the orchestrator, which listens to a media
-- gateway and decides when the candidate interrupts the agent; the services for the recognition of
-- speech, the language model and the synthesis of speech; and the backend server, which keeps
-- sessions, runs their bots, talks to a worker and tells it to stop speaking.
--
-- How the parts interact. The gateway streams events to internal/orchestrator, which answers with
-- commands, and asks the language model service for sentences in goroutines of its own. The backend
-- (cmd/server) has the HTTP interface internal/api, which keeps sessions and event logs in
-- internal/store and starts a bot for a session with internal/bot. The bot gets a token of
-- internal/auth in its environment, with which internal/workerws admits it; each of its messages goes
-- to internal/loop, which asks internal/floor who has the floor, and sends stop commands.
--
-- Which file models what.
--   Prelude, Text, Maps, Clock, Json: the shared notation; strings as bytes, maps as association
--     lists, times in nanoseconds with 0 for the zero time, payloads.
--   Orchestrator: internal/orchestrator. State has sessionState, Server, the messages and the
--   effects; Vad is vad.go; Conversation and Llm are conversation.go, session.go and llm_client.go;
--   Server is server.go, with a step of the process: an event of a stream, or a step of a language
--   model goroutine. The other children are proofs.
--   Floor: internal/floor/floor.go. Loop: internal/loop/dispatcher.go, with its proofs below it.
--   Store: internal/store/store.go and internal/types/types.go, with its proofs below it.
--   Stt: internal/stt. Session is session.go, with every case of its loop `run` as a step
--   at a time. Provider is deepgram.go: frames, failures and the rounds of its loop, and
--   Sending its goroutine that sends audio. Server is server.go, with its messages in Server.Messages
--   and the steps of a process in Server.Steps. The other children are proofs; Pipeline puts Session and
--   Provider together.
--   Tts: internal/tts/server.go, with the WAV parser in Wav. LlmService: internal/llm/server.go.
--   Bot: internal/bot/runner.go; Processes has the steps of its goroutines.
--   Api: internal/api, with handlers.go in Sessions and Dev and router.go in Router; Exits has the
--   callback of cmd/server/main.go. The other children of these are proofs.
--   Auth: internal/auth/token.go, over a record of the functions of the packages it calls.
--   WorkerWs: internal/workerws, which admits a worker by its token and keeps its connection; Messages
--   has what a message of the worker does.
--   Daily: internal/daily/daily.go, over a service with a state that answers requests.
--   Health: internal/health/health.go, and the handler of "/health" in cmd/server/main.go.
--   Config: internal/config/config.go, over the package that reads the settings.
--   Program: cmd/server/main.go, the backend as one program: its steps are the requests to Api, the
--   reads of the handler of WorkerWs with the effects of Loop, and the callbacks of Bot.
--   Examples: runs on concrete inputs.
--
-- State and operations. A method on a pointer returns the new record. What it does to the world is a
-- list of effects in order: commands that it tries to send, metrics, calls of cancel functions, events
-- for a log. time.Now, fresh identifiers, environment variables and the results of calls of gRPC are
-- arguments. Each method that runs under a lock is one step; the handler of an event is one step too,
-- so a race between two streams of one session is not modelled. The end of a gateway stream is a step
-- of the orchestrator that changes nothing of its server; it also ends the contexts of the language
-- model streams which that stream started, and what comes of that is a step of their goroutines, an
-- error or an end. In Program a request, a read with all that comes of it, and a callback are a step
-- each. The goroutines of the runner of the bots are, by the sections of the code between the locks,
-- in any order, and so are the streams, the sessions and the reaper of the speech recognition service,
-- a message or an event at a time.
-- A goroutine that sends audio takes a frame in one step and writes it in another. The lines that a
-- bot prints may arrive at any time once it was started, after its exit too.
--
-- Fuel. The decimal digits of a number are printed on fuel, the number itself: a round divides it by
-- ten. The loops over the frames of an audio, the chunks of a WAV file and the lines of an answer of
-- the language model run on as much fuel as there are bytes or lines, or one more: each round takes
-- some of them. The attempts of the client of Daily run on fuel 2, as many as there are at most.
--
-- Bounds. Counters are natural numbers: those of the detector stay below their thresholds of 2 and 20.
-- Values that arrive as uint32 or are converted to it keep their range; the differences of int64 times
-- of a worker wrap.
--
-- Not modelled: the URL of the speech provider, the readiness of the speech recognition service,
-- the older stores that nothing uses, the splitting of the output of a bot into lines, logging, the
-- Prometheus registry, the protobuf code, the end of the programs by a signal, and
-- the Python gateway. The temperature of a request to the language model, a float, and the times that
-- the metrics measure are left out. White space is that of ASCII, where Go also trims U+0085, U+00A0 and
-- other white space of Unicode. The clock of a program is past 1970; an expiry may be before it.
pub mod Prelude
pub mod Text
pub mod Maps
pub mod Clock
pub mod Json
pub mod Orchestrator
pub mod Floor
pub mod Loop
pub mod Store
pub mod Stt
pub mod Tts
pub mod LlmService
pub mod Bot
pub mod Auth
pub mod WorkerWs
pub mod Api
pub mod Daily
pub mod Health
pub mod Program
pub mod Config
pub mod Examples
