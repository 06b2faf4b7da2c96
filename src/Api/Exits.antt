-- ===== src/Api/Exits.antt =====
-- The end of the process of a bot: the callback of cmd/server/main.go, and what internal/api/handlers.go
-- makes of a process that ends while it is started.
use yuzu_agent_webrtc_toy.Prelude.{ℕ, ◌≡◌, true, false, [], ◌∷◌, none, some}
use yuzu_agent_webrtc_toy.Prelude.Int.{ℤ, pos}
use yuzu_agent_webrtc_toy.Text.{Str, codes, str_eq_refl, is_empty, trim_space}
use yuzu_agent_webrtc_toy.Maps.{lookup-insert_self, lookup-delete}
use yuzu_agent_webrtc_toy.Clock.{Time}
use yuzu_agent_webrtc_toy.Json.{text}
use yuzu_agent_webrtc_toy.Store.{append_event, set_bot_running, is_bot_running, set_bot_exit}
use yuzu_agent_webrtc_toy.Bot.{is_running, reserve, exited}
use yuzu_agent_webrtc_toy.Api.{Backend, append}
use yuzu_agent_webrtc_toy.Api.Sessions.{launched, start_bot, launch, after_start}

-- What `Wait` gives at the end of a process: nothing, the error of an exit with its code and its text,
-- or another error.
pub data Exit : Type 0 where
  clean : Exit
  exit_error : ℤ → Str → Exit
  other_error : Str → Exit

-- `exitCodeFromErr` and `errString`
abbrev pub exit_code_from_err : Exit → ℤ
exit_code_from_err clean = pos 0
exit_code_from_err (exit_error code err) = code
exit_code_from_err (other_error err) = pos 1

abbrev pub err_string : Exit → Str
err_string clean = []
err_string (exit_error code err) = err
err_string (other_error err) = err

-- The goroutine that waits for a process, when it has ended, with the callback `onExit`.
unfoldable pub process_exits : Backend → Str → Exit → Time → Backend
process_exits b id err now =
    let s = set_bot_running b.store id false in
    append
      (record {
        store = set_bot_exit s id (exit_code_from_err err) now;
        runner = exited b.runner id;
      })
      id (codes "bot_exit") (some ((codes "error", text (err_string err)) ∷ [])) now

after_exit :
    (b : Backend) (id : Str) (err : Exit) (now later : Time)
    → let b' = (after_start id later (process_exits b id err now, none)).0 in
      (is_bot_running b'.store id ≡ true) × (is_running b'.runner id ≡ false)
unfolding after_start process_exits exited append_event set_bot_running is_bot_running is_running
after_exit b id err now later =
    (rw (lookup-insert_self id true), rw (lookup-delete id id b.runner.procs, str_eq_refl id))

start_bot-launched :
    (b : Backend) (id : Str) (pid : ℕ)
    → is_empty (trim_space b.runner.worker_cmd) ≡ false
    → is_running b.runner id ≡ false
    → (start_bot b id (launched pid)).1 ≡ none
unfolding start_bot reserve launch
start_bot-launched b id pid cmd free = rw (cmd, free)

-- A start of a session without a process, with a command that is not empty, whose process ends before
-- the handler goes on: the store says that the bot is running, and the runner has no process.
pub fast_exit_stays_running :
    (b : Backend) (id : Str) (pid : ℕ) (err : Exit) (now later : Time)
    → is_empty (trim_space b.runner.worker_cmd) ≡ false
    → is_running b.runner id ≡ false
    → let (b', e) = start_bot b id (launched pid) in
      let b'' = (after_start id later (process_exits b' id err now, e)).0 in
      (is_bot_running b''.store id ≡ true) × (is_running b''.runner id ≡ false)
fast_exit_stays_running b id pid err now later cmd free =
    rw (start_bot-launched b id pid cmd free)
      (after_exit (start_bot b id (launched pid)).0 id err now later)
