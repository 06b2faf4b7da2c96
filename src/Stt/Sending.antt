-- ===== src/Stt/Sending.antt =====
-- The goroutine of internal/stt/deepgram.go that sends the audio of a session to the provider, with silence
-- where there is none, and what becomes of it when its connection ends.
use yuzu_agent_webrtc_toy.Prelude.{
  ℕ, ◌+◌, ◌%◌, ◌≡◌, refl, Bool, true, false, ◌&&◌, List, [], ◌∷◌, ◌++◌, Option, none, some, arith,
  length, get_elem?, set, replicate, ltb, if◌then◌else◌,
}
use yuzu_agent_webrtc_toy.Prelude.Int.{ℤ, pos, leb_ℤ}
use yuzu_agent_webrtc_toy.Text.{Str, codes, is_empty}
use yuzu_agent_webrtc_toy.Clock.{Time, sub_time, millis}
use yuzu_agent_webrtc_toy.Stt.Provider.{atoi_env}
pub mod Queue

-- The variables of a goroutine that sends, and the frame that it writes next, if it has one: nothing
-- stands between the goroutines, so others run before the write.
pub record Sender : Type 0 where
  pub last_send : Time
  pub bytes_sent : ℕ
  pub frames_sent : ℕ
  pub holding : Option Str

-- `d.ws`, by the number of the connection, and `d.sendQ`; the goroutines, of which those that have
-- returned are `none`; what was put on the queue, taken off it, and written to which connection, so far;
-- and whether the program has panicked.
pub record Wire : Type 0 where
  pub ws : Option ℕ
  pub send_q : List Str
  pub senders : List (Option Sender)
  pub accepted : List Str
  pub taken : List Str
  pub written : List (ℕ × Str)
  pub crashed : Bool

unfoldable pub new_wire : Wire
new_wire = record {
  ws = none;
  send_q = [];
  senders = [];
  accepted = [];
  taken = [];
  written = [];
  crashed = false;
}

-- `Send`
unfoldable pub send : Wire → Str → Wire × Bool
send w b =
    if ltb (length w.send_q) 8
    then (record w { send_q = w.send_q ++ b ∷ []; accepted = w.accepted ++ b ∷ [] }, true)
    else (w, false)

abbrev pub new_sender : Time → Sender
new_sender now = record { last_send = now; bytes_sent = 0; frames_sent = 0; holding = none }

-- A connection, with its goroutine, and its end.
unfoldable pub dialled : Wire → ℕ → Time → Wire
dialled w conn now = record w { ws = some conn; senders = w.senders ++ some (new_sender now) ∷ [] }

unfoldable pub hung_up : Wire → Wire
hung_up w = record w { ws = none }

-- `d.ws.Write`, whose error makes the goroutine return; on a nil connection it panics.
written_by : Wire → ℕ → Sender → Str → Time → Bool → Option ℕ → Wire
written_by w i g b now fails none = record w { crashed = true }
written_by w i g b now fails (some conn) =
    let g' : Sender = record {
      last_send = now;
      bytes_sent = (g.bytes_sent + length b) % 0x10000000000000000;
      frames_sent = (g.frames_sent + 1) % 0x10000000000000000;
      holding = none;
    } in
    if fails
    then record w { senders = set w.senders i none }
    else record w { senders = set w.senders i (some g'); written = w.written ++ (conn, b) ∷ [] }

unfoldable pub write : Wire → ℕ → Sender → Str → Time → Bool → Wire
unfolding written_by
write w i g b now fails = written_by w i g b now fails w.ws

-- A goroutine has a frame to write.
unfoldable pub hold : Wire → ℕ → Sender → Str → Wire
hold w i g b = record w { senders = set w.senders i (some (record g { holding = some b })) }

-- A frame of the queue, which a nil one only leaves.
take_from : Wire → ℕ → Sender → List Str → Wire
unfolding hold
take_from w i g [] = w
take_from w i g (b ∷ rest) =
    let w' = record w { send_q = rest; taken = w.taken ++ b ∷ [] } in
    if is_empty b then w' else hold w' i g b

-- `keepAliveMs`, and the tick of the keepalive.
unfoldable pub keep_alive_ms : (Str → Str) → ℤ
keep_alive_ms getenv = atoi_env getenv (codes "STT_KEEPALIVE_MS") (pos 400)

abbrev pub silent : Str
silent = replicate 640 0

-- `len(d.sendQ) == 0`
abbrev is_empty_queue : List Str → Bool
is_empty_queue [] = true
is_empty_queue (b ∷ q) = false

keep_alive : (Str → Str) → Wire → ℕ → Sender → Time → Wire
unfolding hold
keep_alive getenv w i g now =
    if is_empty_queue w.send_q && leb_ℤ (millis (keep_alive_ms getenv)) (sub_time now g.last_send)
    then hold w i g silent
    else w

-- A step of the goroutine: at its `select` a frame of the queue, a tick, or the end of the context; and
-- the write of the frame that it got there.
pub data Round : Type 0 where
  frame tick done writes : Round

round_of : (Str → Str) → Wire → ℕ → Round → Time → Bool → Sender → Option Str → Wire
unfolding take_from keep_alive write
round_of getenv w i frame now fails g none = take_from w i g w.send_q
round_of getenv w i tick now fails g none = keep_alive getenv w i g now
round_of getenv w i done now fails g none = record w { senders = set w.senders i none }
round_of getenv w i writes now fails g none = w
round_of getenv w i frame now fails g (some b) = w
round_of getenv w i tick now fails g (some b) = w
round_of getenv w i done now fails g (some b) = w
round_of getenv w i writes now fails g (some b) = write w i g b now fails

-- A goroutine that has returned does nothing.
step_of : (Str → Str) → Wire → ℕ → Round → Time → Bool → Option (Option Sender) → Wire
unfolding round_of
step_of getenv w i r now fails none = w
step_of getenv w i r now fails (some none) = w
step_of getenv w i r now fails (some (some g)) = round_of getenv w i r now fails g g.holding

unfoldable pub round : (Str → Str) → Wire → ℕ → Round → Time → Bool → Wire
unfolding step_of
round getenv w i r now fails = step_of getenv w i r now fails (get_elem? w.senders i)
