-- ===== src/Stt/Sending/Queue.antt =====
-- The order of the audio that internal/stt/deepgram.go sends, and the goroutines of connections that have
-- ended.
use mathlib.Core.List.{append_assoc}
use yuzu_agent_webrtc_toy.Prelude.{
  ℕ, zero, suc, ◌+◌, ◌≤◌, ◌≡◌, refl, ap, Bool, true, false, ◌&&◌, List, [], ◌∷◌, ◌++◌, Option, none,
  some, arith, length, length-append, get_elem?, set, ltb, Bool-cases, inl, inr, if◌then◌else◌,
}
use yuzu_agent_webrtc_toy.Prelude.Int.{leb_ℤ}
use yuzu_agent_webrtc_toy.Text.{Str, str_eq, is_empty}
use yuzu_agent_webrtc_toy.Clock.{Time, sub_time, millis}
use yuzu_agent_webrtc_toy.Stt.Sending.{
  Sender, new_sender, Wire, new_wire, send, dialled, hung_up, written_by, write, hold, take_from,
  keep_alive, keep_alive_ms, Round, frame, tick, done, writes, round_of, step_of, round, silent,
  is_empty_queue,
}

-- A step of the session, of the connection or of one of the goroutines.
pub data Step (getenv : Str → Str) (w : Wire) : Wire → Type 0 where
  sends : (b : Str) → Step getenv w (send w b).0
  dials : (conn : ℕ) (now : Time) → Step getenv w (dialled w conn now)
  hangs_up : Step getenv w (hung_up w)
  runs :
      (i : ℕ) (r : Round) (now : Time) (fails : Bool) → Step getenv w (round getenv w i r now fails)

pub data Reach (getenv : Str → Str) : Wire → Type 0 where
  here : Reach getenv new_wire
  next : {w w' : Wire} → Reach getenv w → Step getenv w w' → Reach getenv w'

-- How often a frame is in a list, was written, and is held by a goroutine.
abbrev pub once : Str → Str → ℕ
once b c = if str_eq b c then 1 else 0

unfoldable pub times : Str → List Str → ℕ
times b [] = 0
times b (c ∷ cs) = once b c + times b cs

unfoldable pub sent : Str → List (ℕ × Str) → ℕ
sent b [] = 0
sent b ((conn, c) ∷ written) = once b c + sent b written

abbrev held_frame : Str → Option Str → ℕ
held_frame b none = 0
held_frame b (some c) = once b c

abbrev held_by : Str → Option Sender → ℕ
held_by b none = 0
held_by b (some g) = held_frame b g.holding

unfoldable pub held : Str → List (Option Sender) → ℕ
held b [] = 0
held b (g ∷ gs) = held_by b g + held b gs

-- What was taken off the queue and what is on it are, in this order, what was put on it, and the queue has
-- at most 8 frames; a frame other than silence was written, or is held by a goroutine, no more often
-- than it was taken.
pub record IsAccounted (w : Wire) : Type 0 where
  pub ordered : w.taken ++ w.send_q ≡ w.accepted
  pub bounded : length w.send_q ≤ 8
  pub counted :
      (b : Str) → str_eq b silent ≡ false → sent b w.written + held b w.senders ≤ times b w.taken

module _ (b : Str) where
  times-append : (cs ds : List Str) → times b (cs ++ ds) ≡ times b cs + times b ds
  unfolding times
  times-append [] ds = omega arith
  times-append (c ∷ cs) ds = omega (arith, times-append cs ds)

  sent-append : (xs ys : List (ℕ × Str)) → sent b (xs ++ ys) ≡ sent b xs + sent b ys
  unfolding sent
  sent-append [] ys = omega arith
  sent-append ((conn, c) ∷ xs) ys = omega (arith, sent-append xs ys)

  held-append : (gs hs : List (Option Sender)) → held b (gs ++ hs) ≡ held b gs + held b hs
  unfolding held
  held-append [] hs = omega arith
  held-append (g ∷ gs) hs = omega (arith, held-append gs hs)

  held-set :
      (gs : List (Option Sender)) (i : ℕ) (old new : Option Sender)
      → get_elem? gs i ≡ some old
      → held b (set gs i new) + held_by b old ≡ held b gs + held_by b new
  unfolding held
  held-set [] i old new e = ground (arith, e)
  held-set (g ∷ gs) zero old new e = ground (arith, e)
  held-set (g ∷ gs) (suc i) old new e = omega (arith, held-set gs i old new e)

send-IsAccounted : (w : Wire) (b : Str) → IsAccounted w → IsAccounted (send w b).0
unfolding send
send-IsAccounted w b v = elim (Bool-cases (ltb (length w.send_q) 8)) [
  | inl e ↦ rw e (record {
    ordered = rw (← append_assoc w.taken w.send_q (b ∷ []), v.ordered);
    bounded = ground (arith, length-append w.send_q (b ∷ []), e);
    counted = v.counted;
  })
  | inr e ↦ rw e v
]

dialled-IsAccounted :
    (w : Wire) (conn : ℕ) (now : Time) → IsAccounted w → IsAccounted (dialled w conn now)
unfolding dialled held
dialled-IsAccounted w conn now v = record {
  ordered = v.ordered;
  bounded = v.bounded;
  counted =
      λ b ne. omega (arith, held-append b w.senders (some (new_sender now) ∷ []), v.counted b ne);
}

-- The step of a goroutine, by what it does to the goroutine's own frame.
module _ (w : Wire) (i : ℕ) (g : Sender) (alive : get_elem? w.senders i ≡ some (some g))
    (v : IsAccounted w) where
  -- It returns, with or without a frame.
  gone-IsAccounted : IsAccounted (record w { senders = set w.senders i none })
  gone-IsAccounted = record {
    ordered = v.ordered;
    bounded = v.bounded;
    counted = λ b ne. omega (arith, held-set b w.senders i (some g) none alive, v.counted b ne);
  }

  -- It writes the frame that it holds.
  written_by-IsAccounted :
      (c : Str) (now : Time) (fails : Bool) (ws : Option ℕ)
      → g.holding ≡ some c
      → IsAccounted (written_by w i g c now fails ws)
  unfolding written_by sent
  written_by-IsAccounted c now fails none e = record {
    ordered = v.ordered;
    bounded = v.bounded;
    counted = v.counted;
  }
  written_by-IsAccounted c now true (some conn) e = gone-IsAccounted
  written_by-IsAccounted c now false (some conn) e = record {
    ordered = v.ordered;
    bounded = v.bounded;
    counted = λ b ne. omega (
      arith,
      sent-append b w.written ((conn, c) ∷ []),
      held-set b w.senders i (some g) _ alive,
      ap (held_frame b) e,
      v.counted b ne,
    );
  }

  -- It takes a frame off the queue.
  take_from-IsAccounted :
      (q : List Str) → g.holding ≡ none → w.send_q ≡ q → IsAccounted (take_from w i g q)
  unfolding take_from hold times
  take_from-IsAccounted [] idle e = v
  take_from-IsAccounted (c ∷ rest) idle e =
      let order : (w.taken ++ c ∷ []) ++ rest ≡ w.accepted =
        rw (append_assoc w.taken (c ∷ []) rest, ← e, v.ordered) in
      let bound : length rest ≤ 8 = ground (arith, v.bounded, e) in
      elim (Bool-cases (is_empty c)) [
        | inl p ↦ rw p (record {
          ordered = order;
          bounded = bound;
          counted = λ b ne. omega (arith, times-append b w.taken (c ∷ []), v.counted b ne);
        })
        | inr p ↦ rw p (record {
          ordered = order;
          bounded = bound;
          counted = λ b ne. omega (
            arith,
            times-append b w.taken (c ∷ []),
            held-set b w.senders i (some g) _ alive,
            ap (held_frame b) idle,
            v.counted b ne,
          );
        })
      ]

  keep_alive-IsAccounted :
      (getenv : Str → Str) (now : Time)
      → g.holding ≡ none
      → IsAccounted (keep_alive getenv w i g now)
  unfolding keep_alive hold
  keep_alive-IsAccounted getenv now idle =
      elim (Bool-cases (
        is_empty_queue w.send_q
        && leb_ℤ (millis (keep_alive_ms getenv)) (sub_time now g.last_send))) [
          | inl p ↦ rw p (record {
            ordered = v.ordered;
            bounded = v.bounded;
            counted = λ b ne. omega (
              arith,
              held-set b w.senders i (some g) _ alive,
              ap (held_frame b) idle,
              v.counted b ne,
              ap {B = ℕ} (λ x. if x then 1 else 0) ne,
            );
          })
          | inr p ↦ rw p v
        ]

  round_of-IsAccounted :
      (getenv : Str → Str) (r : Round) (now : Time) (fails : Bool) (f : Option Str)
      → g.holding ≡ f
      → IsAccounted (round_of getenv w i r now fails g f)
  unfolding round_of write
  round_of-IsAccounted getenv frame now fails none e = take_from-IsAccounted w.send_q e refl
  round_of-IsAccounted getenv tick now fails none e = keep_alive-IsAccounted getenv now e
  round_of-IsAccounted getenv done now fails none e = gone-IsAccounted
  round_of-IsAccounted getenv writes now fails none e = v
  round_of-IsAccounted getenv frame now fails (some c) e = v
  round_of-IsAccounted getenv tick now fails (some c) e = v
  round_of-IsAccounted getenv done now fails (some c) e = v
  round_of-IsAccounted getenv writes now fails (some c) e =
      written_by-IsAccounted c now fails w.ws e

step_of-IsAccounted :
    (getenv : Str → Str) (w : Wire) (i : ℕ) (r : Round) (now : Time) (fails : Bool)
    (g : Option (Option Sender))
    → get_elem? w.senders i ≡ g
    → IsAccounted w
    → IsAccounted (step_of getenv w i r now fails g)
unfolding step_of
step_of-IsAccounted getenv w i r now fails none e v = v
step_of-IsAccounted getenv w i r now fails (some none) e v = v
step_of-IsAccounted getenv w i r now fails (some (some g)) e v =
    round_of-IsAccounted w i g e v getenv r now fails g.holding refl

Step-IsAccounted :
    (getenv : Str → Str) {w w' : Wire} → Step getenv w w' → IsAccounted w → IsAccounted w'
unfolding hung_up round
Step-IsAccounted getenv {w = w} (sends b) v = send-IsAccounted w b v
Step-IsAccounted getenv {w = w} (dials conn now) v = dialled-IsAccounted w conn now v
Step-IsAccounted getenv {w = w} hangs_up v = record {
  ordered = v.ordered;
  bounded = v.bounded;
  counted = v.counted;
}
Step-IsAccounted getenv {w = w} (runs i r now fails) v =
    step_of-IsAccounted getenv w i r now fails (get_elem? w.senders i) refl v

new_wire-IsAccounted : IsAccounted new_wire
unfolding new_wire sent held times
new_wire-IsAccounted = record {
  ordered = refl;
  bounded = omega arith;
  counted = λ b ne. omega arith;
}

-- Over any connections, errors, ticks and goroutines, however many of these are left over, and with other
-- steps between the moment that a goroutine takes a frame and its write: the frames leave the queue in
-- the order in which they were put on it, at most 8 wait, and a frame other than the frame of silence
-- was written, or waits for its write, at most as often as it left the queue.
pub audio-IsAccounted : (getenv : Str → Str) (w : Wire) → Reach getenv w → IsAccounted w
audio-IsAccounted getenv w here = new_wire-IsAccounted
audio-IsAccounted getenv w (next r st) = Step-IsAccounted getenv st (audio-IsAccounted getenv _ r)

get_elem?-set_alive :
    (gs : List (Option Sender)) (i : ℕ) (old new : Option Sender)
    → get_elem? gs i ≡ some old
    → get_elem? (set gs i new) i ≡ some new
get_elem?-set_alive [] i old new e = ground (arith, e)
get_elem?-set_alive (g ∷ gs) zero old new e = refl
get_elem?-set_alive (g ∷ gs) (suc i) old new e = get_elem?-set_alive gs i old new e

-- The goroutine of a connection outlives it: when the connection has ended and the queue is empty, the
-- next frame that is not empty makes the program panic, once one of the goroutines that wait for a
-- frame has taken it and comes to its write.
pub frame_after_hangup_panics :
    (getenv : Str → Str) (w : Wire) (i : ℕ) (g : Sender) (b : Str) (now later : Time) (fails : Bool)
    → get_elem? w.senders i ≡ some (some g)
    → g.holding ≡ none
    → w.send_q ≡ []
    → is_empty b ≡ false
    → let w' = round getenv (send (hung_up w) b).0 i frame now fails in
      (round getenv w' i writes later fails).crashed ≡ true
unfolding send hung_up round step_of round_of take_from hold write written_by
frame_after_hangup_panics getenv w i g b now later fails alive idle empty some_bytes =
    let g' = some (record g { holding = some b }) in
    rw (empty, alive, idle, some_bytes, get_elem?-set_alive w.senders i (some g) g' alive)
