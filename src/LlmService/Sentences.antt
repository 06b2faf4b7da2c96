-- ===== src/LlmService/Sentences.antt =====
-- The sentences that internal/llm/server.go sends, beside the tokens that it sends.
use mathlib.Core.List.{append_assoc, append-nil}
use yuzu_agent_webrtc_toy.Prelude.{
  ℕ, zero, suc, ◌<◌, ◌≡◌, refl, sym, true, false, not, ◌&&◌, List, [], ◌∷◌, ◌++◌, Option, none,
  some, arith, length, Bool-cases, Option-cases, inl, inr, if◌then◌else◌,
}
use yuzu_agent_webrtc_toy.Text.{Str, codes, str_eq, is_empty, trim_space, joined}
use yuzu_agent_webrtc_toy.Maps.{Map}
use yuzu_agent_webrtc_toy.Json.{Value}
use yuzu_agent_webrtc_toy.LlmService.{
  ServerMessage, connected, token, sentence, error_message, usage, field, next, Chunk, to_string,
  is_sentence_boundary, on_content, on_usage, on_chunk, and_then, flush, stream_error, Stream,
  on_event, event_loop,
}

-- The texts of the tokens, and of the sentences.
unfoldable pub tokens : List ServerMessage → List Str
tokens [] = []
tokens (token t ∷ ms) = t ∷ tokens ms
tokens (sentence t ∷ ms) = tokens ms
tokens (connected id ∷ ms) = tokens ms
tokens (error_message code message ∷ ms) = tokens ms
tokens (usage p c t ∷ ms) = tokens ms

unfoldable pub sentences : List ServerMessage → List Str
sentences [] = []
sentences (sentence t ∷ ms) = t ∷ sentences ms
sentences (token t ∷ ms) = sentences ms
sentences (connected id ∷ ms) = sentences ms
sentences (error_message code message ∷ ms) = sentences ms
sentences (usage p c t ∷ ms) = sentences ms

tokens-append : (ms ns : List ServerMessage) → tokens (ms ++ ns) ≡ tokens ms ++ tokens ns
unfolding tokens
tokens-append [] ns = refl
tokens-append (token t ∷ ms) ns = rw (tokens-append ms ns)
tokens-append (sentence t ∷ ms) ns = tokens-append ms ns
tokens-append (connected id ∷ ms) ns = tokens-append ms ns
tokens-append (error_message code message ∷ ms) ns = tokens-append ms ns
tokens-append (usage p c t ∷ ms) ns = tokens-append ms ns

sentences-append :
    (ms ns : List ServerMessage) → sentences (ms ++ ns) ≡ sentences ms ++ sentences ns
unfolding sentences
sentences-append [] ns = refl
sentences-append (sentence t ∷ ms) ns = rw (sentences-append ms ns)
sentences-append (token t ∷ ms) ns = sentences-append ms ns
sentences-append (connected id ∷ ms) ns = sentences-append ms ns
sentences-append (error_message code message ∷ ms) ns = sentences-append ms ns
sentences-append (usage p c t ∷ ms) ns = sentences-append ms ns

joined-append : (ss ts : List Str) → joined (ss ++ ts) ≡ joined ss ++ joined ts
unfolding joined
joined-append [] ts = refl
joined-append (s ∷ ss) ts = rw (joined-append ss ts, append_assoc s (joined ss) (joined ts))

-- Sentences that end as such, but for the last one, which may have been cut off.
abbrev pub IsCut : List Str → Type 0
IsCut [] = Unit
IsCut (s ∷ []) = is_empty s ≡ false
IsCut (s ∷ (t ∷ ss)) = (is_sentence_boundary s ≡ true) × IsCut (t ∷ ss)

-- Only sentences that end as such.
abbrev AllEnd : List Str → Type 0
AllEnd [] = Unit
AllEnd (s ∷ ss) = (is_sentence_boundary s ≡ true) × AllEnd ss

boundary-nonempty : (s : Str) → is_sentence_boundary s ≡ true → is_empty s ≡ false
unfolding is_sentence_boundary trim_space
boundary-nonempty [] h = cc h
boundary-nonempty (c ∷ s) h = refl

IsCut-append : (ss ts : List Str) → AllEnd ss → IsCut ts → IsCut (ss ++ ts)
IsCut-append [] ts h k = k
IsCut-append (s ∷ []) [] (e, h) k = boundary-nonempty s e
IsCut-append (s ∷ []) (t ∷ ts) (e, h) k = (e, k)
IsCut-append (s ∷ (s' ∷ ss)) ts (e, h) k = (e, IsCut-append (s' ∷ ss) ts h k)

-- The decoder uses up at least one line.
next-shorter :
    (event chunk event' chunk' : Str) (lines rest : List Str)
    → next event chunk lines ≡ some (event', chunk', rest)
    → length rest < length lines
unfolding next
next-shorter event chunk event' chunk' [] rest h = ground arith
next-shorter event chunk event' chunk' (raw ∷ lines) rest h =
    let line = trim_space raw in
    let step = if is_empty line then (event, chunk) else field line event chunk in
    elim (Bool-cases (is_empty line && not (is_empty chunk))) [
      | inl e ↦
          let found : some (event, chunk, lines) ≡ some (event', chunk', rest) = rw e at h in
          ground (arith, found)
      | inr e ↦
          let later : next step.0 step.1 lines ≡ some (event', chunk', rest) = rw e at h in
          let shorter = next-shorter step.0 step.1 event' chunk' lines rest later in omega arith
    ]

-- What a chunk sends: sentences that end as such, and with the text that still waits they are the
-- text that waited and the tokens.
record Conserves (buf : Str) (r : Str × List ServerMessage) : Type 0 where
  whole : joined (sentences r.1) ++ r.0 ≡ buf ++ joined (tokens r.1)
  ends : AllEnd (sentences r.1)

on_content-Conserves : (buf content : Str) → Conserves buf (on_content buf content)
unfolding on_content sentences tokens joined
on_content-Conserves buf [] = record { whole = sym (append-nil buf); ends = tt }
on_content-Conserves buf (c ∷ content) =
    elim (Bool-cases (is_sentence_boundary (buf ++ c ∷ content))) [
      | inl e ↦ rw e (record { whole = simp append-nil; ends = (e, tt) })
      | inr e ↦ rw e (record { whole = simp append-nil; ends = tt })
    ]

on_usage-silent :
    (u : Option (Map Value)) → (sentences (on_usage u) ≡ []) × (tokens (on_usage u) ≡ [])
unfolding on_usage sentences tokens
on_usage-silent none = (refl, refl)
on_usage-silent (some m) = (refl, refl)

on_chunk-Conserves : (buf : Str) (m : Option Chunk) → Conserves buf (on_chunk buf m)
unfolding on_chunk sentences tokens joined
on_chunk-Conserves buf none = record { whole = sym (append-nil buf); ends = tt }
on_chunk-Conserves buf (some m) = elim (Bool-cases m.has_choices) [
  | inl e ↦
      let (buf', sent) = on_content buf (to_string m.content) in
      let known = on_content-Conserves buf (to_string m.content) in
      let (quiet, still) = on_usage-silent m.usage in
      let same : sentences (sent ++ on_usage m.usage) ≡ sentences sent =
        rw (sentences-append sent (on_usage m.usage), quiet, append-nil) in
      let same' : tokens (sent ++ on_usage m.usage) ≡ tokens sent =
        rw (tokens-append sent (on_usage m.usage), still, append-nil) in
      rw e (record { whole = rw (same, same', known.whole); ends = rw same known.ends })
  | inr e ↦ rw e (record { whole = sym (append-nil buf); ends = tt })
]

-- What a session has sent when its loop has ended: sentences that, with a text that is lost, are what
-- waited and the tokens. Nothing is lost where nothing cancels it.
pub record Ended (buf : Str) (s : Stream) (r : Option (List ServerMessage)) : Type 0 where
  pub sent : List ServerMessage
  pub ended : r ≡ some sent
  pub lost : Str
  pub whole : joined (sentences sent) ++ lost ≡ buf ++ joined (tokens sent)
  pub cut : IsCut (sentences sent)
  pub kept : ((n : ℕ) → s.cancelled n ≡ false) → lost ≡ []

flush-Ended :
    (buf : Str) (s : Stream) (front : List ServerMessage)
    → sentences front ≡ []
    → tokens front ≡ []
    → Ended buf s (some (front ++ flush buf))
unfolding flush sentences tokens joined
flush-Ended [] s front q t = record {
  sent = front;
  ended = simp append-nil;
  lost = [];
  whole = rw (q, t);
  cut = rw q tt;
  kept = λ _. refl;
}
flush-Ended (c ∷ buf) s front q t = record {
  sent = front ++ sentence (c ∷ buf) ∷ [];
  ended = refl;
  lost = [];
  whole =
      rw
        (
          sentences-append front (sentence (c ∷ buf) ∷ []),
          tokens-append front (sentence (c ∷ buf) ∷ []),
          q,
          t,
        )
        (simp append-nil);
  cut = rw (sentences-append front (sentence (c ∷ buf) ∷ []), q) refl;
  kept = λ _. refl;
}

-- What a chunk sent, before what the rest of the loop sends.
after_chunk :
    (buf buf' : Str) (front : List ServerMessage) (s : Stream) (r : Option (List ServerMessage))
    → Conserves buf (buf', front)
    → Ended buf' s r
    → Ended buf s (and_then front r)
after_chunk buf buf' front s r known rest =
    let more = rest.sent in
    record {
      sent = front ++ more;
      ended = rw rest.ended;
      lost = rest.lost;
      whole = rw (
        sentences-append front more,
        tokens-append front more,
        joined-append (sentences front) (sentences more),
        joined-append (tokens front) (tokens more),
        append_assoc (joined (sentences front)) (joined (sentences more)) rest.lost,
        rest.whole,
        ← append_assoc (joined (sentences front)) buf' (joined (tokens more)),
        known.whole,
        append_assoc buf (joined (tokens front)) (joined (tokens more)),
      );
      cut =
          rw (sentences-append front more)
            (IsCut-append (sentences front) (sentences more) known.ends rest.cut);
      kept = rest.kept;
    }

stream_error-silent :
    (err : Option Str) → (sentences (stream_error err) ≡ []) × (tokens (stream_error err) ≡ [])
unfolding sentences tokens
stream_error-silent none = (refl, refl)
stream_error-silent (some e) = (refl, refl)

-- Cancelled, the session is over at once, and what waited is lost.
cancelled-Ended : (buf : Str) (s : Stream) (n : ℕ) → s.cancelled n ≡ true → Ended buf s (some [])
unfolding sentences tokens joined
cancelled-Ended buf s n e = record {
  sent = [];
  ended = refl;
  lost = buf;
  whole = sym (append-nil buf);
  cut = tt;
  kept = λ all. cc (all n);
}

-- With more fuel than lines the loop over a body ends, whatever the body holds, whatever the parser
-- makes of it, however it ends and whenever the session is cancelled: each sentence but the last ends
-- as one, and in a row, with a text that is lost, the sentences are the text that waited and all the
-- tokens. Where nothing cancels the session, nothing is lost.
pub event_loop-Ended :
    (fuel : ℕ) (s : Stream) (buf : Str) (lines : List Str)
    → length lines < fuel
    → Ended buf s (event_loop fuel s buf lines)
unfolding event_loop on_event sentences tokens
event_loop-Ended zero s buf lines h = absurd (omega arith)
event_loop-Ended (suc fuel) s buf lines h = elim (Bool-cases (s.cancelled (length lines))) [
  | inl e ↦ rw e (cancelled-Ended buf s (length lines) e)
  | inr e ↦ elim (Option-cases (next [] [] lines)) [
    | inl over ↦
        let (q, t) = stream_error-silent s.read_error in
        rw (e, over) (flush-Ended buf s (stream_error s.read_error) q t)
    | inr ((event, chunk, rest), found) ↦
        let (buf', sent) = on_chunk buf (s.parse chunk) in
        let shorter = next-shorter [] [] event chunk lines rest found in
        elim (Bool-cases (str_eq chunk (codes "[DONE]"))) [
          | inl last ↦ rw (e, found, last) (flush-Ended buf s [] refl refl)
          | inr more ↦
              rw (e, found, more)
                (after_chunk buf buf' sent s (event_loop fuel s buf' rest)
                  (on_chunk-Conserves buf (s.parse chunk))
                  (event_loop-Ended fuel s buf' rest (omega arith)))
        ]
  ]
]
