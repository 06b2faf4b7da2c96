-- ===== src/LlmService/Sse.antt =====
-- The decoder of server-sent events in internal/llm/server.go.
use mathlib.Core.List.{append_assoc}
use yuzu_agent_webrtc_toy.Prelude.{
  ℕ, zero, suc, ◌<◌, ◌≡◌, refl, ap, sym, ◌∙◌, false, List, [], ◌∷◌, ◌++◌, Option, none, some,
  length, ◌==◌,
}
use yuzu_agent_webrtc_toy.Text.{
  Str, codes, is_empty, trim_space, trim_left, trim_right, is_space, trim_right_idem,
  trim_right_newline, trim_right-append,
}
use yuzu_agent_webrtc_toy.LlmService.{lines_from, lines_of, has_prefix, field, next}

-- A text without a line break.
abbrev pub HasNoBreak : Str → Type 0
HasNoBreak [] = Unit
HasNoBreak (c ∷ s) = ((c == 10) ≡ false) × HasNoBreak s

lines_from-line :
    (pre w s : Str)
    → HasNoBreak w
    → lines_from pre (w ++ 10 ∷ s) ≡ (pre ++ (w ++ 10 ∷ [])) ∷ lines_from [] s
unfolding lines_from
lines_from-line pre [] s h = refl
lines_from-line pre (c ∷ w) s (e, h) =
    rw (e, lines_from-line (pre ++ c ∷ []) w s h, append_assoc pre (c ∷ []) (w ++ 10 ∷ []))

-- A text of ASCII.
abbrev pub IsAscii : Str → Type 0
IsAscii [] = Unit
IsAscii (c ∷ s) = ((c < 128) × IsAscii s)

-- Data that an event can carry: something in ASCII, with no line break in it and no white space
-- around it.
pub record IsData (d : Str) : Type 0 where
  pub nonempty : is_empty d ≡ false
  pub trimmed : trim_space d ≡ d
  pub unbroken : HasNoBreak d
  pub ascii : IsAscii d

-- An event as the service of Azure sends it.
abbrev pub event_text : Str → Str
event_text d = codes "data: " ++ (d ++ 10 ∷ (10 ∷ []))

trim_right-data : (d : Str) → trim_space d ≡ d → trim_right d ≡ d
unfolding trim_space
trim_right-data d h = ap trim_right (sym h) ∙ trim_right_idem (trim_left d) ∙ h

blank_line : trim_space (10 ∷ []) ≡ []
unfolding trim_space
blank_line = refl

module _ (d : Str) (h : IsData d) where
  trim_space-line : trim_space (codes "data: " ++ (d ++ 10 ∷ [])) ≡ codes "data: " ++ d
  unfolding trim_space trim_left is_space
  trim_space-line =
      trim_right_newline (codes "data: " ++ d)
      ∙ trim_right-append (codes "data: ") d (trim_right-data d h.trimmed) h.nonempty

  trim_space-value : trim_space (32 ∷ d) ≡ d
  unfolding trim_space trim_left is_space
  trim_space-value = h.trimmed

  -- The lines of an event in front of a body.
  lines_of-event_text :
      (s : Str)
      → lines_of (event_text d ++ s) ≡ (codes "data: " ++ (d ++ 10 ∷ [])) ∷ ((10 ∷ []) ∷ lines_of s)
  lines_of-event_text s = rw (append_assoc d (10 ∷ (10 ∷ [])) s) (
      lines_from-line [] (codes "data: " ++ d) (10 ∷ s)
        (refl, (refl, (refl, (refl, (refl, (refl, h.unbroken))))))
      ∙ ap (λ (ls : List Str). (codes "data: " ++ (d ++ 10 ∷ [])) ∷ ls)
          (lines_from-line [] [] s tt))

  -- An event in front of a body is decoded to its data, and the body is left.
  pub next-event_text :
      (s : Str) → next [] [] (lines_of (event_text d ++ s)) ≡ some ([], d, lines_of s)
  unfolding next field has_prefix
  next-event_text s =
      rw (lines_of-event_text s, trim_space-line, trim_space-value, blank_line, h.nonempty)

-- The data of all events of a body, as the session asks for one after the other, on fuel.
abbrev with_first : Str → Option (List Str) → Option (List Str)
with_first d none = none
with_first d (some ds) = some (d ∷ ds)

abbrev decode_later :
    (List Str → Option (List Str)) → Option (Str × Str × List Str) → Option (List Str)
decode_later later none = some []
decode_later later (some (event, d, lines)) = with_first d (later lines)

unfoldable pub decode_all : ℕ → List Str → Option (List Str)
decode_all zero lines = none
decode_all (suc fuel) lines = decode_later (decode_all fuel) (next [] [] lines)

-- A body of events, and the data that each of them can carry.
unfoldable pub body_of : List Str → Str
body_of [] = []
body_of (d ∷ ds) = event_text d ++ body_of ds

abbrev pub AllData : List Str → Type 0
AllData [] = Unit
AllData (d ∷ ds) = IsData d × AllData ds

no_event : next [] [] (lines_of []) ≡ none
unfolding next lines_from
no_event = refl

-- A body of events, each of one line of data in ASCII that is not empty, has no line break and no white
-- space around it: it is decoded to their data, in order, by one call of the decoder for each event
-- and one for the end of the body.
pub decode_all-body_of :
    (ds : List Str) → AllData ds → decode_all (suc (length ds)) (lines_of (body_of ds)) ≡ some ds
unfolding decode_all body_of
decode_all-body_of [] h = rw no_event
decode_all-body_of (d ∷ ds) (h, hs) =
    rw (next-event_text d h (body_of ds), decode_all-body_of ds hs)
