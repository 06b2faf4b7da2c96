-- ===== src/Tts/Wav.antt =====
-- `readWAVPCM16` of internal/tts/server.go: a small parser of WAV files, which no caller uses yet.
use yuzu_agent_webrtc_toy.Prelude.{
  ℕ, zero, suc, ◌+◌, ◌-◌, ◌*◌, ◌/◌, ◌%◌, not, ◌||◌, [], ◌∷◌, Option, none, some, length, get_elem?,
  leb, ltb, ◌==◌, if◌then◌else◌,
}
use yuzu_agent_webrtc_toy.Prelude.Int.{ℤ, pos, negsuc, neg, ◌+ℤ◌}
use yuzu_agent_webrtc_toy.Text.{Str, codes, str_eq}
use yuzu_agent_webrtc_toy.Tts.{slice}

-- The samples, an error, a read behind the end of the file, or no fuel left.
pub data WavResult : Type 0 where
  pcm16 : Str → WavResult
  wav_error : Str → WavResult
  panic out_of_fuel : WavResult

-- `b[i]`
unfoldable pub byte_at : Str → ℕ → Option ℕ
byte_at b i = get_elem? b i

-- Little-endian numbers at an index; a missing byte is a panic.
abbrev pub join2 : Option ℕ → Option ℕ → Option ℕ
join2 none y = none
join2 (some x) none = none
join2 (some x) (some y) = some (x + y * 256)

abbrev join4 : Option ℕ → Option ℕ → Option ℕ
join4 none y = none
join4 (some x) none = none
join4 (some x) (some y) = some (x + y * 65536)

unfoldable pub u16_at : Str → ℕ → Option ℕ
unfolding byte_at
u16_at b i = join2 (byte_at b i) (byte_at b (i + 1))

unfoldable pub u32_at : Str → ℕ → Option ℕ
unfolding u16_at
u32_at b i = join4 (u16_at b i) (u16_at b (i + 2))

-- What the header of the format chunk says: its tag, the channels, the rate and the bits.
pub record Format : Type 0 where
  pub tag : ℕ
  pub channels : ℕ
  pub rate : ℕ
  pub bits : ℕ

abbrev pub format_of : Option ℕ → Option ℕ → Option ℕ → Option ℕ → Option Format
format_of (some tag) (some channels) (some rate) (some bits) =
    some (record { tag = tag; channels = channels; rate = rate; bits = bits })
format_of _ _ _ _ = none

unfoldable pub read_format : Str → ℕ → Option Format
unfolding u16_at u32_at
read_format b off =
    format_of (u16_at b off) (u16_at b (off + 2)) (u32_at b (off + 4)) (u16_at b (off + 14))

-- `int16(u)` and `uint16(i)`
abbrev int16 : ℕ → ℤ
int16 u = if ltb u 32768 then pos u else negsuc (65535 - u)

abbrev uint16 : ℤ → ℕ
uint16 (pos n) = n % 65536
uint16 (negsuc n) = 65535 - n % 65536

-- `avg /= 2`, towards zero.
abbrev halve : ℤ → ℤ
halve (pos n) = pos (n / 2)
halve (negsuc n) = neg ((n + 1) / 2)

-- The average of two samples, as an `uint16`.
unfoldable pub average : ℕ → ℕ → ℕ
unfolding ◌+ℤ◌
average a c = uint16 (halve (int16 a +ℤ int16 c))

-- The loop that averages two channels; what is left of less than four bytes gives zeros.
unfoldable pub to_mono : Str → Str
unfolding average
to_mono [] = []
to_mono (a ∷ []) = []
to_mono (a ∷ (b ∷ [])) = 0 ∷ []
to_mono (a ∷ (b ∷ (c ∷ []))) = 0 ∷ []
to_mono (a ∷ (b ∷ (c ∷ (d ∷ raw)))) =
    let u = average (a + b * 256) (c + d * 256) in (u % 256) ∷ ((u / 256) ∷ to_mono raw)

-- A chunk "data" whose bytes begin at an index.
unfoldable pub read_data : Str → ℕ → ℕ → ℕ → WavResult
read_data b off size channels =
    let raw = slice b off (off + size) in
    if ltb (length b) (off + size)
    then wav_error (codes "no data chunk")
    else pcm16 (if channels == 2 then to_mono raw else raw)

-- A chunk "fmt " that was read, and the loop from behind it.
unfoldable pub on_format : (ℕ → ℕ → WavResult) → ℕ → Option Format → WavResult
on_format rest next none = panic
on_format rest next (some f) =
    if not (f.tag == 1) || not (f.bits == 16)
    then wav_error (codes "unsupported WAV format")
    else rest next f.channels

-- A chunk at an index, by its size, and the loop from behind it.
unfoldable pub on_chunk : (ℕ → ℕ → WavResult) → Str → ℕ → ℕ → Option ℕ → WavResult
on_chunk rest b off channels none = panic
on_chunk rest b off channels (some size) =
    let cid = slice b off (off + 4) in
    let next = off + 8 + size in
    if str_eq cid (codes "fmt ")
    then (if ltb (length b) next
        then wav_error (codes "bad fmt chunk")
        else on_format rest next (read_format b (off + 8)))
    else if str_eq cid (codes "data")
    then read_data b (off + 8) size channels
    else rest next channels

-- The loop over the chunks, on fuel.
unfoldable pub chunk_loop : ℕ → Str → ℕ → ℕ → WavResult
chunk_loop zero b off channels = out_of_fuel
chunk_loop (suc fuel) b off channels =
    if leb (off + 8) (length b)
    then on_chunk (chunk_loop fuel b) b off channels (u32_at b (off + 4))
    else wav_error (codes "no data chunk")

-- `readWAVPCM16`
unfoldable pub read_wav_pcm16 : Str → WavResult
read_wav_pcm16 b =
    if ltb (length b) 44
      || (not (str_eq (slice b 0 4) (codes "RIFF")) || not (str_eq (slice b 8 12) (codes "WAVE")))
    then wav_error (codes "not a WAV")
    else chunk_loop (length b) b 12 0
