-- ===== src/Tts/WavFiles.antt =====
-- What the parser of WAV files in internal/tts/server.go reads.
use yuzu_agent_webrtc_toy.Prelude.{
  ℕ, zero, suc, ◌+◌, ◌-◌, ◌*◌, ◌/◌, ◌%◌, ◌≤◌, ◌<◌, ◌≡◌, ◌≢◌, refl, sym, subst, ap, true, false, [],
  ◌∷◌, ◌++◌, Option, none, some, arith, length, get_elem?, take, leb, ltb, ◌==◌, if◌then◌else◌,
  Bool-cases, Option-cases, inl, inr,
}
use yuzu_agent_webrtc_toy.Prelude.Int.{◌+ℤ◌}
use yuzu_agent_webrtc_toy.Text.{Str, codes, str_eq}
use yuzu_agent_webrtc_toy.Tts.{slice}
use yuzu_agent_webrtc_toy.Tts.Wav.{
  WavResult, pcm16, panic, out_of_fuel, join2, format_of, byte_at, u16_at, u32_at, read_format,
  average, to_mono, read_data, on_format, on_chunk, chunk_loop, read_wav_pcm16,
}

on_chunk-ne-out_of_fuel :
    (rest : ℕ → ℕ → WavResult) (b : Str) (off channels : ℕ) (size : Option ℕ)
    → ((next ch : ℕ) → off + 8 ≤ next → rest next ch ≢ out_of_fuel)
    → on_chunk rest b off channels size ≢ out_of_fuel
unfolding on_chunk on_format read_data
on_chunk-ne-out_of_fuel rest b off channels none ih = ground arith
on_chunk-ne-out_of_fuel rest b off channels (some size) ih =
    elim (Option-cases (read_format b (off + 8))) [
      | inl e ↦ ground (arith, e, ih (off + 8 + size) channels)
      | inr (f, e) ↦ ground (arith, e, ih (off + 8 + size) channels, ih (off + 8 + size) f.channels)
    ]

chunk_loop-ne-out_of_fuel :
    (fuel : ℕ) (b : Str) (off channels : ℕ)
    → length b < off + fuel + 8
    → chunk_loop (suc fuel) b off channels ≢ out_of_fuel
unfolding chunk_loop
chunk_loop-ne-out_of_fuel zero b off channels h = ground arith
chunk_loop-ne-out_of_fuel (suc fuel) b off channels h = ground (
  arith,
  on_chunk-ne-out_of_fuel (chunk_loop (suc fuel) b) b off channels (u32_at b (off + 4))
      (λ next ch le. chunk_loop-ne-out_of_fuel fuel b next ch (omega arith)),
)

-- The loop over the chunks of a file ends within as many rounds as the file has bytes, whatever the
-- file holds.
pub read_wav_pcm16-ne-out_of_fuel : (b : Str) → read_wav_pcm16 b ≢ out_of_fuel
unfolding read_wav_pcm16
read_wav_pcm16-ne-out_of_fuel b = elim (Bool-cases (ltb (length b) 44)) [
  | inl e ↦ rw e (λ h. cc h)
  | inr e ↦
      let fuel : length b ≡ suc (length b - 1) = ground arith in
      let ends = chunk_loop-ne-out_of_fuel (length b - 1) b 12 0 (omega arith) in
      ground (arith, e, subst (λ (n : ℕ). chunk_loop n b 12 0 ≢ out_of_fuel) (sym fuel) ends)
]

-- Little-endian bytes of a number.
abbrev pub le16 : ℕ → Str → Str
le16 n rest = (n % 256) ∷ ((n / 256 % 256) ∷ rest)

abbrev pub le32 : ℕ → Str → Str
le32 n rest = le16 (n % 65536) (le16 (n / 65536) rest)

-- The reference: the usual header of 44 bytes in front of 16-bit samples.
abbrev pub wav_file : ℕ → ℕ → Str → Str
wav_file channels rate samples =
    codes "RIFF"
    ++ le32 (36 + length samples) (
        codes "WAVEfmt "
        ++ le32 16 (
            le16 1 (
              le16 channels (
                le32 rate (
                  le32 (rate * channels * 2) (
                    le16 (channels * 2)
                      (le16 16 (codes "data" ++ le32 (length samples) samples))))))))

-- A sample in both channels.
abbrev pub in_both : Str → Str
in_both [] = []
in_both (a ∷ []) = []
in_both (a ∷ (b ∷ samples)) = a ∷ (b ∷ (a ∷ (b ∷ in_both samples)))

take_all : (b : Str) → take (length b) b ≡ b
take_all [] = refl
take_all (x ∷ b) = ap (λ (s : Str). x ∷ s) (take_all b)

u32_le32 :
    (n : ℕ)
    → n < 4294967296
    → n % 65536 % 256
        + n % 65536 / 256 % 256 * 256
        + (n / 65536 % 256 + n / 65536 / 256 % 256 * 256) * 65536
      ≡ n
u32_le32 n h = omega arith

module _ (channels rate : ℕ) (samples : Str) where
  length-wav_file : length (wav_file channels rate samples) ≡ 44 + length samples
  length-wav_file = omega arith

  -- The round of the format chunk.
  format_round :
      (fuel : ℕ)
      → channels < 65536
      → chunk_loop (suc fuel) (wav_file channels rate samples) 12 0
        ≡ chunk_loop fuel (wav_file channels rate samples) 36 channels
  unfolding chunk_loop on_chunk on_format read_format u32_at u16_at byte_at str_eq
  format_round fuel c =
      let b = wav_file channels rate samples in
      let fits : leb 20 (length b) ≡ true = ground (arith, length-wav_file) in
      let inside : ltb (length b) 36 ≡ false = ground (arith, length-wav_file) in
      let same : channels % 256 + channels / 256 % 256 * 256 ≡ channels = omega arith in
      rw (fits, inside, same)

  -- The round of the data chunk.
  data_round :
      (fuel : ℕ)
      → length samples < 4294967296
      → chunk_loop (suc fuel) (wav_file channels rate samples) 36 channels
        ≡ pcm16 (if channels == 2 then to_mono samples else samples)
  unfolding chunk_loop on_chunk read_data u32_at u16_at byte_at str_eq
  data_round fuel n =
      let b = wav_file channels rate samples in
      let fits : leb 44 (length b) ≡ true = ground (arith, length-wav_file) in
      let size = u32_le32 (length samples) n in
      let inside : ltb (length b) (44 + length samples) ≡ false = ground (arith, length-wav_file) in
      let whole : 44 + length samples - 44 ≡ length samples = omega arith in
      rw (fits, size, inside, whole, take_all samples)

  -- What a file in the usual form is read as.
  pub read_wav_pcm16-wav_file :
      channels < 65536
      → length samples < 4294967296
      → read_wav_pcm16 (wav_file channels rate samples)
        ≡ pcm16 (if channels == 2 then to_mono samples else samples)
  unfolding read_wav_pcm16 str_eq
  read_wav_pcm16-wav_file c n =
      let b = wav_file channels rate samples in
      let long : ltb (length b) 44 ≡ false = ground (arith, length-wav_file) in
      let fuel : length b ≡ suc (suc (42 + length samples)) = omega (arith, length-wav_file) in
      rw
        (long, fuel, format_round (suc (42 + length samples)) c, data_round (42 + length samples) n)

-- The average of a sample with itself is that sample.
average_self : (u : ℕ) → u < 65536 → average u u ≡ u
unfolding average ◌+ℤ◌
average_self u h = ground arith

-- Samples of two bytes.
abbrev pub IsSamples : Str → Type 0
IsSamples [] = Unit
IsSamples (a ∷ []) = ⊥
IsSamples (a ∷ (b ∷ samples)) = (a < 256) × (b < 256) × IsSamples samples

to_mono-in_both : (samples : Str) → IsSamples samples → to_mono (in_both samples) ≡ samples
unfolding to_mono
to_mono-in_both [] h = refl
to_mono-in_both (a ∷ []) h = absurd h
to_mono-in_both (a ∷ (b ∷ samples)) (p, q, h) =
    let low : (a + b * 256) % 256 ≡ a = omega arith in
    let high : (a + b * 256) / 256 ≡ b = omega arith in
    rw (average_self (a + b * 256) (omega arith), low, high, to_mono-in_both samples h)

-- A file in the usual form, at any rate, is read back: with one channel its samples, and with two
-- channels that carry the same samples, these.
pub read_wav_pcm16-round_trip :
    (rate : ℕ) (samples : Str)
    → IsSamples samples
    → length (in_both samples) < 4294967296
    → length samples < 4294967296
    → (read_wav_pcm16 (wav_file 1 rate samples) ≡ pcm16 samples)
      × (read_wav_pcm16 (wav_file 2 rate (in_both samples)) ≡ pcm16 samples)
read_wav_pcm16-round_trip rate samples h m n = (
  read_wav_pcm16-wav_file 1 rate samples (omega arith) n,
  rw (read_wav_pcm16-wav_file 2 rate (in_both samples) (omega arith) m, to_mono-in_both samples h),
)

get_elem?-behind : (b : Str) (i : ℕ) → length b ≤ i → get_elem? b i ≡ none
get_elem?-behind [] i h = refl
get_elem?-behind (x ∷ b) zero h = absurd (omega arith)
get_elem?-behind (x ∷ b) (suc i) h = get_elem?-behind b i (omega arith)

join2-none : (x : Option ℕ) → join2 x none ≡ none
join2-none none = refl
join2-none (some x) = refl

format_of-none : (t c r : Option ℕ) → format_of t c r none ≡ none
format_of-none none c r = refl
format_of-none (some t) none r = refl
format_of-none (some t) (some c) none = refl
format_of-none (some t) (some c) (some r) = refl

read_format-none : (b : Str) (off : ℕ) → length b ≤ off + 15 → read_format b off ≡ none
unfolding read_format
read_format-none b off h =
    let last : get_elem? b (off + 14 + 1) ≡ none =
      get_elem?-behind b (off + 14 + 1) (omega arith) in
    let bits : u16_at b (off + 14) ≡ none =
      unfold u16_at byte_at in rw (last, join2-none (get_elem? b (off + 14))) in
    rw (bits, format_of-none (u16_at b off) (u16_at b (off + 2)) (u32_at b (off + 4)))

-- A format chunk of less than 16 bytes at the end of a file makes the parser panic, wherever it stands.
pub short_format_panics :
    (fuel : ℕ) (b : Str) (off channels size : ℕ)
    → slice b off (off + 4) ≡ codes "fmt "
    → u32_at b (off + 4) ≡ some size
    → length b ≡ off + 8 + size
    → size < 16
    → chunk_loop (suc fuel) b off channels ≡ panic
unfolding chunk_loop on_chunk on_format str_eq
short_format_panics fuel b off channels size cid csz e short =
    let fits : leb (off + 8) (length b) ≡ true = ground arith in
    let inside : ltb (length b) (off + 8 + size) ≡ false = ground arith in
    rw (fits, csz, cid, inside, read_format-none b (off + 8) (omega arith))
