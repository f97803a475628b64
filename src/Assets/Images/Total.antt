-- ===== src/Assets/Images/Total.antt =====
-- The header parsers of backend/app/services/reference_assets.py read inside the bytes they are
-- given, whatever those are, and the loop over JPEG segments ends.
use cine_forge.Prelude.{
  ℕ, zero, suc, ◌+◌, ◌≤◌, ◌<◌, ◌≡◌, refl, Bool, true, false, ◌&&◌, Option, [], ◌∷◌, ltb, length,
  arith, String, Bool-cases, inl, inr, le→not-ltb,
}
use cine_forge.Assets.Bytes.{
  Bytes, big_from, Result, ◌>>=◌, ok, err, slice, length-slice, at-in_range, unpack_big-in_range,
  unpack_little-in_range, unpack_pair-in_range,
}
use cine_forge.Assets.Images.{
  Dimensions, png_dimensions, Step, return, next, jpeg_segment, standalone, jpeg_marker, jpeg_step,
  jpeg_loop, jpeg_dimensions, lossless_size, webp_chunk, webp_dimensions, header_dimensions,
  image_dimensions,
}

-- Neither an exception nor a loop without end.
abbrev pub returns : Result Dimensions → Bool
returns (ok d) = true
returns (err e) = false

png-returns : (bytes : Bytes) → returns (png_dimensions bytes) ≡ true
unfolding png_dimensions
png-returns bytes = ground (arith, unpack_pair-in_range bytes 4 16 24 refl)

-- A round returns, or moves the offset forward from an offset in range.
abbrev proceeds : Bytes → ℕ → Result Step → Bool
proceeds bytes i (ok (return d)) = true
proceeds bytes i (ok (next j)) = ltb i j && ltb (i + 9) (length bytes)
proceeds bytes i (err e) = false

segment-proceeds :
    (bytes : Bytes) (marker i n : ℕ)
    → i + 9 < length bytes
    → proceeds bytes i (jpeg_segment bytes marker (i + 2) n) ≡ true
unfolding jpeg_segment
segment-proceeds bytes marker i n h =
    ground (arith, unpack_pair-in_range bytes 2 (i + 2 + 3) (i + 2 + 7) (omega arith))

marker-proceeds :
    (bytes : Bytes) (marker i : ℕ)
    → i + 9 < length bytes
    → proceeds bytes i (jpeg_marker bytes marker (i + 2)) ≡ true
unfolding jpeg_marker
marker-proceeds bytes marker i h = elim (Bool-cases (standalone marker)) [
  | inl e ↦ rw e (ground arith)
  | inr e ↦
      rw (e, le→not-ltb (i + 2 + 2) (length bytes) (omega arith))
        (rw (unpack_big-in_range bytes 2 (i + 2) (omega arith))
          (segment-proceeds bytes marker i (big_from 0 (slice bytes (i + 2) (i + 2 + 2))) h))
]

step-proceeds : (bytes : Bytes) (i : ℕ) → proceeds bytes i (jpeg_step bytes i) ≡ true
unfolding jpeg_step
step-proceeds bytes i = elim (Bool-cases (ltb (i + 9) (length bytes))) [
  | inl e ↦
      let h : i + 9 < length bytes = ground arith in
      let (first, read) = at-in_range bytes i (omega arith) in
      let (marker, read') = at-in_range bytes (i + 1) (omega arith) in
      ground (arith, marker-proceeds bytes marker i h)
  | inr e ↦ rw e refl
]

goes_on :
    (fuel : ℕ) (bytes : Bytes) (i : ℕ) (r : Result Step)
    → proceeds bytes i r ≡ true
    → ((j : ℕ) → i < j → i + 9 < length bytes → returns (jpeg_loop fuel bytes j) ≡ true)
    → returns (r >>= λ s. elim s [ return d ↦ ok d | next j ↦ jpeg_loop fuel bytes j ]) ≡ true
goes_on fuel bytes i (ok (return d)) e f = refl
goes_on fuel bytes i (ok (next j)) e f = f j (ground arith) (ground arith)
goes_on fuel bytes i (err x) e f = cc

loop-returns :
    (fuel : ℕ) (bytes : Bytes) (i : ℕ)
    → 0 < fuel
    → length bytes ≤ fuel + i
    → returns (jpeg_loop fuel bytes i) ≡ true
unfolding jpeg_loop
loop-returns zero bytes i p h = absurd (omega arith)
loop-returns (suc fuel) bytes i p h =
    goes_on fuel bytes i (jpeg_step bytes i) (step-proceeds bytes i)
      λ j lt long. loop-returns fuel bytes j (omega arith) (omega arith)

jpeg-returns : (bytes : Bytes) → returns (jpeg_dimensions bytes) ≡ true
unfolding jpeg_dimensions
jpeg-returns bytes = ground (arith, loop-returns (length bytes) bytes 2)

lossless-returns : (bytes : Bytes) → length bytes ≡ 4 → returns (lossless_size bytes) ≡ true
lossless-returns [] h = absurd (omega arith)
lossless-returns (a ∷ []) h = absurd (omega arith)
lossless-returns (a ∷ b ∷ []) h = absurd (omega arith)
lossless-returns (a ∷ b ∷ c ∷ []) h = absurd (omega arith)
lossless-returns (a ∷ b ∷ c ∷ d ∷ []) h = refl
lossless-returns (a ∷ b ∷ c ∷ d ∷ e ∷ bytes) h = absurd (omega arith)

chunk-returns : (bytes chunk : Bytes) → 30 ≤ length bytes → returns (webp_chunk bytes chunk) ≡ true
unfolding webp_chunk
chunk-returns bytes chunk h = ground (
  arith,
  unpack_little-in_range bytes 2 26 (omega arith),
  unpack_little-in_range bytes 2 28 (omega arith),
  lossless-returns (slice bytes 21 25) (length-slice bytes 21 25 (omega arith) (omega arith)),
)

webp-returns : (bytes : Bytes) → returns (webp_dimensions bytes) ≡ true
unfolding webp_dimensions
webp-returns bytes = ground (arith, chunk-returns bytes (slice bytes 12 16))

-- Whatever the bytes, the MIME type and what Pillow makes of them: reading the dimensions of an
-- image returns. No read leaves the bytes, no unpacking gets another length than its own, and
-- the loop over the segments of a JPEG ends.
pub image_dimensions-returns :
    (open_image : Bytes → Dimensions) (bytes : Bytes) (mime_type : Option String)
    → returns (image_dimensions open_image bytes mime_type) ≡ true
unfolding image_dimensions header_dimensions
image_dimensions-returns open_image bytes mime_type =
    ground (arith, png-returns bytes, jpeg-returns bytes, webp-returns bytes)
