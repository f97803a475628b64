-- ===== src/Assets/Images/RoundTrip.antt =====
-- Headers as the PNG and JPEG formats lay them out, read back by the parsers of
-- backend/app/services/reference_assets.py.
use cine_forge.Prelude.{
  ℕ, zero, suc, ◌+◌, ◌*◌, ◌≤◌, ◌<◌, ◌≡◌, refl, sym, ◌∙◌, ap, true, false, Option, some, List, [],
  ◌∷◌, ◌++◌, ltb, length, take, All, arith, String, le→not-ltb,
}
use cine_forge.Assets.Bytes.{Bytes, Result, ok, at, drop, slice}
use cine_forge.Assets.Images.{
  Dimensions, png_signature, ihdr, png_dimensions, standalone, starts_frame, next, return,
  jpeg_segment, jpeg_marker, jpeg_step, jpeg_loop, jpeg_dimensions, header_dimensions,
}
use Prim.Native.Nat.{◌/◌, ◌%◌, ◌^◌}

-- A number as two or four bytes, the most significant first.
abbrev pub big2 : ℕ → Bytes
big2 n = n / 256 ∷ n % 256 ∷ []

abbrev pub big4 : ℕ → Bytes
big4 n = n / 2 ^ 24 ∷ n / 2 ^ 16 % 256 ∷ n / 2 ^ 8 % 256 ∷ n % 256 ∷ []

-- The signature, the length and type of the first chunk, and the two numbers it starts with.
abbrev pub png_file : ℕ → ℕ → Bytes → Bytes
png_file width height rest =
    png_signature ++ (0 ∷ 0 ∷ 0 ∷ 13 ∷ []) ++ ihdr ++ big4 width ++ big4 height ++ rest

-- A segment before the frame header: a marker and a payload. Its length counts its own two bytes.
pub record Segment : Type 0 where
  pub marker : ℕ
  pub payload : Bytes

abbrev pub segment_length : Segment → ℕ
segment_length s = length s.payload + 2

abbrev pub segment_bytes : Segment → Bytes
segment_bytes s = 0xff ∷ s.marker ∷ (big2 (segment_length s) ++ s.payload)

-- The marker carries a segment and starts no frame, and the length fits in its two bytes.
abbrev pub IsSegment : Segment → Type 0
IsSegment s =
    (standalone s.marker ≡ false) × (starts_frame s.marker ≡ false) × (segment_length s < 2 ^ 16)

abbrev pub segments_bytes : List Segment → Bytes
segments_bytes [] = []
segments_bytes (s ∷ ss) = segment_bytes s ++ segments_bytes ss

-- The frame header: a length, the precision, then height and width.
abbrev pub frame_bytes : ℕ → ℕ → ℕ → ℕ → ℕ → Bytes → Bytes
frame_bytes marker size precision width height rest =
    0xff ∷ marker ∷ (big2 size ++ (precision ∷ (big2 height ++ big2 width ++ rest)))

abbrev pub jpeg_file : List Segment → Bytes → Bytes
jpeg_file ss frame = 0xff ∷ 0xd8 ∷ (segments_bytes ss ++ frame)

-- From a PNG header with a width and a height of 32 bits, whatever follows it and whatever the
-- MIME type, that width and height are read.
pub header_dimensions-png_file :
    (width height : ℕ) (rest : Bytes) (mime_type : Option String)
    → width < 2 ^ 32
    → height < 2 ^ 32
    → header_dimensions (png_file width height rest) mime_type ≡ ok (some (width, height))
unfolding header_dimensions png_dimensions
header_dimensions-png_file width height rest mime_type hw hh = ground arith

in_range :
    (D : Bytes) (i j : ℕ) → ltb (i + 9) (length D) ≡ true → j ≤ i + 9 → ltb (length D) j ≡ false
in_range D i j long h = ground arith

zero_times : (n : ℕ) → 0 * 256 + n ≡ n
zero_times n = omega arith

-- A round on the bytes of a segment goes on after it, and one on a frame header reads it.
module _ (D : Bytes) (i m : ℕ) where
  at_marker :
      (hi lo : ℕ)
      → ltb (i + 9) (length D) ≡ true
      → at D i ≡ ok 0xff
      → at D (i + 1) ≡ ok m
      → slice D (i + 2) (i + 2 + 2) ≡ hi ∷ lo ∷ []
      → standalone m ≡ false
      → jpeg_step D i ≡ jpeg_segment D m (i + 2) (hi * 256 + lo)
  unfolding jpeg_step jpeg_marker
  at_marker hi lo long e0 e1 e2 no_standalone =
      rw (long, e0, e1)
        (rw (no_standalone, in_range D i (i + 2 + 2) long (omega arith), e2)
          (rw (zero_times hi) refl))

  segment_step :
      (n : ℕ) → 2 ≤ n → starts_frame m ≡ false → jpeg_segment D m (i + 2) n ≡ ok (next (i + 2 + n))
  unfolding jpeg_segment
  segment_step n h no_frame = rw (le→not-ltb 2 n h, no_frame) refl

  frame_step :
      (n height width : ℕ)
      → 2 ≤ n
      → ltb (i + 9) (length D) ≡ true
      → starts_frame m ≡ true
      → height < 2 ^ 16
      → width < 2 ^ 16
      → slice D (i + 2 + 3) (i + 2 + 7) ≡ big2 height ++ big2 width
      → jpeg_segment D m (i + 2) n ≡ ok (return (some (width, height)))
  unfolding jpeg_segment
  frame_step n height width h long frame hh hw e =
      rw (le→not-ltb 2 n h, frame, in_range D i (i + 2 + 7) long (omega arith), e) (ground arith)

suc_plus : (n k : ℕ) → suc n + k ≡ suc (n + k)
suc_plus n k = omega arith

at-append : (pre xs : Bytes) (k : ℕ) → at (pre ++ xs) (length pre + k) ≡ at xs k
at-append [] xs k = ap (at xs) (omega arith)
at-append (x ∷ pre) xs k = ap (at (x ∷ (pre ++ xs))) (suc_plus (length pre) k) ∙ at-append pre xs k

drop-append : (pre xs : Bytes) (k : ℕ) → drop (length pre + k) (pre ++ xs) ≡ drop k xs
drop-append [] xs k = ap (λ n. drop n xs) (omega arith)
drop-append (x ∷ pre) xs k =
    ap (λ n. drop n (x ∷ (pre ++ xs))) (suc_plus (length pre) k) ∙ drop-append pre xs k

length-append : (xs ys : Bytes) → length (xs ++ ys) ≡ length xs + length ys
length-append [] ys = omega arith
length-append (x ∷ xs) ys = omega (arith, length-append xs ys)

append_assoc : (xs ys zs : Bytes) → (xs ++ ys) ++ zs ≡ xs ++ (ys ++ zs)
append_assoc [] ys zs = refl
append_assoc (x ∷ xs) ys zs = ap (λ t. x ∷ t) (append_assoc xs ys zs)

-- What a round reads, from bytes that stand after others.
slice-append :
    (pre xs : Bytes) (i j k l : ℕ)
    → i ≡ length pre + k
    → j ≡ i + l
    → slice (pre ++ xs) i j ≡ take l (drop k xs)
slice-append pre xs i j k l e e' =
    rw (e, drop-append pre xs k) (ap (λ n. take n (drop k xs)) (omega arith))

-- A round at a marker that stands after `pre`.
after :
    (pre rest : Bytes) (m hi lo : ℕ)
    → 6 ≤ length rest
    → standalone m ≡ false
    → jpeg_step (pre ++ (0xff ∷ m ∷ hi ∷ lo ∷ rest)) (length pre)
      ≡ jpeg_segment (pre ++ (0xff ∷ m ∷ hi ∷ lo ∷ rest)) m (length pre + 2) (hi * 256 + lo)
after pre rest m hi lo h no_standalone =
    let D = pre ++ (0xff ∷ m ∷ hi ∷ lo ∷ rest) in
    at_marker D (length pre) m hi lo (ground (arith, length-append pre (0xff ∷ m ∷ hi ∷ lo ∷ rest)))
      (ap (at D) (omega arith) ∙ at-append pre (0xff ∷ m ∷ hi ∷ lo ∷ rest) 0)
      (at-append pre (0xff ∷ m ∷ hi ∷ lo ∷ rest) 1)
      (slice-append pre (0xff ∷ m ∷ hi ∷ lo ∷ rest) (length pre + 2) (length pre + 2 + 2) 2 2 refl
        refl)
      no_standalone

-- A round moves from one segment to what follows it.
past_segment :
    (s : Segment) (pre rest : Bytes) (fuel : ℕ) {r : Result Dimensions}
    → IsSegment s
    → 10 ≤ length rest
    → jpeg_loop fuel ((pre ++ segment_bytes s) ++ rest) (length (pre ++ segment_bytes s)) ≡ r
    → jpeg_loop (suc fuel) (pre ++ (segment_bytes s ++ rest)) (length pre) ≡ r
unfolding jpeg_loop
past_segment s pre rest fuel fits long e =
    let n = segment_length s in
    let D = pre ++ (segment_bytes s ++ rest) in
    rw
      (
        after pre (s.payload ++ rest) s.marker (n / 256) (n % 256)
            (omega (arith, length-append s.payload rest)) fits.0,
        segment_step D (length pre) s.marker (n / 256 * 256 + n % 256) (omega arith) fits.1,
      )
      (ap (jpeg_loop fuel D) (omega (arith, length-append pre (segment_bytes s)))
        ∙ ap (λ t. jpeg_loop fuel t (length (pre ++ segment_bytes s)))
            (sym (append_assoc pre (segment_bytes s) rest))
        ∙ e)

module _ (m size precision width height : ℕ) (rest : Bytes) (no_standalone : standalone m ≡ false)
    (frame : starts_frame m ≡ true) (long_size : 2 ≤ size) (size_fits : size < 2 ^ 16)
    (width_fits : width < 2 ^ 16) (height_fits : height < 2 ^ 16)
    (some_rest : 0 < length rest) where
  at_frame :
      (pre : Bytes) (fuel : ℕ)
      → jpeg_loop (suc fuel) (pre ++ frame_bytes m size precision width height rest) (length pre)
        ≡ ok (some (width, height))
  unfolding jpeg_loop
  at_frame pre fuel =
      let F = frame_bytes m size precision width height rest in
      let long : ltb (length pre + 9) (length (pre ++ F)) ≡ true =
        ground (arith, length-append pre F) in
      rw
        (
          after pre (precision ∷ (big2 height ++ big2 width ++ rest)) m (size / 256) (size % 256)
              (omega arith) no_standalone,
          frame_step (pre ++ F) (length pre) m (size / 256 * 256 + size % 256) height width
              (omega arith) long frame height_fits width_fits
              (slice-append pre F (length pre + 2 + 3) (length pre + 2 + 7) 5 4 (omega arith)
                (omega arith)),
        )
        refl

  long_rest :
      (ss : List Segment)
      → 10 ≤ length (segments_bytes ss ++ frame_bytes m size precision width height rest)
  long_rest [] = omega arith
  long_rest (t ∷ ss) = ground (
    arith,
    length-append (segment_bytes t) (segments_bytes ss),
    long_rest ss,
    length-append (segments_bytes (t ∷ ss)) (frame_bytes m size precision width height rest),
  )

  at_segments :
      (ss : List Segment) (pre : Bytes) (fuel : ℕ)
      → All IsSegment ss
      → length ss < fuel
      → jpeg_loop fuel
          (pre ++ (segments_bytes ss ++ frame_bytes m size precision width height rest))
          (length pre)
        ≡ ok (some (width, height))
  at_segments ss pre zero all h = absurd (omega arith)
  at_segments [] pre (suc fuel) all h = at_frame pre fuel
  at_segments (s ∷ ss) pre (suc fuel) all h =
      let F = frame_bytes m size precision width height rest in
      let next_marker = at_segments ss (pre ++ segment_bytes s) fuel all.1 (omega arith) in
      ap (λ t. jpeg_loop (suc fuel) (pre ++ t) (length pre))
        (append_assoc (segment_bytes s) (segments_bytes ss) F)
      ∙ past_segment s pre (segments_bytes ss ++ F) fuel all.0 (long_rest ss) next_marker

  count : (ss : List Segment) → length ss ≤ length (segments_bytes ss)
  count [] = omega arith
  count (s ∷ ss) = omega (arith, count ss, length-append (segment_bytes s) (segments_bytes ss))

  -- From a JPEG whose frame header, with a marker of its own kind and a width and a height of 16
  -- bits, comes after any number of other segments, whatever those hold, that width and height
  -- are read.
  pub jpeg_dimensions-jpeg_file :
      (ss : List Segment)
      → All IsSegment ss
      → jpeg_dimensions (jpeg_file ss (frame_bytes m size precision width height rest))
        ≡ ok (some (width, height))
  unfolding jpeg_dimensions
  jpeg_dimensions-jpeg_file ss all =
      let F = frame_bytes m size precision width height rest in
      let file = jpeg_file ss F in
      rw (le→not-ltb 4 (length file) (omega (arith, long_rest ss))) (
        at_segments ss (0xff ∷ 0xd8 ∷ []) (length file) all
          (omega (arith, count ss, length-append (segments_bytes ss) F)))
