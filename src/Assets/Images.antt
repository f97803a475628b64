-- ===== src/Assets/Images.antt =====
-- The image headers of backend/app/services/reference_assets.py.
pub mod Total
pub mod RoundTrip
use cine_forge.Prelude.{
  ℕ, zero, suc, ◌+◌, ◌*◌, String, str_eq, Bool, true, false, ◌&&◌, ◌||◌, not, Option, none, some,
  List, [], ◌∷◌, ◌==◌, ltb, leb, if◌then◌else◌, any, length,
}
use cine_forge.Assets.Bytes.{
  Bytes, Result, ok, err, value_error, stuck, ◌>>=◌, at, slice, same_bytes, little, unpack_big,
  unpack_little, unpack_pair,
}
use Prim.Native.Nat.{bit_and, bit_or, ◌/◌, ◌^◌}

-- Width and height, or `None`.
abbrev pub Dimensions : Type 0
Dimensions = Option (ℕ × ℕ)

-- b"\x89PNG\r\n\x1a\n"
abbrev pub png_signature : Bytes
png_signature = 0x89 ∷ 0x50 ∷ 0x4e ∷ 0x47 ∷ 0x0d ∷ 0x0a ∷ 0x1a ∷ 0x0a ∷ []

abbrev pub ihdr : Bytes
ihdr = 0x49 ∷ 0x48 ∷ 0x44 ∷ 0x52 ∷ []

unfoldable pub png_dimensions : Bytes → Result Dimensions
png_dimensions bytes =
    if ltb (length bytes) 24 || not (same_bytes (slice bytes 0 8) png_signature)
    then ok none
    else (if not (same_bytes (slice bytes 12 16) ihdr)
        then ok none
        else (unpack_pair 4 (slice bytes 16 24) >>= λ size. ok (some size)))

-- The markers that carry no segment, and those of a frame header.
abbrev pub standalone : ℕ → Bool
standalone marker = any (λ m. marker == m) (0xd8 ∷ 0xd9 ∷ [])

abbrev pub frame_markers : List ℕ
frame_markers =
    0xc0 ∷ 0xc1 ∷ 0xc2 ∷ 0xc3 ∷ 0xc5 ∷ 0xc6 ∷ 0xc7 ∷ 0xc9 ∷ 0xca ∷ 0xcb ∷ 0xcd ∷ 0xce ∷ 0xcf ∷ []

abbrev pub starts_frame : ℕ → Bool
starts_frame marker = any (λ m. marker == m) frame_markers

-- One round of the loop returns, or goes on at another offset.
pub data Step : Type 0 where
  return : Dimensions → Step
  next : ℕ → Step

unfoldable pub jpeg_segment : Bytes → ℕ → ℕ → ℕ → Result Step
jpeg_segment bytes marker i seg_len =
    if ltb seg_len 2
    then ok (return none)
    else (if starts_frame marker
        then (if ltb (length bytes) (i + 7)
            then ok (return none)
            else (unpack_pair 2 (slice bytes (i + 3) (i + 7)) >>= λ (height, width).
                ok (return (some (width, height)))))
        else ok (next (i + seg_len)))

unfoldable pub jpeg_marker : Bytes → ℕ → ℕ → Result Step
jpeg_marker bytes marker i =
    if standalone marker
    then ok (next i)
    else (if ltb (length bytes) (i + 2)
        then ok (return none)
        else (unpack_big 2 (slice bytes i (i + 2)) >>= jpeg_segment bytes marker i))

unfoldable pub jpeg_step : Bytes → ℕ → Result Step
jpeg_step bytes i =
    if not (ltb (i + 9) (length bytes))
    then ok (return none)
    else (at bytes i >>= λ first.
        if not (first == 0xff)
        then ok (return none)
        else (at bytes (i + 1) >>= λ marker. jpeg_marker bytes marker (i + 2)))

unfoldable pub jpeg_loop : ℕ → Bytes → ℕ → Result Dimensions
jpeg_loop zero bytes i = err stuck
jpeg_loop (suc fuel) bytes i =
    jpeg_step bytes i >>= λ s. elim s [ return d ↦ ok d | next j ↦ jpeg_loop fuel bytes j ]

-- Each round moves the offset forward, so as many rounds as bytes are enough.
unfoldable pub jpeg_dimensions : Bytes → Result Dimensions
jpeg_dimensions bytes =
    if ltb (length bytes) 4 || not (same_bytes (slice bytes 0 2) (0xff ∷ 0xd8 ∷ []))
    then ok none
    else jpeg_loop (length bytes) bytes 2

-- b"RIFF", b"WEBP", b"VP8 ", b"VP8L" and b"VP8X"
abbrev pub riff : Bytes
riff = 0x52 ∷ 0x49 ∷ 0x46 ∷ 0x46 ∷ []

abbrev pub webp : Bytes
webp = 0x57 ∷ 0x45 ∷ 0x42 ∷ 0x50 ∷ []

abbrev pub vp8_lossy : Bytes
vp8_lossy = 0x56 ∷ 0x50 ∷ 0x38 ∷ 0x20 ∷ []

abbrev pub vp8_lossless : Bytes
vp8_lossless = 0x56 ∷ 0x50 ∷ 0x38 ∷ 0x4c ∷ []

abbrev pub vp8_extended : Bytes
vp8_extended = 0x56 ∷ 0x50 ∷ 0x38 ∷ 0x58 ∷ []

-- `b0, b1, b2, b3 = ...`, and the 14-bit width and height that the four bytes pack.
abbrev pub lossless_size : Bytes → Result Dimensions
lossless_size (b0 ∷ b1 ∷ b2 ∷ b3 ∷ []) = ok (
    some (
      1 + bit_or (bit_and b1 0x3f * 2 ^ 8) b0,
      1 + bit_or (bit_or (bit_and b3 0xf * 2 ^ 10) (b2 * 2 ^ 2)) (bit_and b1 0xc0 / 2 ^ 6),
    ))
lossless_size _ = err value_error

unfoldable pub webp_chunk : Bytes → Bytes → Result Dimensions
webp_chunk bytes chunk =
    if same_bytes chunk vp8_lossy && leb 30 (length bytes)
    then (unpack_little 2 (slice bytes 26 28) >>= λ width.
        unpack_little 2 (slice bytes 28 30) >>= λ height.
        ok (some (bit_and width 0x3fff, bit_and height 0x3fff)))
    else (if same_bytes chunk vp8_lossless && leb 25 (length bytes)
        then lossless_size (slice bytes 21 25)
        else (if same_bytes chunk vp8_extended && leb 30 (length bytes)
            then ok (some (1 + little (slice bytes 24 27), 1 + little (slice bytes 27 30)))
            else ok none))

unfoldable pub webp_dimensions : Bytes → Result Dimensions
webp_dimensions bytes =
    if ltb (length bytes) 30
      || not (same_bytes (slice bytes 0 4) riff)
      || not (same_bytes (slice bytes 8 12) webp)
    then ok none
    else webp_chunk bytes (slice bytes 12 16)

abbrev pub mime_is : Option String → String → Bool
mime_is none t = false
mime_is (some mime) t = str_eq mime t

-- The part of `_image_dimensions` that reads the header itself.
unfoldable pub header_dimensions : Bytes → Option String → Result Dimensions
header_dimensions bytes mime_type =
    if mime_is mime_type "image/png" || same_bytes (slice bytes 0 8) png_signature
    then png_dimensions bytes
    else (if mime_is mime_type "image/jpeg" || same_bytes (slice bytes 0 2) (0xff ∷ 0xd8 ∷ [])
        then jpeg_dimensions bytes
        else (if mime_is mime_type "image/webp"
              || (leb 12 (length bytes) && same_bytes (slice bytes 8 12) webp)
            then webp_dimensions bytes
            else ok none))

-- `open_image` stands for Pillow, whose exceptions are caught and leave `None`.
unfoldable pub image_dimensions : (Bytes → Dimensions) → Bytes → Option String → Result Dimensions
image_dimensions open_image bytes mime_type = header_dimensions bytes mime_type >>= λ dims.
    elim dims [ none ↦ ok (open_image bytes) | some size ↦ ok (some size) ]
