-- ===== src/Assets/Bytes.antt =====
-- Python's operations on byte strings, with the exceptions of those that can fail.
use cine_forge.Prelude.{
  ℕ, zero, suc, ◌+◌, ◌-◌, ◌*◌, ◌≤◌, ◌<◌, ◌≡◌, refl, Bool, true, false, List, [], ◌∷◌, ◌==◌, ◌&&◌,
  if◌then◌else◌, length, take, arith,
}

abbrev pub Bytes : Type 0
Bytes = List ℕ

-- IndexError, struct.error, ValueError of an unpacking. `stuck` is no exception: a loop of the
-- model that has used up its fuel.
pub data Fault : Type 0 where
  index_error struct_error value_error stuck : Fault

pub data Result {ℓ} (A : Type ℓ) : Type ℓ where
  ok : A → Result A
  err : Fault → Result A

infixl 5 ◌>>=◌
abbrev pub ◌>>=◌ {ℓ κ} : {A : Type ℓ} {B : Type κ} → Result A → (A → Result B) → Result B
ok a >>= f = f a
err e >>= f = err e

abbrev pub drop {ℓ} : {A : Type ℓ} → ℕ → List A → List A
drop zero xs = xs
drop (suc n) [] = []
drop (suc n) (x ∷ xs) = drop n xs

-- `bytes[n]`
abbrev pub at : Bytes → ℕ → Result ℕ
at [] n = err index_error
at (b ∷ bs) zero = ok b
at (b ∷ bs) (suc n) = at bs n

-- `bytes[i:j]`
abbrev pub slice : Bytes → ℕ → ℕ → Bytes
slice bytes i j = take (j - i) (drop i bytes)

-- `bytes == other`
abbrev pub same_bytes : Bytes → Bytes → Bool
same_bytes [] [] = true
same_bytes [] (c ∷ cs) = false
same_bytes (b ∷ bs) [] = false
same_bytes (b ∷ bs) (c ∷ cs) = b == c && same_bytes bs cs

-- The number that bytes spell, the most or the least significant first.
abbrev pub big_from : ℕ → Bytes → ℕ
big_from n [] = n
big_from n (b ∷ bs) = big_from (n * 256 + b) bs

abbrev pub little : Bytes → ℕ
little [] = 0
little (b ∷ bs) = b + 256 * little bs

-- `struct.unpack` of one unsigned number of `width` bytes, big endian and little endian, and of
-- two, big endian.
abbrev pub unpack_big : ℕ → Bytes → Result ℕ
unpack_big width bs = if length bs == width then ok (big_from 0 bs) else err struct_error

abbrev pub unpack_little : ℕ → Bytes → Result ℕ
unpack_little width bs = if length bs == width then ok (little bs) else err struct_error

abbrev pub unpack_pair : ℕ → Bytes → Result (ℕ × ℕ)
unpack_pair width bs =
    if length bs == width + width
    then ok (big_from 0 (take width bs), big_from 0 (drop width bs))
    else err struct_error

pub length-drop : (n : ℕ) (xs : Bytes) → length (drop n xs) ≡ length xs - n
length-drop zero xs = omega arith
length-drop (suc n) [] = omega arith
length-drop (suc n) (x ∷ xs) = omega (arith, length-drop n xs)

pub length-take : (n : ℕ) (xs : Bytes) → n ≤ length xs → length (take n xs) ≡ n
length-take zero xs h = omega arith
length-take (suc n) [] h = omega arith
length-take (suc n) (x ∷ xs) h = omega (arith, length-take n xs (omega arith))

pub length-slice : (xs : Bytes) (i j : ℕ) → i ≤ j → j ≤ length xs → length (slice xs i j) ≡ j - i
length-slice xs i j lo hi =
    omega
      (arith, length-drop i xs, length-take (j - i) (drop i xs) (omega (arith, length-drop i xs)))

-- Reads in range succeed.
pub at-in_range : (xs : Bytes) (n : ℕ) → n < length xs → (b : ℕ) × (at xs n ≡ ok b)
at-in_range [] n h = absurd (omega arith)
at-in_range (x ∷ xs) zero h = (x, refl)
at-in_range (x ∷ xs) (suc n) h = at-in_range xs n (omega arith)

-- So do unpackings of a slice that has the width.
pub unpack_big-in_range :
    (xs : Bytes) (w i : ℕ)
    → i + w ≤ length xs
    → unpack_big w (slice xs i (i + w)) ≡ ok (big_from 0 (slice xs i (i + w)))
unpack_big-in_range xs w i h = ground (arith, length-slice xs i (i + w))

pub unpack_little-in_range :
    (xs : Bytes) (w i : ℕ)
    → i + w ≤ length xs
    → unpack_little w (slice xs i (i + w)) ≡ ok (little (slice xs i (i + w)))
unpack_little-in_range xs w i h = ground (arith, length-slice xs i (i + w))

pub unpack_pair-in_range :
    (xs : Bytes) (w i j : ℕ)
    → i + (w + w) ≡ j
    → j ≤ length xs
    → unpack_pair w (slice xs i j)
      ≡ ok (big_from 0 (take w (slice xs i j)), big_from 0 (drop w (slice xs i j)))
unpack_pair-in_range xs w i j e h = ground (arith, length-slice xs i j)
