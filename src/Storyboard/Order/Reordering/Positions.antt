-- ===== src/Storyboard/Order/Reordering/Positions.antt =====
-- Positions beyond others, and positions in order, for backend/app/services/storyboard.py.
use cine_forge.Prelude.{
  ◌++◌, ℕ, ◌<◌, ◌≡◌, refl, Bool, false, not, List, [], ◌∷◌, any, select, map, All, All-map, arith,
  Bool-cases, inl, inr,
}
use cine_forge.Prelude.Json.{ℤ, pos, negsuc}
use cine_forge.Storyboard.Order.{Sibling, same_int, below}
use cine_forge.Storyboard.Order.Flush.{Apart, same_int_sym}
use cine_forge.Storyboard.Order.Reordering.{
  plus, later, highest_position, insert_position, sort_positions,
}
use mathlib.Core.List.{Mem, Pairwise, forall_mem-cons, not-mem-nil}

pub plus-beyond : (a h : ℤ) (k : ℕ) → below h a ≡ false → 0 < k → same_int a (plus h k) ≡ false
plus-beyond (pos a) (pos h) k e p = ground arith
plus-beyond (pos a) (negsuc h) k e p = cc
plus-beyond (negsuc a) (pos h) k e p = refl
plus-beyond (negsuc a) (negsuc h) k e p = ground arith

pub plus-apart : (h : ℤ) (j k : ℕ) → j < k → same_int (plus h j) (plus h k) ≡ false
plus-apart (pos h) j k lt = ground arith
plus-apart (negsuc h) j k lt = ground arith

below-later : (a x y : ℤ) → below x a ≡ false → below (later y x) a ≡ false
below-later (pos a) (pos x) (pos y) e = ground arith
below-later (pos a) (pos x) (negsuc y) e = ground arith
below-later (pos a) (negsuc x) y e = cc
below-later (negsuc a) (pos x) (pos y) e = ground arith
below-later (negsuc a) (pos x) (negsuc y) e = ground arith
below-later (negsuc a) (negsuc x) (pos y) e = ground arith
below-later (negsuc a) (negsuc x) (negsuc y) e = ground arith

below_irrefl : (z : ℤ) → below z z ≡ false
below_irrefl (pos n) = ground arith
below_irrefl (negsuc n) = ground arith

below-later_self : (y x : ℤ) → below (later y x) y ≡ false
below-later_self (pos y) (pos x) = ground arith
below-later_self (pos y) (negsuc x) = ground arith
below-later_self (negsuc y) (pos x) = ground arith
below-later_self (negsuc y) (negsuc x) = ground arith

-- No row stands above the highest position.
abbrev pub BelowTop : ℤ → ℤ → Type 0
BelowTop h z = below h z ≡ false

pub highest_position-BelowTop :
    (rows : List Sibling) → All (λ r. BelowTop (highest_position rows) r.order_index) rows
highest_position-BelowTop [] = tt
highest_position-BelowTop (r ∷ []) = (below_irrefl r.order_index, tt)
highest_position-BelowTop (r ∷ s ∷ rows) = (
  below-later_self r.order_index (highest_position (s ∷ rows)),
  All-map (λ t e. below-later t.order_index (highest_position (s ∷ rows)) r.order_index e)
      (s ∷ rows) (highest_position-BelowTop (s ∷ rows)),
)

pub select-All :
    (P : Sibling → Type 0) (p : Sibling → Bool) (rows : List Sibling)
    → All P rows
    → All P (select p rows)
select-All P p [] h = tt
select-All P p (r ∷ rows) h = elim (Bool-cases (p r)) [
  | inl e ↦ rw e (h.0, select-All P p rows h.1)
  | inr e ↦ rw e (select-All P p rows h.1)
]

pub map-All :
    (P : ℤ → Type 0) (rows : List Sibling)
    → All (λ r. P r.order_index) rows
    → All P (map (λ r. r.order_index) rows)
map-All P [] h = tt
map-All P (r ∷ rows) h = (h.0, map-All P rows h.1)

-- Sorting keeps what all positions have, and that they differ.
insert_position-All :
    (P : ℤ → Type 0) (x : ℤ) (xs : List ℤ) → P x → All P xs → All P (insert_position x xs)
insert_position-All P x [] px h = (px, tt)
insert_position-All P x (y ∷ ys) px h = elim (Bool-cases (below y x)) [
  | inl e ↦ rw e (h.0, insert_position-All P x ys px h.1)
  | inr e ↦ rw e (px, h)
]

pub sort_positions-All : (P : ℤ → Type 0) (xs : List ℤ) → All P xs → All P (sort_positions xs)
sort_positions-All P [] h = tt
sort_positions-All P (x ∷ xs) h =
    insert_position-All P x (sort_positions xs) h.0 (sort_positions-All P xs h.1)

abbrev pub Different : List ℤ → Type 0
Different [] = Unit
Different (x ∷ xs) = All (λ y. same_int x y ≡ false) xs × Different xs

insert_position-Different :
    (x : ℤ) (xs : List ℤ)
    → All (λ y. same_int x y ≡ false) xs
    → Different xs
    → Different (insert_position x xs)
insert_position-Different x [] h d = (tt, tt)
insert_position-Different x (y ∷ ys) h d = elim (Bool-cases (below y x)) [
  | inl e ↦ rw e (
    insert_position-All (λ z. same_int y z ≡ false) x ys (rw (same_int_sym y x) h.0) d.0,
    insert_position-Different x ys h.1 d.1,
  )
  | inr e ↦ rw e (h, d)
]

pub sort_positions-Different : (xs : List ℤ) → Different xs → Different (sort_positions xs)
sort_positions-Different [] d = tt
sort_positions-Different (x ∷ xs) d =
    insert_position-Different x (sort_positions xs)
      (sort_positions-All (λ y. same_int x y ≡ false) xs d.0) (sort_positions-Different xs d.1)

pub select-map-All :
    (P : ℤ → Type 0) (p : Sibling → Bool) (rows : List Sibling)
    → All P (map (λ r. r.order_index) rows)
    → All P (map (λ r. r.order_index) (select p rows))
select-map-All P p [] h = tt
select-map-All P p (r ∷ rows) h = elim (Bool-cases (p r)) [
  | inl e ↦ rw e (h.0, select-map-All P p rows h.1)
  | inr e ↦ rw e (select-map-All P p rows h.1)
]

pub select-Different :
    (p : Sibling → Bool) (rows : List Sibling)
    → Different (map (λ r. r.order_index) rows)
    → Different (map (λ r. r.order_index) (select p rows))
select-Different p [] d = tt
select-Different p (r ∷ rows) d = elim (Bool-cases (p r)) [
  | inl e ↦ rw e (
    select-map-All (λ y. same_int r.order_index y ≡ false) p rows d.0,
    select-Different p rows d.1,
  )
  | inr e ↦ rw e (select-Different p rows d.1)
]

-- No row of a table has a position.
abbrev pub FreeAt : List Sibling → ℤ → Type 0
FreeAt table z = any (λ r. same_int r.order_index z) table ≡ false

FreeAt-select :
    (p : Sibling → Bool) (z : ℤ) (rows : List Sibling)
    → All (λ y. same_int z y ≡ false) (map (λ r. r.order_index) rows)
    → FreeAt (select p rows) z
FreeAt-select p z [] h = refl
FreeAt-select p z (r ∷ rows) h = elim (Bool-cases (p r)) [
  | inl e ↦ rw e (rw (same_int_sym r.order_index z, h.0) (FreeAt-select p z rows h.1))
  | inr e ↦ rw e (FreeAt-select p z rows h.1)
]

FreeAt-cons :
    (r : Sibling) (table : List Sibling) (zs : List ℤ)
    → All (λ y. same_int r.order_index y ≡ false) zs
    → All (FreeAt table) zs
    → All (FreeAt (r ∷ table)) zs
FreeAt-cons r table [] h f = tt
FreeAt-cons r table (z ∷ zs) h f = (rw (h.0) f.0, FreeAt-cons r table zs h.1 f.1)

-- The rows that fail a test leave the positions of those that pass it free.
pub others-FreeAt :
    (p : Sibling → Bool) (rows : List Sibling)
    → Different (map (λ r. r.order_index) rows)
    → All (FreeAt (select (λ r. not (p r)) rows)) (map (λ r. r.order_index) (select p rows))
others-FreeAt p [] d = tt
others-FreeAt p (r ∷ rows) d = elim (Bool-cases (p r)) [
  | inl e ↦ rw e (FreeAt-select (λ x. not (p x)) r.order_index rows d.0, others-FreeAt p rows d.1)
  | inr e ↦ rw e (
      FreeAt-cons r (select (λ x. not (p x)) rows) (map (λ x. x.order_index) (select p rows))
        (select-map-All (λ y. same_int r.order_index y ≡ false) p rows d.0)
        (others-FreeAt p rows d.1))
]

pub append-FreeAt : (xs ys : List Sibling) (z : ℤ) → FreeAt xs z → FreeAt ys z → FreeAt (xs ++ ys) z
append-FreeAt [] ys z h h' = h'
append-FreeAt (x ∷ xs) ys z h h' = ground (arith, append-FreeAt xs ys z)

pub beyond-FreeAt :
    (table : List Sibling) (h : ℤ) (k : ℕ)
    → 0 < k
    → All (λ r. BelowTop h r.order_index) table
    → FreeAt table (plus h k)
beyond-FreeAt [] h k p top = refl
beyond-FreeAt (r ∷ table) h k p top =
    rw (plus-beyond r.order_index h k top.0 p) (beyond-FreeAt table h k p top.1)

-- Rows with different positions are apart from each other.
apart-forall :
    (z : ℤ) (rows : List Sibling)
    → All (λ y. same_int z y ≡ false) (map (λ r. r.order_index) rows)
    → (v : Sibling) → Mem v rows
    → same_int z v.order_index ≡ false
apart-forall z [] h = λ v m. absurd (not-mem-nil m)
apart-forall z (r ∷ rows) h = (forall_mem-cons (λ v. hlevel)).1 (h.0, apart-forall z rows h.1)

pub Different-Pairwise :
    (rows : List Sibling) → Different (map (λ r. r.order_index) rows) → Pairwise Apart rows
Different-Pairwise [] d = Pairwise.nil
Different-Pairwise (r ∷ rows) d =
    Pairwise.cons (apart-forall r.order_index rows d.0) (Different-Pairwise rows d.1)

pub All-forall :
    (P : ℤ → Type 0)
    → ((z : ℤ) → IsProp (P z))
    → (rows : List Sibling) → All P (map (λ r. r.order_index) rows)
    → (v : Sibling) → Mem v rows
    → P v.order_index
All-forall P pP [] h = λ v m. absurd (not-mem-nil m)
All-forall P pP (r ∷ rows) h =
    (forall_mem-cons (λ v. pP v.order_index)).1 (h.0, All-forall P pP rows h.1)
