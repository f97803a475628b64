-- ===== src/Storyboard/Order/Sorting.antt =====
-- Sorting by position in backend/app/services/storyboard.py: the rows stay the same, in order.
use cine_forge.Prelude.{
  ℕ, ◌≡◌, refl, Bool, true, false, List, [], ◌∷◌, All, All-map, arith, Bool-cases, inl, inr,
}
use cine_forge.Prelude.Json.{ℤ, pos, negsuc}
use cine_forge.Storyboard.Order.{Sibling, same_int, below, insert, sort, by_position}
use cine_forge.Storyboard.Order.Reordering.{insert_position, sort_positions}
use mathlib.Core.List.{Perm}
use mathlib.Core.List.Perm

-- No position stands before a lower one.
abbrev pub Ascends : List ℤ → Type 0
Ascends [] = Unit
Ascends (x ∷ xs) = All (λ y. below y x ≡ false) xs × Ascends xs

abbrev pub InOrder : List Sibling → Type 0
InOrder [] = Unit
InOrder (r ∷ rows) = All (λ s. below s.order_index r.order_index ≡ false) rows × InOrder rows

below_asym : (a b : ℤ) → below a b ≡ true → below b a ≡ false
below_asym (pos a) (pos b) h = ground arith
below_asym (pos a) (negsuc b) h = cc
below_asym (negsuc a) (pos b) h = refl
below_asym (negsuc a) (negsuc b) h = ground arith

below_trans : (a b c : ℤ) → below b a ≡ false → below c b ≡ false → below c a ≡ false
below_trans (pos a) (pos b) (pos c) h h' = ground arith
below_trans (pos a) (pos b) (negsuc c) h h' = cc
below_trans (pos a) (negsuc b) c h h' = cc
below_trans (negsuc a) (pos b) (pos c) h h' = refl
below_trans (negsuc a) (pos b) (negsuc c) h h' = cc
below_trans (negsuc a) (negsuc b) (pos c) h h' = refl
below_trans (negsuc a) (negsuc b) (negsuc c) h h' = ground arith

same-below : (a b : ℤ) → same_int a b ≡ true → below b a ≡ false
same-below (pos a) (pos b) h = ground arith
same-below (pos a) (negsuc b) h = cc
same-below (negsuc a) (pos b) h = cc
same-below (negsuc a) (negsuc b) h = ground arith

-- An insertion keeps what all have.
insert-All :
    (P : Sibling → Type 0) (first : Sibling → Sibling → Bool) (x : Sibling) (xs : List Sibling)
    → P x
    → All P xs
    → All P (insert first x xs)
insert-All P first x [] px h = (px, tt)
insert-All P first x (y ∷ ys) px h = elim (Bool-cases (first y x)) [
  | inl e ↦ rw e (h.0, insert-All P first x ys px h.1)
  | inr e ↦ rw e (px, h)
]

insert_position-All :
    (P : ℤ → Type 0) (x : ℤ) (xs : List ℤ) → P x → All P xs → All P (insert_position x xs)
insert_position-All P x [] px h = (px, tt)
insert_position-All P x (y ∷ ys) px h = elim (Bool-cases (below y x)) [
  | inl e ↦ rw e (h.0, insert_position-All P x ys px h.1)
  | inr e ↦ rw e (px, h)
]

insert_position-Ascends : (x : ℤ) (xs : List ℤ) → Ascends xs → Ascends (insert_position x xs)
insert_position-Ascends x [] h = (tt, tt)
insert_position-Ascends x (y ∷ ys) h = elim (Bool-cases (below y x)) [
  | inl e ↦ rw e (
    insert_position-All (λ z. below z y ≡ false) x ys (below_asym y x e) h.0,
    insert_position-Ascends x ys h.1,
  )
  | inr e ↦ rw e ((e, All-map (λ z e'. below_trans x y z e e') ys h.0), h)
]

pub sort_positions-Ascends : (xs : List ℤ) → Ascends (sort_positions xs)
sort_positions-Ascends [] = tt
sort_positions-Ascends (x ∷ xs) =
    insert_position-Ascends x (sort_positions xs) (sort_positions-Ascends xs)

insert_position-Perm : (x : ℤ) (xs : List ℤ) → Perm (insert_position x xs) (x ∷ xs)
insert_position-Perm x [] = Perm.refl (x ∷ [])
insert_position-Perm x (y ∷ ys) = elim (Bool-cases (below y x)) [
  | inl e ↦ rw e (Perm.trans (Perm.cons y (insert_position-Perm x ys)) (Perm.swap x y ys))
  | inr e ↦ rw e (Perm.refl (x ∷ y ∷ ys))
]

pub sort_positions-Perm : (xs : List ℤ) → Perm (sort_positions xs) xs
sort_positions-Perm [] = Perm.refl []
sort_positions-Perm (x ∷ xs) =
    Perm.trans (insert_position-Perm x (sort_positions xs)) (Perm.cons x (sort_positions-Perm xs))

module _ (first : Sibling → Sibling → Bool) where
  insert-Perm : (x : Sibling) (xs : List Sibling) → Perm (insert first x xs) (x ∷ xs)
  insert-Perm x [] = Perm.refl (x ∷ [])
  insert-Perm x (y ∷ ys) = elim (Bool-cases (first y x)) [
    | inl e ↦ rw e (Perm.trans (Perm.cons y (insert-Perm x ys)) (Perm.swap x y ys))
    | inr e ↦ rw e (Perm.refl (x ∷ y ∷ ys))
  ]

  pub sort-Perm : (xs : List Sibling) → Perm (sort first xs) xs
  sort-Perm [] = Perm.refl []
  sort-Perm (x ∷ xs) = Perm.trans (insert-Perm x (sort first xs)) (Perm.cons x (sort-Perm xs))

-- Whatever the texts of the identities, which settle the order of rows with one position only.
module _ (before_text : ℕ → ℕ → Bool) where
  first-below :
      (a b : Sibling)
      → by_position before_text a b ≡ true
      → below b.order_index a.order_index ≡ false
  first-below a b h = elim (Bool-cases (below a.order_index b.order_index)) [
    | inl lower ↦ below_asym a.order_index b.order_index lower
    | inr not_lower ↦ same-below a.order_index b.order_index (ground (arith, h, not_lower))
  ]

  insert-InOrder :
      (x : Sibling) (xs : List Sibling)
      → InOrder xs
      → InOrder (insert (by_position before_text) x xs)
  insert-InOrder x [] h = (tt, tt)
  insert-InOrder x (y ∷ ys) h = elim (Bool-cases (by_position before_text y x)) [
    | inl e ↦ rw e (
      insert-All (λ s. below s.order_index y.order_index ≡ false) (by_position before_text) x ys
          (first-below y x e) h.0,
      insert-InOrder x ys h.1,
    )
    | inr e ↦
        let over : below y.order_index x.order_index ≡ false = ground (arith, e) in
        rw e (
          (
            over,
            All-map (λ s e'. below_trans x.order_index y.order_index s.order_index over e') ys h.0,
          ),
          h,
        )
  ]

  pub sort-InOrder : (xs : List Sibling) → InOrder (sort (by_position before_text) xs)
  sort-InOrder [] = tt
  sort-InOrder (x ∷ xs) = insert-InOrder x (sort (by_position before_text) xs) (sort-InOrder xs)
