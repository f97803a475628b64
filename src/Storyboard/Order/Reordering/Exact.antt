-- ===== src/Storyboard/Order/Reordering/Exact.antt =====
-- What `reorder` of backend/app/services/storyboard.py leaves.
use cine_forge.Prelude.{
  length-map, ℕ, suc, ◌+◌, ◌≡◌, refl, sym, subst, ap, ◌∙◌, true, not, none, some, List, [], ◌∷◌,
  ◌++◌, ◌==◌, find?, find?-sound, any, select, map, length, All, All-map, arith, Bool-cases, inl,
  inr, ==_iff,
}
use cine_forge.Prelude.Json.{ℤ}
use cine_forge.Prelude.Session.{ok}
use cine_forge.Storyboard.Order.{Sibling, is_live, flush}
use cine_forge.Storyboard.Order.Flush.{Free, same_int_sym, flush-Free}
use cine_forge.Storyboard.Order.Sorting.{Ascends, sort_positions-Ascends, sort_positions-Perm}
use cine_forge.Storyboard.Order.Reindex.{placed-forall, placed-Apart, placed-Free}
use cine_forge.Storyboard.Order.Reordering.{
  plus, highest_position, insert_position, sort_positions, target_positions, all_known, matches,
  staged_after, ordered_rows, reorder,
}
use cine_forge.Storyboard.Order.Reordering.Positions.{
  plus-apart, plus-beyond, BelowTop, highest_position-BelowTop, select-All, map-All,
  sort_positions-All, Different, sort_positions-Different, select-Different, FreeAt, others-FreeAt,
  append-FreeAt, beyond-FreeAt, Different-Pairwise, All-forall,
}
use mathlib.Core.List.{Perm}

-- Rows in the order of identities, with positions.
abbrev IsAssigned : List ℤ → List ℕ → List Sibling → Type 0
IsAssigned zs ids rows = (map (λ r. r.order_index) rows ≡ zs) × (map (λ r. r.id) rows ≡ ids)

-- A row is found for each identity that a row has.
find?-any :
    (i : ℕ) (rows : List Sibling)
    → any (λ r. r.id == i) rows ≡ true
    → (r : Sibling) × (find? (λ x. x.id == i) rows ≡ some r)
find?-any i [] h = absurd (ground arith)
find?-any i (r ∷ rows) h = elim (Bool-cases (r.id == i)) [
  | inl e ↦ (r, rw e refl)
  | inr e ↦ let (x, found) = find?-any i rows (ground arith) in (x, rw e found)
]

ordered_rows-IsAssigned :
    (rows : List Sibling) (zs : List ℤ) (ids : List ℕ)
    → length zs ≡ length ids
    → all_known rows ids ≡ true
    → (result : List Sibling) × (ordered_rows rows zs ids ≡ some result) × IsAssigned zs ids result
unfolding ordered_rows
ordered_rows-IsAssigned rows [] [] e h = ([], refl, (refl, refl))
ordered_rows-IsAssigned rows [] (i ∷ ids) e h = absurd (omega arith)
ordered_rows-IsAssigned rows (z ∷ zs) [] e h = absurd (omega arith)
ordered_rows-IsAssigned rows (z ∷ zs) (i ∷ ids) e h =
    let (r, found) = find?-any i rows (ground arith) in
    let (rest, made, (orders, named)) =
      ordered_rows-IsAssigned rows zs ids (omega arith) (ground arith) in
    let same : r.id ≡ i = (==_iff r.id i).0 (find?-sound (λ x. x.id == i) rows {a = r} found) in
    (
      record r { order_index = z } ∷ rest,
      rw (found, made) refl,
      (ap (λ t. z ∷ t) orders, cc (same, named)),
    )

length-insert_position : (x : ℤ) (xs : List ℤ) → length (insert_position x xs) ≡ suc (length xs)
length-insert_position x [] = refl
length-insert_position x (y ∷ ys) = ground (arith, length-insert_position x ys)

length-sort_positions : (xs : List ℤ) → length (sort_positions xs) ≡ length xs
length-sort_positions [] = refl
length-sort_positions (x ∷ xs) =
    omega (arith, length-insert_position x (sort_positions xs), length-sort_positions xs)

both-FreeAt :
    (xs ys : List Sibling) (zs : List ℤ)
    → All (FreeAt xs) zs
    → All (FreeAt ys) zs
    → All (FreeAt (xs ++ ys)) zs
both-FreeAt xs ys [] h h' = tt
both-FreeAt xs ys (z ∷ zs) h h' = (append-FreeAt xs ys z h.0 h'.0, both-FreeAt xs ys zs h.1 h'.1)

module _ (all_rows : List Sibling) where
  abbrev active : List Sibling
  active = select is_live all_rows

  -- The staging positions are beyond those of the active rows.
  staged-FreeAt :
      (z : ℤ) → BelowTop (highest_position all_rows) z → FreeAt (staged_after all_rows active) z
  staged-FreeAt z top =
      placed-Free (λ k. plus (highest_position all_rows) (length active + 1 + k)) 0 active
        (record { id = 0; order_index = z; archived_at = none })
        λ k.
          same_int_sym (plus (highest_position all_rows) (length active + 1 + k)) z
          ∙ plus-beyond z (highest_position all_rows) (length active + 1 + k) top (omega arith)

  targets-FreeAt :
      Different (map (λ r. r.order_index) all_rows)
      → All
          (FreeAt (select (λ r. not (is_live r)) all_rows ++ staged_after all_rows active))
          (target_positions active)
  targets-FreeAt d = sort_positions-All _ (map (λ r. r.order_index) active) (
      both-FreeAt (select (λ r. not (is_live r)) all_rows) (staged_after all_rows active)
        (map (λ r. r.order_index) active) (others-FreeAt is_live all_rows d)
        (All-map staged-FreeAt (map (λ r. r.order_index) active) (
          map-All (BelowTop (highest_position all_rows)) active
            (select-All _ is_live all_rows (highest_position-BelowTop all_rows)))))

module _ (arrange : List Sibling → List Sibling)
    (perm : (rows : List Sibling) → Perm (arrange rows) rows) (all_rows : List Sibling) where
  staged_flush :
      flush arrange all_rows (staged_after all_rows (select is_live all_rows))
      ≡ some (staged_after all_rows (select is_live all_rows))
  staged_flush =
      let h = highest_position all_rows in
      let n = length (select is_live all_rows) + 1 in
      flush-Free arrange all_rows (staged_after all_rows (select is_live all_rows))
        (perm (staged_after all_rows (select is_live all_rows)))
        (placed-Apart (λ k. plus h (n + k)) (λ a b lt. plus-apart h (n + a) (n + b) (omega arith)) 0
          (select is_live all_rows))
        (placed-forall (Free all_rows) (λ w. hlevel) (λ k. plus h (n + k)) 0
          (select is_live all_rows)
          λ r k lt le.
            beyond-FreeAt all_rows h (n + k) (omega arith) (highest_position-BelowTop all_rows))

  targets_flush :
      (rows : List Sibling)
      → Different (map (λ r. r.order_index) all_rows)
      → map (λ r. r.order_index) rows ≡ target_positions (select is_live all_rows)
      → flush arrange
          (select (λ r. not (is_live r)) all_rows
            ++ staged_after all_rows (select is_live all_rows))
          rows
        ≡ some rows
  targets_flush rows d e =
      flush-Free arrange _ rows (perm rows)
        (Different-Pairwise rows
          (rw e (sort_positions-Different _ (select-Different is_live all_rows d))))
        (All-forall (FreeAt _) (λ z. hlevel) rows (rw e (targets-FreeAt all_rows d)))

  -- Where the siblings have different positions and the client sends each active one once: whatever
  -- the order in which a flush writes its rows, reordering meets no collision at any single row.
  -- It leaves the active siblings in the client's order, at ascending positions that are those
  -- that the active siblings had.
  pub reorder-exact :
      (ids : List ℕ)
      → Different (map (λ r. r.order_index) all_rows)
      → matches (select is_live all_rows) ids ≡ true
      → (rows : List Sibling) × (reorder arrange all_rows ids ≡ ok rows)
        × (map (λ r. r.id) rows ≡ ids)
        × Ascends (map (λ r. r.order_index) rows)
        × Perm (map (λ r. r.order_index) rows) (map (λ r. r.order_index) (select is_live all_rows))
  unfolding reorder
  reorder-exact ids d m =
      let had = map (λ r. r.order_index) (select is_live all_rows) in
      let known : all_known (select is_live all_rows) ids ≡ true = ground arith in
      let counts : length ids ≡ length (select is_live all_rows) = ground arith in
      let (rows, made, in_place) =
        ordered_rows-IsAssigned (select is_live all_rows)
          (target_positions (select is_live all_rows)) ids
          (omega (
            arith,
            length-sort_positions had,
            length-map (select is_live all_rows) (λ r. r.order_index),
          ))
          known in
      (
        rows,
        rw (m, staged_flush, made, targets_flush rows d (in_place.0)) refl,
        in_place.1,
        subst Ascends (sym in_place.0) (sort_positions-Ascends had),
        subst (λ zs. Perm zs had) (sym in_place.0) (sort_positions-Perm had),
      )
