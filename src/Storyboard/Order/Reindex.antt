-- ===== src/Storyboard/Order/Reindex.antt =====
-- What `_reindex_active_siblings` of backend/app/services/storyboard.py leaves.
use cine_forge.Prelude.{
  ℕ, zero, suc, ◌+◌, ◌≤◌, ◌<◌, ◌≡◌, refl, sym, subst, ap, ◌∙◌, Bool, true, false, not, some, List,
  [], ◌∷◌, ◌++◌, select, map, length, All, arith, Bool-cases, inl, inr,
}
use cine_forge.Prelude.Json.{ℤ, pos, negsuc}
use cine_forge.Storyboard.Order.{
  Sibling, below, same_int, magnitude, max_magnitude, is_live, insert, sort, placed, flush,
  by_position, by_id, staging_base, staged, actives, tombstones, final, flush_final,
  reindex_active_siblings,
}
use cine_forge.Storyboard.Order.Sorting.{InOrder, sort-Perm, sort-InOrder}
use cine_forge.Storyboard.Order.Flush.{Free, Apart, flush-Free}
use mathlib.Core.List.{
  Mem, Pairwise, Pairwise-append, Perm, forall_mem-cons, not-mem-nil, mem-append,
}
use mathlib.Core.Logic.Or

pub placed-forall :
    (P : Sibling → Type 0)
    → ((w : Sibling) → IsProp (P w))
    → (f : ℕ → ℤ) (n : ℕ) (rows : List Sibling)
    → ((r : Sibling) (k : ℕ) → k < n + length rows → n ≤ k → P (record r { order_index = f k }))
    → (w : Sibling) → Mem w (placed f n rows)
    → P w
placed-forall P pP f n [] h = λ w m. absurd (not-mem-nil m)
placed-forall P pP f n (r ∷ rows) h = (forall_mem-cons pP).1 (
  h r n (omega arith) (omega arith),
  placed-forall P pP f (suc n) rows λ r' k lt le. h r' k (omega arith) (omega arith),
)

pub placed-Apart :
    (f : ℕ → ℤ)
    → ((a b : ℕ) → a < b → same_int (f a) (f b) ≡ false)
    → (n : ℕ) (rows : List Sibling) → Pairwise Apart (placed f n rows)
placed-Apart f inj n [] = Pairwise.nil
placed-Apart f inj n (r ∷ rows) =
    Pairwise.cons
      (placed-forall (Apart (record r { order_index = f n })) (λ w. hlevel) f (suc n) rows
        λ r' k lt le. inj n k (omega arith))
      (placed-Apart f inj (suc n) rows)

far_below : (z : ℤ) (m : ℕ) → magnitude z < m → same_int z (pos m) ≡ false
far_below (pos a) m h = ground arith
far_below (negsuc a) m h = refl

-- No row of a table has a position beyond all of them.
beyond-Free :
    (table : List Sibling) (m : ℕ) (r : Sibling)
    → max_magnitude table < m
    → Free table (record r { order_index = pos m })
beyond-Free [] m r h = refl
beyond-Free (x ∷ table) m r h =
    rw (far_below x.order_index m (omega arith)) (beyond-Free table m r (omega arith))

same_int_apart : (a b : ℕ) → b < a → same_int (pos a) (pos b) ≡ false
same_int_apart a b h = ground arith

-- Rows placed elsewhere leave a position free.
pub placed-Free :
    (f : ℕ → ℤ) (n : ℕ) (rows : List Sibling) (w : Sibling)
    → ((k : ℕ) → same_int (f k) w.order_index ≡ false)
    → Free (placed f n rows) w
placed-Free f n [] w h = refl
placed-Free f n (r ∷ rows) w h = rw (h n) (placed-Free f (suc n) rows w h)

length-insert :
    (first : Sibling → Sibling → Bool) (x : Sibling) (xs : List Sibling)
    → length (insert first x xs) ≡ suc (length xs)
length-insert first x [] = refl
length-insert first x (y ∷ ys) = ground (arith, length-insert first x ys)

length-sort :
    (first : Sibling → Sibling → Bool) (xs : List Sibling) → length (sort first xs) ≡ length xs
length-sort first [] = refl
length-sort first (x ∷ xs) =
    omega (arith, length-insert first x (sort first xs), length-sort first xs)

length-select-le : (p : Sibling → Bool) (xs : List Sibling) → length (select p xs) ≤ length xs
length-select-le p [] = omega arith
length-select-le p (x ∷ xs) = ground (arith, length-select-le p xs)

module _ (P : Sibling → Type 0) where
  insert-All :
      (first : Sibling → Sibling → Bool) (x : Sibling) (xs : List Sibling)
      → P x
      → All P xs
      → All P (insert first x xs)
  insert-All first x [] px h = (px, tt)
  insert-All first x (y ∷ ys) px h = elim (Bool-cases (first y x)) [
    | inl e ↦ rw e (h.0, insert-All first x ys px h.1)
    | inr e ↦ rw e (px, h)
  ]

  sort-All :
      (first : Sibling → Sibling → Bool) (xs : List Sibling) → All P xs → All P (sort first xs)
  sort-All first [] h = tt
  sort-All first (x ∷ xs) h = insert-All first x (sort first xs) h.0 (sort-All first xs h.1)

-- All rows pass a test, or none does.
abbrev Answers : Bool → (Sibling → Bool) → List Sibling → Type 0
Answers b p rows = All (λ r. p r ≡ b) rows

select-Answers : (p : Sibling → Bool) (rows : List Sibling) → Answers true p (select p rows)
select-Answers p [] = tt
select-Answers p (r ∷ rows) = elim (Bool-cases (p r)) [
  | inl e ↦ rw e (e, select-Answers p rows)
  | inr e ↦ rw e (select-Answers p rows)
]

not-Answers :
    (rows : List Sibling) → Answers true (λ r. not (is_live r)) rows → Answers false is_live rows
not-Answers [] h = tt
not-Answers (r ∷ rows) h = (ground arith, not-Answers rows h.1)

placed-live :
    (f : ℕ → ℤ) (n : ℕ) (rows rest : List Sibling)
    → Answers true is_live rows
    → select is_live (placed f n rows ++ rest) ≡ placed f n rows ++ select is_live rest
placed-live f n [] rest h = refl
placed-live f n (r ∷ rows) rest h = rw (h.0, placed-live f (suc n) rows rest h.1) refl

placed-archived :
    (f : ℕ → ℤ) (n : ℕ) (rows : List Sibling)
    → Answers false is_live rows
    → select is_live (placed f n rows) ≡ []
placed-archived f n [] h = refl
placed-archived f n (r ∷ rows) h = rw (h.0) (placed-archived f (suc n) rows h.1)

-- The other way round.
placed-no_live :
    (f : ℕ → ℤ) (n : ℕ) (rows rest : List Sibling)
    → Answers true is_live rows
    → select (λ r. not (is_live r)) (placed f n rows ++ rest) ≡ select (λ r. not (is_live r)) rest
placed-no_live f n [] rest h = refl
placed-no_live f n (r ∷ rows) rest h = rw (h.0, placed-no_live f (suc n) rows rest h.1) refl

placed-dead :
    (f : ℕ → ℤ) (n : ℕ) (rows : List Sibling)
    → Answers false is_live rows
    → select (λ r. not (is_live r)) (placed f n rows) ≡ placed f n rows
placed-dead f n [] h = refl
placed-dead f n (r ∷ rows) h = rw (h.0, placed-dead f (suc n) rows h.1) refl

placed-negative :
    (n : ℕ) (rows : List Sibling)
    → All (λ r. below r.order_index (pos 0) ≡ true) (placed negsuc n rows)
placed-negative n [] = tt
placed-negative n (r ∷ rows) = (refl, placed-negative (suc n) rows)

append-nil : (rows : List Sibling) → rows ++ [] ≡ rows
append-nil [] = refl
append-nil (r ∷ rows) = ap (λ t. r ∷ t) (append-nil rows)

-- The positions from `n` on, as many as a number says.
abbrev pub positions : ℕ → ℕ → List ℤ
positions n zero = []
positions n (suc k) = pos n ∷ positions (suc n) k

placed-positions :
    (n : ℕ) (rows : List Sibling)
    → map (λ r. r.order_index) (placed pos n rows) ≡ positions n (length rows)
placed-positions n [] = refl
placed-positions n (r ∷ rows) = ap (λ t. pos n ∷ t) (placed-positions (suc n) rows)

placed-ids :
    (f : ℕ → ℤ) (n : ℕ) (rows : List Sibling)
    → map (λ r. r.id) (placed f n rows) ≡ map (λ r. r.id) rows
placed-ids f n [] = refl
placed-ids f n (r ∷ rows) = ap (λ t. r.id ∷ t) (placed-ids f (suc n) rows)

module _ (before_text : ℕ → ℕ → Bool) where
  final-Apart : (rows : List Sibling) → Pairwise Apart (final before_text rows)
  final-Apart rows = (Pairwise-append {R = Apart} (λ a b. hlevel)).1 (
    placed-Apart pos (λ a b lt. ground arith) 0 (actives before_text rows),
    placed-Apart negsuc (λ a b lt. ground arith) 0 (tombstones before_text rows),
    λ w m.
        placed-forall (Apart w) (λ v. hlevel) negsuc 0 (tombstones before_text rows)
          λ r k lt le.
            placed-forall (λ v. same_int v.order_index (negsuc k) ≡ false) (λ v. hlevel) pos 0
              (actives before_text rows) (λ r' j lt' le'. refl) w m,
  )

  final-Free :
      (rows : List Sibling) (w : Sibling) → Mem w (final before_text rows) → Free (staged rows) w
  final-Free rows w m =
      Or.elim (hlevel) (mem-append.0 m)
        (placed-forall (Free (staged rows)) (λ v. hlevel) pos 0 (actives before_text rows)
          (λ r k lt le.
            placed-Free _ 0 rows (record r { order_index = pos k })
              λ j. same_int_apart (staging_base rows + j) k (
                omega (
                  arith,
                  length-sort (by_position before_text) (select is_live rows),
                  length-select-le is_live rows,
                )))
          w)
        (placed-forall (Free (staged rows)) (λ v. hlevel) negsuc 0 (tombstones before_text rows)
          (λ r k lt le. placed-Free _ 0 rows (record r { order_index = negsuc k }) λ j. refl) w)

  live_final :
      (rows : List Sibling)
      → select is_live (final before_text rows) ≡ placed pos 0 (actives before_text rows)
  live_final rows =
      placed-live pos 0 (actives before_text rows) (placed negsuc 0 (tombstones before_text rows)) (
        sort-All (λ r. is_live r ≡ true) (by_position before_text) (select is_live rows)
          (select-Answers is_live rows))
      ∙ ap (λ t. placed pos 0 (actives before_text rows) ++ t)
          (placed-archived negsuc 0 (tombstones before_text rows) (
            not-Answers (tombstones before_text rows) (
              sort-All (λ r. not (is_live r) ≡ true) (by_id before_text) _
                (select-Answers (λ r. not (is_live r)) rows))))
      ∙ append-nil (placed pos 0 (actives before_text rows))

  actives_live : (rows : List Sibling) → Answers true is_live (actives before_text rows)
  actives_live rows =
      sort-All (λ r. is_live r ≡ true) (by_position before_text) (select is_live rows)
        (select-Answers is_live rows)

  tombstones_dead : (rows : List Sibling) → Answers false is_live (tombstones before_text rows)
  tombstones_dead rows = not-Answers (tombstones before_text rows) (
      sort-All (λ r. not (is_live r) ≡ true) (by_id before_text) _
        (select-Answers (λ r. not (is_live r)) rows))

  dead_final :
      (rows : List Sibling)
      → select (λ r. not (is_live r)) (final before_text rows)
        ≡ placed negsuc 0 (tombstones before_text rows)
  dead_final rows =
      placed-no_live pos 0 (actives before_text rows)
        (placed negsuc 0 (tombstones before_text rows)) (actives_live rows)
      ∙ placed-dead negsuc 0 (tombstones before_text rows) (tombstones_dead rows)

module _ (arrange : List Sibling → List Sibling) (before_text : ℕ → ℕ → Bool)
    (perm : (rows : List Sibling) → Perm (arrange rows) rows) where
  staging_flush : (rows : List Sibling) → flush arrange rows (staged rows) ≡ some (staged rows)
  staging_flush rows =
      let base = staging_base rows in
      flush-Free arrange rows (staged rows) (perm (staged rows))
        (placed-Apart (λ k. pos (base + k)) (λ a b lt. ground arith) 0 rows)
        (placed-forall (Free rows) (λ w. hlevel) (λ k. pos (base + k)) 0 rows
          λ r k lt le. beyond-Free rows (base + k) r (omega arith))

  reindexed :
      (rows : List Sibling)
      → reindex_active_siblings arrange before_text rows ≡ some (final before_text rows)
  unfolding reindex_active_siblings
  reindexed [] = refl
  reindexed (r ∷ rows) =
      ap (flush_final arrange before_text (r ∷ rows)) (staging_flush (r ∷ rows))
      ∙ flush-Free arrange (staged (r ∷ rows)) (final before_text (r ∷ rows))
          (perm (final before_text (r ∷ rows))) (final-Apart before_text (r ∷ rows))
          (final-Free before_text (r ∷ rows))

  -- Whatever the siblings of a parent and the order in which a flush writes its rows: reindexing
  -- meets no collision at any single row. It leaves the active siblings, in an order in which none
  -- follows one that had a higher position, at the positions from 0 on without a gap, and the
  -- archived ones at negative positions.
  pub reindex_active_siblings-exact :
      (rows : List Sibling)
      → (table : List Sibling) × (reindex_active_siblings arrange before_text rows ≡ some table)
        × ((olds : List Sibling) × Perm olds (select is_live rows)
            × InOrder olds
            × (map (λ r. r.id) (select is_live table) ≡ map (λ r. r.id) olds)
            × (map (λ r. r.order_index) (select is_live table)
                ≡ positions 0 (length (select is_live rows))))
        × ((dead : List Sibling) × Perm dead (select (λ r. not (is_live r)) rows)
            × (map (λ r. r.id) (select (λ r. not (is_live r)) table) ≡ map (λ r. r.id) dead)
            × All (λ r. below r.order_index (pos 0) ≡ true) (select (λ r. not (is_live r)) table))
  reindex_active_siblings-exact rows = (
    final before_text rows,
    reindexed rows,
    (
      actives before_text rows,
      sort-Perm (by_position before_text) (select is_live rows),
      sort-InOrder before_text (select is_live rows),
      ap (map (λ r. r.id)) (live_final before_text rows)
          ∙ placed-ids pos 0 (actives before_text rows),
      ap (map (λ r. r.order_index)) (live_final before_text rows)
          ∙ placed-positions 0 (actives before_text rows)
          ∙ ap (positions 0) (length-sort (by_position before_text) (select is_live rows)),
    ),
    (
      tombstones before_text rows,
      sort-Perm (by_id before_text) (select (λ r. not (is_live r)) rows),
      ap (map (λ r. r.id)) (dead_final before_text rows)
          ∙ placed-ids negsuc 0 (tombstones before_text rows),
      subst (All (λ r. below r.order_index (pos 0) ≡ true)) (sym (dead_final before_text rows))
          (placed-negative 0 (tombstones before_text rows)),
    ),
  )
