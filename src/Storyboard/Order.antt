-- ===== src/Storyboard/Order.antt =====
-- The order of the siblings of one parent in backend/app/services/storyboard.py: the chapters of a
-- story, the scenes of a chapter or the shots of a scene, with the constraint of
-- backend/app/db/base.py that no two of them have the same `order_index`.
pub mod Flush
pub mod Sorting
pub mod Reindex
pub mod Reordering
use cine_forge.Prelude.{
  ℕ, zero, suc, ◌+◌, max, Bool, true, false, ◌&&◌, ◌||◌, not, Option, none, some, List, [], ◌∷◌,
  ◌++◌, ◌==◌, ltb, if◌then◌else◌, any, select, map, length, is_some,
}
use cine_forge.Prelude.Json.{ℤ, pos, negsuc}

pub record Sibling : Type 0 where
  pub id : ℕ
  pub order_index : ℤ
  pub archived_at : Option ℕ

abbrev pub same_int : ℤ → ℤ → Bool
same_int (pos a) (pos b) = a == b
same_int (pos a) (negsuc b) = false
same_int (negsuc a) (pos b) = false
same_int (negsuc a) (negsuc b) = a == b

abbrev pub below : ℤ → ℤ → Bool
below (pos a) (pos b) = ltb a b
below (pos a) (negsuc b) = false
below (negsuc a) (pos b) = true
below (negsuc a) (negsuc b) = ltb b a

-- `abs`
abbrev pub magnitude : ℤ → ℕ
magnitude (pos n) = n
magnitude (negsuc n) = suc n

abbrev pub max_magnitude : List Sibling → ℕ
max_magnitude [] = 0
max_magnitude (r ∷ rows) = max (magnitude r.order_index) (max_magnitude rows)

abbrev pub is_live : Sibling → Bool
is_live r = not (is_some r.archived_at)

-- `sorted` with a key, as an insertion that keeps equal keys in their order.
module _ (first : Sibling → Sibling → Bool) where
  abbrev pub insert : Sibling → List Sibling → List Sibling
  insert x [] = x ∷ []
  insert x (y ∷ ys) = if first y x then y ∷ insert x ys else x ∷ y ∷ ys

  abbrev pub sort : List Sibling → List Sibling
  sort [] = []
  sort (x ∷ xs) = insert x (sort xs)

-- Positions for the rows of a list, counted from a number.
abbrev pub placed : (ℕ → ℤ) → ℕ → List Sibling → List Sibling
placed f n [] = []
placed f n (r ∷ rows) = record r { order_index = f n } ∷ placed f (suc n) rows

-- One UPDATE of a flush: the constraint is checked with each row.
abbrev pub collides : Sibling → Sibling → Bool
collides w r = not (r.id == w.id) && same_int r.order_index w.order_index

abbrev pub move : Sibling → Sibling → Sibling
move w r = if r.id == w.id then record r { order_index = w.order_index } else r

abbrev pub write_row : Sibling → List Sibling → Option (List Sibling)
write_row w table = if any (collides w) table then none else some (map (move w) table)

unfoldable pub write_all : List Sibling → List Sibling → Option (List Sibling)
write_all [] table = some table
write_all (w ∷ ws) table =
    let rest = write_all ws (map (move w) table) in if any (collides w) table then none else rest

-- `arrange` is the order in which the mapper writes the rows of a flush. `none` is the
-- IntegrityError of an UPDATE; otherwise the rows are as the session has them.
unfoldable pub flush :
    (List Sibling → List Sibling) → List Sibling → List Sibling → Option (List Sibling)
flush arrange table rows = if is_some (write_all (arrange rows) table) then some rows else none

abbrev pub staging_base : List Sibling → ℕ
staging_base rows = max_magnitude rows + length rows + 1

abbrev pub staged : List Sibling → List Sibling
staged rows = placed (λ offset. pos (staging_base rows + offset)) 0 rows

-- `before_text` compares the texts of two identities.
module _ (before_text : ℕ → ℕ → Bool) where
  -- By order index, then by the text of the identity; and by that text alone.
  abbrev pub by_position : Sibling → Sibling → Bool
  by_position a b =
      below a.order_index b.order_index
      || (same_int a.order_index b.order_index && before_text a.id b.id)

  abbrev pub by_id : Sibling → Sibling → Bool
  by_id a b = before_text a.id b.id

  abbrev pub actives : List Sibling → List Sibling
  actives rows = sort by_position (select is_live rows)

  abbrev pub tombstones : List Sibling → List Sibling
  tombstones rows = sort by_id (select (λ r. not (is_live r)) rows)

  abbrev pub final : List Sibling → List Sibling
  final rows = placed pos 0 (actives rows) ++ placed negsuc 0 (tombstones rows)

module _ (arrange : List Sibling → List Sibling) (before_text : ℕ → ℕ → Bool) where
  abbrev pub flush_final : List Sibling → Option (List Sibling) → Option (List Sibling)
  flush_final rows none = none
  flush_final rows (some table) = flush arrange table (final before_text rows)

  -- The siblings as the query orders them.
  unfoldable pub reindex_active_siblings : List Sibling → Option (List Sibling)
  reindex_active_siblings [] = some []
  reindex_active_siblings (r ∷ rows) =
      flush_final (r ∷ rows) (flush arrange (r ∷ rows) (staged (r ∷ rows)))
