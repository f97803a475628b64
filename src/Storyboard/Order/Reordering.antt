-- ===== src/Storyboard/Order/Reordering.antt =====
-- The middle of `reorder` in backend/app/services/storyboard.py: the test on the identities that a
-- client sends, the two flushes and the positions between them. Finding the parent before and
-- checking continuity after it are not modelled.
pub mod Positions
pub mod Exact
use cine_forge.Prelude.{
  ℕ, zero, suc, ◌+◌, ◌-◌, Bool, true, false, ◌&&◌, not, Option, none, some, List, [], ◌∷◌, ◌++◌,
  ◌==◌, ltb, if◌then◌else◌, find?, any, select, map, length,
}
use cine_forge.Prelude.Json.{ℤ, pos, negsuc}
use cine_forge.Prelude.Session.{Result, ok, err}
use cine_forge.Storyboard.Order.{Sibling, below, is_live, placed, flush}

-- `StoryboardDomainError`, and what a flush or a lookup raises.
pub data ReorderError : Type 0 where
  mismatched_ids integrity_error key_error : ReorderError

abbrev pub plus : ℤ → ℕ → ℤ
plus (pos n) k = pos (n + k)
plus (negsuc n) k = if ltb n k then pos (k - suc n) else negsuc (n - k)

abbrev pub later : ℤ → ℤ → ℤ
later a b = if below a b then b else a

-- `max(..., default=-1)`
abbrev pub highest_position : List Sibling → ℤ
highest_position [] = negsuc 0
highest_position (r ∷ []) = r.order_index
highest_position (r ∷ s ∷ rows) = later r.order_index (highest_position (s ∷ rows))

abbrev pub insert_position : ℤ → List ℤ → List ℤ
insert_position x [] = x ∷ []
insert_position x (y ∷ ys) = if below y x then y ∷ insert_position x ys else x ∷ y ∷ ys

abbrev pub sort_positions : List ℤ → List ℤ
sort_positions [] = []
sort_positions (x ∷ xs) = insert_position x (sort_positions xs)

abbrev pub target_positions : List Sibling → List ℤ
target_positions rows = sort_positions (map (λ r. r.order_index) rows)

-- Every identity of a list is the identity of a row, and the other way round.
abbrev pub all_known : List Sibling → List ℕ → Bool
all_known rows [] = true
all_known rows (i ∷ ids) = any (λ r. r.id == i) rows && all_known rows ids

abbrev pub all_listed : List ℕ → List Sibling → Bool
all_listed ids [] = true
all_listed ids (r ∷ rows) = any (λ i. i == r.id) ids && all_listed ids rows

abbrev pub matches : List Sibling → List ℕ → Bool
matches rows ids = (all_known rows ids && all_listed ids rows) && length ids == length rows

abbrev pub staged_after : List Sibling → List Sibling → List Sibling
staged_after all_rows rows =
    placed (λ position. plus (highest_position all_rows) (length rows + 1 + position)) 0 rows

-- The rows in the order that the client sends, each with its position.
abbrev pub onto {ℓ} : {A : Type ℓ} → Option A → Option (List A) → Option (List A)
onto (some x) (some xs) = some (x ∷ xs)
onto (some x) none = none
onto none xs = none

abbrev pub at_position : ℤ → Option Sibling → Option Sibling
at_position position none = none
at_position position (some r) = some (record r { order_index = position })

unfoldable pub ordered_rows : List Sibling → List ℤ → List ℕ → Option (List Sibling)
ordered_rows rows (position ∷ positions) (i ∷ ids) =
    onto (at_position position (find? (λ r. r.id == i) rows)) (ordered_rows rows positions ids)
ordered_rows rows _ _ = some []

module _ (arrange : List Sibling → List Sibling) where
  abbrev pub written : List Sibling → Option (List Sibling) → Result ReorderError (List Sibling)
  written rows none = err integrity_error
  written rows (some table) = ok rows

  abbrev pub second_flush :
      List Sibling → Option (List Sibling) → Result ReorderError (List Sibling)
  second_flush table none = err key_error
  second_flush table (some rows) = written rows (flush arrange table rows)

  abbrev pub first_flush :
      List Sibling → List ℕ → Option (List Sibling) → Result ReorderError (List Sibling)
  first_flush all_rows ids none = err integrity_error
  first_flush all_rows ids (some staged) =
      second_flush (select (λ r. not (is_live r)) all_rows ++ staged)
        (ordered_rows (select is_live all_rows) (target_positions (select is_live all_rows)) ids)

  -- The active siblings as they are after the second flush.
  unfoldable pub reorder : List Sibling → List ℕ → Result ReorderError (List Sibling)
  reorder all_rows ids =
      if not (matches (select is_live all_rows) ids)
      then err mismatched_ids
      else first_flush all_rows ids
          (flush arrange all_rows (staged_after all_rows (select is_live all_rows)))
