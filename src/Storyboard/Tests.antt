-- ===== src/Storyboard/Tests.antt =====
-- Instances of the theorems on the storyboard.
use cine_forge.Prelude.{
  ℕ, ◌≡◌, refl, ltb, none, some, not, All, true, List, [], ◌∷◌, map, select, length,
}
use cine_forge.Prelude.Json.{ℤ, pos, negsuc}
use cine_forge.Storyboard.Order.Sorting.{Ascends, InOrder}
use cine_forge.Storyboard.Order.{Sibling, below, is_live, reindex_active_siblings}
use cine_forge.Storyboard.Order.Reindex.{positions, reindex_active_siblings-exact}
use cine_forge.Prelude.Session.{ok}
use cine_forge.Storyboard.Order.Reordering.{reorder}
use cine_forge.Storyboard.Order.Reordering.Exact.{reorder-exact}
use mathlib.Core.List.{Perm}
use mathlib.Core.List.Perm

abbrev sibling : ℕ → ℤ → Sibling
sibling i n = record { id = i; order_index = n; archived_at = none }

-- The second of three siblings is being archived, beside one archived before.
abbrev siblings : List Sibling
siblings =
    record { id = 9; order_index = negsuc 0; archived_at = some 5 }
    ∷ sibling 4 (pos 0)
    ∷ record { id = 3; order_index = pos 1; archived_at = some 8 }
    ∷ sibling 7 (pos 2)
    ∷ []

reindex_active_siblings-exact_example :
    (table : List Sibling) × (reindex_active_siblings (λ rows. rows) ltb siblings ≡ some table)
    × ((olds : List Sibling) × Perm olds (select is_live siblings)
        × InOrder olds
        × (map (λ r. r.id) (select is_live table) ≡ map (λ r. r.id) olds)
        × (map (λ r. r.order_index) (select is_live table)
            ≡ positions 0 (length (select is_live siblings))))
    × ((dead : List Sibling) × Perm dead (select (λ r. not (is_live r)) siblings)
        × (map (λ r. r.id) (select (λ r. not (is_live r)) table) ≡ map (λ r. r.id) dead)
        × All (λ r. below r.order_index (pos 0) ≡ true) (select (λ r. not (is_live r)) table))
reindex_active_siblings-exact_example =
    reindex_active_siblings-exact (λ rows. rows) ltb (λ rows. Perm.refl rows) siblings

-- The two active siblings change places; the archived ones stay.
reorder-exact_example :
    (rows : List Sibling) × (reorder (λ rows. rows) siblings (7 ∷ 4 ∷ []) ≡ ok rows)
    × (map (λ r. r.id) rows ≡ 7 ∷ 4 ∷ [])
    × Ascends (map (λ r. r.order_index) rows)
    × Perm (map (λ r. r.order_index) rows) (map (λ r. r.order_index) (select is_live siblings))
reorder-exact_example =
    reorder-exact (λ rows. rows) (λ rows. Perm.refl rows) siblings (7 ∷ 4 ∷ [])
      ((refl, (refl, (refl, tt))), ((refl, (refl, tt)), ((refl, tt), (tt, tt)))) refl
