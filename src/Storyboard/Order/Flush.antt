-- ===== src/Storyboard/Order/Flush.antt =====
-- A flush of backend/app/services/storyboard.py that moves siblings to free positions.
use cine_forge.Prelude.{
  ◌≡◌, refl, true, false, some, List, [], ◌∷◌, ◌==◌, any, map, is_some, arith, Bool-cases, inl, inr,
}
use cine_forge.Prelude.Json.{ℤ, pos, negsuc}
use cine_forge.Storyboard.Order.{Sibling, same_int, collides, move, write_all, flush}
use mathlib.Core.List.{Mem, Pairwise, Pairwise-cons, Perm, mem-cons_self, mem-cons_of_mem}
use mathlib.Core.List.Perm

-- Another position than those of a table, and than that of another row.
abbrev pub Free : List Sibling → Sibling → Type 0
Free table w = any (λ r. same_int r.order_index w.order_index) table ≡ false

abbrev pub Apart : Sibling → Sibling → Type 0
Apart w v = same_int w.order_index v.order_index ≡ false

pub same_int_sym : (a b : ℤ) → same_int a b ≡ same_int b a
same_int_sym (pos a) (pos b) = ground arith
same_int_sym (pos a) (negsuc b) = refl
same_int_sym (negsuc a) (pos b) = refl
same_int_sym (negsuc a) (negsuc b) = ground arith

Free-collides : (w : Sibling) (table : List Sibling) → Free table w → any (collides w) table ≡ false
Free-collides w [] h = refl
Free-collides w (r ∷ table) h = ground (arith, Free-collides w table)

-- A move to a position leaves the others free.
Free-move :
    (w v : Sibling) (table : List Sibling) → Free table v → Apart w v → Free (map (move w) table) v
Free-move w v [] h apart = refl
Free-move w v (r ∷ table) h apart = elim (Bool-cases (r.id == w.id)) [
  | inl e ↦ rw (e, apart) (Free-move w v table (ground arith) apart)
  | inr e ↦
      let here : same_int r.order_index v.order_index ≡ false = ground arith in
      rw (e, here) (Free-move w v table (ground arith) apart)
]

write_all-Free :
    (ws table : List Sibling)
    → Pairwise Apart ws
    → ((w : Sibling) → Mem w ws → Free table w)
    → is_some (write_all ws table) ≡ true
unfolding write_all
write_all-Free [] table p h = refl
write_all-Free (w ∷ ws) table p h =
    let (apart, rest) = (Pairwise-cons {R = Apart}).0 p in
    rw (Free-collides w table (h w mem-cons_self)) (
      write_all-Free ws (map (move w) table) rest
        λ v m. Free-move w v table (h v (mem-cons_of_mem w m)) (apart v m))

-- Whatever the order of the writes: rows that go to positions apart from each other, none of which
-- any row of the table has, are written without a collision.
pub flush-Free :
    (arrange : List Sibling → List Sibling) (table rows : List Sibling)
    → Perm (arrange rows) rows
    → Pairwise Apart rows
    → ((w : Sibling) → Mem w rows → Free table w)
    → flush arrange table rows ≡ some rows
unfolding flush
flush-Free arrange table rows perm apart free =
    rw
      (write_all-Free (arrange rows) table
        (Perm.pairwise {R = Apart} (λ a b. hlevel)
          (λ a b e. rw (same_int_sym b.order_index a.order_index) e) (Perm.symm perm) apart)
        (λ w m. free w ((Perm.mem_iff perm).0 m)))
      refl
