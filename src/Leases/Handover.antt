-- ===== src/Leases/Handover.antt =====
-- A lease that its owner gives back, in backend/app/services/runtime/gpu_leases.py.
use cine_forge.Prelude.{
  ℕ, String, ◌≡◌, refl, sym, ◌∙◌, ap, true, false, not, some, [], ◌∷◌, ◌==◌, any, arith, eq_iff,
  Bool-cases, Option-cases, inl, inr,
}
use cine_forge.Leases.{
  LeaseStatus, GpuResourceLease, Table, GpuLeaseAcquireRequest, is_active, ended, clashes,
  acquire_lease, get_lease, set_lease, release_lease,
}
use cine_forge.Leases.Exclusion.{Exclusive, Apart, Apart-sym, clashes-Apart, any-get_lease}
use cine_forge.Leases.Outcomes.{blocks, granted, key_of, group_of, acquire_exact}

-- What holds neither the resource nor the group does not stand in the way.
Apart-blocks :
    (now : ℕ) (l m : GpuResourceLease) (group : String)
    → l.exclusive_group ≡ some group
    → Apart l m
    → blocks now l.resource_key group m ≡ false
Apart-blocks now l m group g (keys, groups) = elim (Option-cases m.exclusive_group) [
  | inl e ↦ simp e (ground (arith, eq_iff m.resource_key l.resource_key))
  | inr (h, e) ↦
      simp e (ground (arith, eq_iff m.resource_key l.resource_key, eq_iff h group, groups group g))
]

clashes-blocks :
    (now : ℕ) (l m : GpuResourceLease) (group : String)
    → l.exclusive_group ≡ some group
    → clashes l m ≡ false
    → blocks now l.resource_key group m ≡ false
clashes-blocks now l m group g h = elim (Bool-cases (is_active m)) [
  | inl on ↦ Apart-blocks now l m group g (clashes-Apart l m on h)
  | inr off ↦ ground (arith, off)
]

-- The table after the release.
abbrev gone : ℕ → ℕ → Table → Table
gone at_time i ls = set_lease i (ended LeaseStatus.released at_time) ls

module _ (now at_time i : ℕ) (l : GpuResourceLease) (group : String)
    (g : l.exclusive_group ≡ some group) where
  rest_clear :
      (ls : Table)
      → any (clashes l) ls ≡ false
      → any (blocks now l.resource_key group) (gone at_time i ls) ≡ false
  rest_clear [] h = refl
  rest_clear (m ∷ ms) h = ground (arith, rest_clear ms, clashes-blocks now l m group g)

  all_clear :
      (ls : Table)
      → Exclusive ls
      → get_lease i ls ≡ some l
      → is_active l ≡ true
      → any (blocks now l.resource_key group) (gone at_time i ls) ≡ false
  all_clear [] e h on = cc
  all_clear (m ∷ ms) (first, rest) h on = elim (Bool-cases (m.id == i)) [
    | inl here ↦
        let ml : m ≡ l = ground arith in
        let mon : is_active m ≡ true = rw ml on in
        let apart : any (clashes l) ms ≡ false = rw (sym ml) (first mon) in
        rw here (rest_clear ms apart)
    | inr there ↦
        let later : get_lease i ms ≡ some l = ground arith in
        let stays : blocks now l.resource_key group m ≡ false = elim (Bool-cases (is_active m)) [
          | inl mon ↦ Apart-blocks now l m group g (
              Apart-sym m l
                (clashes-Apart m l on (any-get_lease (clashes m) i ms (first mon) later)))
          | inr off ↦ ground (arith, off)
        ] in
        rw (there, stays) (all_clear ms rest later on)
  ]

release_lease-active :
    (at_time i : ℕ) (ls : Table) (l : GpuResourceLease)
    → get_lease i ls ≡ some l
    → is_active l ≡ true
    → (release_lease at_time i ls).1 ≡ gone at_time i ls
unfolding release_lease
release_lease-active at_time i ls l h on = rw (h, on) refl

-- When the owner of an active lease gives it back, the next request for the same resource and the
-- same group is granted: while the lease was active no other could have held either of them.
pub handover :
    (now at_time i id : ℕ) (ls : Table) (l : GpuResourceLease) (r : GpuLeaseAcquireRequest)
    → Exclusive ls
    → get_lease i ls ≡ some l
    → is_active l ≡ true
    → key_of r ≡ l.resource_key
    → l.exclusive_group ≡ some (group_of r)
    → granted (acquire_lease id now (λ ts. ts) r (release_lease at_time i ls).1) ≡ true
handover now at_time i id ls l r e h on key group =
    let clear = all_clear now at_time i l (group_of r) group ls e h on in
    let clear' : any (blocks now (key_of r) (group_of r)) (release_lease at_time i ls).1 ≡ false =
      rw (release_lease-active at_time i ls l h on, key) clear in
    acquire_exact id now r (release_lease at_time i ls).1 ∙ ap not clear'
