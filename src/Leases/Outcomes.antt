-- ===== src/Leases/Outcomes.antt =====
-- When `acquire_lease` of backend/app/services/runtime/gpu_leases.py grants a lease, and what a
-- granted lease holds off.
use cine_forge.Prelude.{
  ℕ, String, str_eq, ◌≡◌, refl, sym, ap, ◌∙◌, inl, inr, Bool, true, false, ◌&&◌, ◌||◌, not, Option,
  none, some, [], ◌∷◌, any, is_some, find?, Has, arith, Bool-cases, Option-cases,
}
use cine_forge.Prelude.Json.{Fields}
use cine_forge.Leases.{
  GpuResourceLease, Table, GpuLeaseAcquireRequest, Result, ok, err, leased, is_active, past,
  expire_rows, expire_stale_leases, in_group, clashes, conflicts, conflicts_with, active_conflict,
  insert_lease, new_lease, acquire_lease, or_default, acquire_voice_preview_lease, preview_request,
}

-- Whether a row is, at an instant, a live lease on a resource or in a group.
abbrev pub blocks : ℕ → String → String → GpuResourceLease → Bool
blocks now key group l =
    (is_active l && not (past now l.expires_at))
    && (str_eq l.resource_key key || in_group group l.exclusive_group)

abbrev pub granted : Result GpuResourceLease × Table → Bool
granted (ok l, ls) = true
granted (err e, ls) = false

-- The resource and the group that a request asks for.
abbrev pub key_of : GpuLeaseAcquireRequest → String
key_of r = or_default "gpu0" (some r.resource_key)

abbrev pub group_of : GpuLeaseAcquireRequest → String
group_of r = or_default "gpu-shared" r.exclusive_group

or_default-nonempty : (o : Option String) → str_eq (or_default "gpu-shared" o) "" ≡ false
or_default-nonempty none = refl
or_default-nonempty (some v) = elim (Bool-cases (str_eq v "")) [
  | inl e ↦ rw e refl
  | inr e ↦ rw (e, e) refl
]

any-expire_rows :
    (now : ℕ) (key group : String) (ls : Table)
    → any (conflicts key group) (expire_rows now ls) ≡ any (blocks now key group) ls
unfolding expire_rows
any-expire_rows now key group [] = refl
any-expire_rows now key group (l ∷ ls) = ground (arith, any-expire_rows now key group ls)

find?-conflict :
    (now : ℕ) (key group : String) (ls : Table)
    → str_eq group "" ≡ false
    → is_some (find? (conflicts_with key (some group)) ls) ≡ any (conflicts key group) ls
find?-conflict now key group [] h = refl
find?-conflict now key group (l ∷ ls) h = ground (arith, find?-conflict now key group ls h)

-- With no other session between the query and the commit, a request is granted exactly if no live
-- lease holds its resource or its group (`gpu-shared` where it names none): a lease whose time is
-- up does not stand in the way, whatever its row says.
pub acquire_exact :
    (id now : ℕ) (r : GpuLeaseAcquireRequest) (ls : Table)
    → granted (acquire_lease id now (λ ts. ts) r ls)
      ≡ not (any (blocks now (key_of r) (group_of r)) ls)
unfolding acquire_lease active_conflict expire_stale_leases insert_lease
acquire_exact id now r ls =
    let key = key_of r in
    let group = group_of r in
    let seen =
      find?-conflict now key group (expire_rows now ls) (or_default-nonempty r.exclusive_group) in
    let live = any-expire_rows now key group ls in
    elim (Option-cases (find? (conflicts_with key (some group)) (expire_rows now ls))) [
      | inl free ↦
          let clear : any (clashes (new_lease id now r)) (expire_rows now ls) ≡ false =
            sym seen ∙ ap is_some free in
          let none_live : any (blocks now key group) ls ≡ false = sym live ∙ clear in
          rw (free, clear, none_live) refl
      | inr (l, found) ↦
          let some_live : any (blocks now key group) ls ≡ true =
            sym live ∙ sym seen ∙ ap is_some found in
          rw (found, some_live) refl
    ]

-- What the query finds, after the leases whose time is up have expired, is a live lease of the table
-- as it was.
found_blocks :
    (now : ℕ) (key group : String) (ls : Table) {l : GpuResourceLease}
    → str_eq group "" ≡ false
    → find? (conflicts_with key (some group)) (expire_rows now ls) ≡ some l
    → Has l ls × (blocks now key group l ≡ true)
unfolding expire_rows
found_blocks now key group [] h f = absurd (cc f)
found_blocks now key group (x ∷ xs) {l} h f = elim (Bool-cases (blocks now key group x)) [
  | inl live ↦
      let same : x ≡ l = ground arith in (([], xs, ap (λ t. t ∷ xs) same), rw (sym same) live)
  | inr dead ↦
      let ((before, after, e), live) = found_blocks now key group xs {l = l} h (ground arith) in
      ((x ∷ before, after, ap (λ t. x ∷ t) e), live)
]

-- A request that a live lease stands in the way of, on its resource or in its group, is refused. The
-- refusal names a lease that stands in the table, is live and has that resource or group, and the
-- only change of the table is that leases whose time is up expire.
pub acquire_refused :
    (id now : ℕ) (meanwhile : Table → Table) (r : GpuLeaseAcquireRequest) (ls : Table)
    → any (blocks now (key_of r) (group_of r)) ls ≡ true
    → (l : GpuResourceLease) × (acquire_lease id now meanwhile r ls
        ≡ (err (leased l), expire_rows now ls))
      × Has l ls
      × (blocks now (key_of r) (group_of r) l ≡ true)
unfolding acquire_lease active_conflict expire_stale_leases
acquire_refused id now meanwhile r ls h =
    let key = key_of r in
    let group = group_of r in
    let named = or_default-nonempty r.exclusive_group in
    let seen = find?-conflict now key group (expire_rows now ls) named in
    let live = any-expire_rows now key group ls in
    elim (Option-cases (find? (conflicts_with key (some group)) (expire_rows now ls))) [
      | inl free ↦ absurd (cc (sym h ∙ sym live ∙ sym seen ∙ ap is_some free))
      | inr (l, found) ↦
          let (stands, blocking) = found_blocks now key group ls {l = l} named found in
          (l, rw found refl, stands, blocking)
    ]

live_in_group :
    (now : ℕ) (key group : String) (ls : Table)
    → any (λ l. (is_active l && not (past now l.expires_at)) && in_group group l.exclusive_group) ls
      ≡ true
    → any (blocks now key group) ls ≡ true
live_in_group now key group [] h = cc
live_in_group now key group (l ∷ ls) h = ground (arith, live_in_group now key group ls)

-- A voice preview is refused as long as any live lease is in the group `gpu-shared`, which is the
-- group of every request that names none, whatever resource the preview asks for.
pub preview_waits :
    (id now : ℕ) (meanwhile : Table → Table) (owner : String)
    (workload_id worker_id : Option String) (key : String) (ttl : ℕ) (metadata : Option Fields)
    (ls : Table)
    → any
        (λ l.
          (is_active l && not (past now l.expires_at)) && in_group "gpu-shared" l.exclusive_group)
        ls
      ≡ true
    → granted (
        acquire_voice_preview_lease id now meanwhile owner workload_id worker_id key ttl metadata
          ls)
      ≡ false
unfolding acquire_voice_preview_lease
preview_waits id now meanwhile owner workload_id worker_id key ttl metadata ls h =
    let r = preview_request owner workload_id worker_id key ttl metadata in
    ap granted
      (acquire_refused id now meanwhile r ls (live_in_group now (key_of r) "gpu-shared" ls h)).1
