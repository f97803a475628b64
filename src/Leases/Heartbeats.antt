-- ===== src/Leases/Heartbeats.antt =====
-- What a lease that a heartbeat of backend/app/services/runtime/gpu_leases.py has extended holds off.
use cine_forge.Prelude.{
  ℕ, ◌+◌, ◌<◌, ◌≤◌, String, ◌≡◌, ◌≢◌, refl, ap, ◌∙◌, ◌⊎◌, inl, inr, Bool, true, false, some, [],
  ◌∷◌, any, find?, arith, eq_iff, eq_refl, Bool-cases, Option-cases,
}
use cine_forge.Leases.{
  LeaseStatus, ended, release_lease, GpuResourceLease, Table, GpuLeaseAcquireRequest, ok, is_active,
  past, expire_rows, expire_stale_leases, conflicts_with, active_conflict, insert_lease, new_lease,
  acquire_lease, get_lease, set_lease, extended, heartbeat_lease,
}
use cine_forge.Leases.Outcomes.{blocks, granted, key_of, group_of, acquire_refused}

pub get_lease-set_lease :
    (i : ℕ) (f : GpuResourceLease → GpuResourceLease) (ls : Table) {m : GpuResourceLease}
    → ((l : GpuResourceLease) → (f l).id ≡ l.id)
    → get_lease i ls ≡ some m
    → get_lease i (set_lease i f ls) ≡ some (f m)
get_lease-set_lease i f [] keeps h = cc
get_lease-set_lease i f (l ∷ ls) {m} keeps h =
    ground (arith, keeps l, get_lease-set_lease i f ls {m = m} keeps)

any-found :
    (p : GpuResourceLease → Bool) (i : ℕ) (ls : Table) {m : GpuResourceLease}
    → get_lease i ls ≡ some m
    → p m ≡ true
    → any p ls ≡ true
any-found p i [] h t = cc
any-found p i (l ∷ ls) {m} h t = ground (arith, any-found p i ls {m = m})

-- What a heartbeat that succeeds has found and done.
pub heartbeat_lease-ok :
    (now i seconds : ℕ) (ls ms : Table) (l : GpuResourceLease)
    → heartbeat_lease now i seconds ls ≡ (ok l, ms)
    → (m : GpuResourceLease) × (get_lease i ls ≡ some m)
      × (is_active m ≡ true)
      × (past now m.expires_at ≡ false)
      × (l ≡ extended now seconds m)
      × (ms ≡ set_lease i (extended now seconds) ls)
unfolding heartbeat_lease
heartbeat_lease-ok now i seconds ls ms l h = elim (Option-cases (get_lease i ls)) [
  | inl absent ↦ absurd (cc (rw absent at h))
  | inr (m, found) ↦ elim (Bool-cases (is_active m)) [
    | inr off ↦ absurd (cc (rw (found, off) at h))
    | inl on ↦ elim (Bool-cases (past now m.expires_at)) [
      | inl late ↦ absurd (cc (rw (found, on, late) at h))
      | inr fresh ↦
          let same : (ok (extended now seconds m), set_lease i (extended now seconds) ls)
              ≡ (ok l, ms) =
            rw (found, on, fresh) at h in
          (m, found, on, fresh, cc, cc)
    ]
  ]
]

blocks-extended :
    (now later seconds : ℕ) (key group : String) (m : GpuResourceLease)
    → later < now + seconds
    → is_active m ≡ true
    → (key ≡ m.resource_key) ⊎ (m.exclusive_group ≡ some group)
    → blocks later key group (extended now seconds m) ≡ true
blocks-extended now later seconds key group m soon on (inl e) =
    ground (arith, eq_iff m.resource_key key)
blocks-extended now later seconds key group m soon on (inr e) = rw e (ground (arith, eq_refl group))

-- The calls that other sessions make after a heartbeat, up to an instant: requests, each of which may
-- be interrupted before its commit by changes of other rows, the expiry of stale leases, and
-- heartbeats and releases of other leases than `i`.
pub data Others (i until : ℕ) (ls : Table) : Table → Type 0 where
  quiet : Others i until ls ls
  requested :
      {ms : Table}
      → Others i until ls ms
      → (id at : ℕ) (meanwhile : Table → Table) (r : GpuLeaseAcquireRequest) → at ≤ until
      → id ≢ i
      → ((ts : Table) → get_lease i (meanwhile ts) ≡ get_lease i ts)
      → Others i until ls (acquire_lease id at meanwhile r ms).1
  expired_rows :
      {ms : Table}
      → Others i until ls ms
      → (at : ℕ) → at ≤ until
      → Others i until ls (expire_stale_leases at ms).1
  beaten :
      {ms : Table}
      → Others i until ls ms
      → (at k seconds : ℕ) → k ≢ i
      → Others i until ls (heartbeat_lease at k seconds ms).1
  released :
      {ms : Table}
      → Others i until ls ms
      → (at k : ℕ) → k ≢ i
      → Others i until ls (release_lease at k ms).1

get_lease-set_lease_ne :
    (i k : ℕ) (f : GpuResourceLease → GpuResourceLease) (ls : Table)
    → ((l : GpuResourceLease) → (f l).id ≡ l.id)
    → k ≢ i
    → get_lease i (set_lease k f ls) ≡ get_lease i ls
get_lease-set_lease_ne i k f [] keeps ne = refl
get_lease-set_lease_ne i k f (l ∷ ls) keeps ne =
    ground (arith, keeps l, get_lease-set_lease_ne i k f ls keeps)

get_lease-expire_rows :
    (i now : ℕ) (ls : Table) {l : GpuResourceLease}
    → get_lease i ls ≡ some l
    → past now l.expires_at ≡ false
    → get_lease i (expire_rows now ls) ≡ some l
unfolding expire_rows
get_lease-expire_rows i now [] h p = absurd (cc h)
get_lease-expire_rows i now (x ∷ xs) {l} h p =
    ground (arith, get_lease-expire_rows i now xs {l = l})

get_lease-expire_stale :
    (i now : ℕ) (ls : Table) {l : GpuResourceLease}
    → get_lease i ls ≡ some l
    → past now l.expires_at ≡ false
    → get_lease i (expire_stale_leases now ls).1 ≡ some l
unfolding expire_stale_leases
get_lease-expire_stale i now ls {l} h p = get_lease-expire_rows i now ls {l = l} h p

get_lease-insert :
    (i : ℕ) (l : GpuResourceLease) (ls : Table)
    → l.id ≢ i
    → get_lease i (insert_lease l ls).1 ≡ get_lease i ls
unfolding insert_lease
get_lease-insert i l ls ne = ground arith

get_lease-acquire :
    (i id at : ℕ) (meanwhile : Table → Table) (r : GpuLeaseAcquireRequest) (ls : Table)
    {l : GpuResourceLease}
    → get_lease i ls ≡ some l
    → past at l.expires_at ≡ false
    → id ≢ i
    → ((ts : Table) → get_lease i (meanwhile ts) ≡ get_lease i ts)
    → get_lease i (acquire_lease id at meanwhile r ls).1 ≡ some l
unfolding acquire_lease active_conflict expire_stale_leases
get_lease-acquire i id at meanwhile r ls {l} h p ne apart =
    let stays = get_lease-expire_rows i at ls {l = l} h p in
    elim (Option-cases
      (find? (conflicts_with (key_of r) (some (group_of r))) (expire_rows at ls))) [
        | inl free ↦ rw free (
            get_lease-insert i (new_lease id at r) (meanwhile (expire_rows at ls)) ne
            ∙ apart (expire_rows at ls)
            ∙ stays)
        | inr (m, found) ↦ rw found stays
      ]

get_lease-heartbeat :
    (i at k seconds : ℕ) (ls : Table)
    → k ≢ i
    → get_lease i (heartbeat_lease at k seconds ls).1 ≡ get_lease i ls
unfolding heartbeat_lease
get_lease-heartbeat i at k seconds ls ne = elim (Option-cases (get_lease k ls)) [
  | inl absent ↦ rw absent refl
  | inr (m, found) ↦ elim (Bool-cases (is_active m)) [
    | inr off ↦ rw (found, off) refl
    | inl on ↦ elim (Bool-cases (past at m.expires_at)) [
      | inl late ↦
          rw (found, on, late)
            (get_lease-set_lease_ne i k (ended LeaseStatus.expired at) ls (λ _. refl) ne)
      | inr fresh ↦
          rw (found, on, fresh) (get_lease-set_lease_ne i k (extended at seconds) ls (λ _. refl) ne)
    ]
  ]
]

get_lease-release :
    (i at k : ℕ) (ls : Table) → k ≢ i → get_lease i (release_lease at k ls).1 ≡ get_lease i ls
unfolding release_lease
get_lease-release i at k ls ne = elim (Option-cases (get_lease k ls)) [
  | inl absent ↦ rw absent refl
  | inr (m, found) ↦ elim (Bool-cases (is_active m)) [
    | inr off ↦ rw (found, off) refl
    | inl on ↦
        rw (found, on)
          (get_lease-set_lease_ne i k (ended LeaseStatus.released at) ls (λ _. refl) ne)
  ]
]

-- The row of a lease that lasts stays as it is.
Others-kept :
    (i until end_at : ℕ) (ls : Table) {ms : Table} {l : GpuResourceLease}
    → Others i until ls ms
    → get_lease i ls ≡ some l
    → l.expires_at ≡ some end_at
    → until < end_at
    → get_lease i ms ≡ some l
Others-kept i until end_at ls quiet h e lt = h
Others-kept i until end_at ls {l = l} (requested {ms = ms} o id at meanwhile r le ne apart) h e lt =
    get_lease-acquire i id at meanwhile r ms {l = l}
      (Others-kept i until end_at ls {l = l} o h e lt) (rw e (ground arith)) ne apart
Others-kept i until end_at ls {l = l} (expired_rows {ms = ms} o at le) h e lt =
    get_lease-expire_stale i at ms {l = l} (Others-kept i until end_at ls {l = l} o h e lt)
      (rw e (ground arith))
Others-kept i until end_at ls {l = l} (beaten {ms = ms} o at k seconds ne) h e lt =
    get_lease-heartbeat i at k seconds ms ne ∙ Others-kept i until end_at ls {l = l} o h e lt
Others-kept i until end_at ls {l = l} (released {ms = ms} o at k ne) h e lt =
    get_lease-release i at k ms ne ∙ Others-kept i until end_at ls {l = l} o h e lt

-- A lease that a heartbeat has extended is live until the extension is over. As long as only
-- requests, expiries, and heartbeats and releases of other leases come in between, in any number
-- and order, no request for its resource or its group is granted before that.
pub heartbeat_protects :
    (now later i seconds id : ℕ) (meanwhile : Table → Table) (r : GpuLeaseAcquireRequest)
    (ls ms ts : Table) (l : GpuResourceLease)
    → heartbeat_lease now i seconds ls ≡ (ok l, ms)
    → later < now + seconds
    → Others i later ms ts
    → (key_of r ≡ l.resource_key) ⊎ (l.exclusive_group ≡ some (group_of r))
    → granted (acquire_lease id later meanwhile r ts) ≡ false
heartbeat_protects now later i seconds id meanwhile r ls ms ts l h soon others wants =
    let (m, found, on, fresh, lm, after) = heartbeat_lease-ok now i seconds ls ms l h in
    let wants' : (key_of r ≡ m.resource_key) ⊎ (m.exclusive_group ≡ some (group_of r)) =
      rw lm at wants in
    let stays : get_lease i ms ≡ some (extended now seconds m) =
      rw after (get_lease-set_lease i (extended now seconds) ls (λ _. refl) found) in
    let kept =
      Others-kept i later (now + seconds) ms {l = extended now seconds m} others stays refl soon in
    let (other, refused, stands, clash) = acquire_refused id later meanwhile r ts (
      any-found (blocks later (key_of r) (group_of r)) i ts kept
        (blocks-extended now later seconds (key_of r) (group_of r) m soon on wants')) in
    ap granted refused
