-- ===== src/Leases/Exclusion.antt =====
-- Mutual exclusion: what the leases of backend/app/services/runtime/gpu_leases.py guarantee over
-- any sequence of calls, by any number of sessions.
use cine_forge.Prelude.{
  ℕ, String, ◌≡◌, refl, ◌≢◌, Bool, true, false, Option, some, [], ◌∷◌, map, ◌==◌, any,
  if◌then◌else◌, find?, arith, eq_iff, eq_refl, Bool-cases, Option-cases, inl, inr, sym,
}
use cine_forge.Leases.{
  LeaseStatus, GpuResourceLease, Table, GpuLeaseAcquireRequest, is_active, past, stale, ended,
  expire_rows, expire_stale_leases, same_group, clashes, active_conflict, insert_lease, new_lease,
  acquire_lease, get_lease, set_lease, extended, heartbeat_lease, release_lease, or_default,
  conflicts_with,
}

-- What the two unique indexes demand: no two active rows with one resource, or with one group.
abbrev pub Exclusive : Table → Type 0
Exclusive [] = Unit
Exclusive (l ∷ ls) = (is_active l ≡ true → any (clashes l) ls ≡ false) × Exclusive ls

-- A change of a row that keeps its resource and its group and activates nothing.
abbrev pub Weakens : (GpuResourceLease → GpuResourceLease) → Type 0
Weakens f =
    (l : GpuResourceLease)
    → ((f l).resource_key ≡ l.resource_key)
      × ((f l).exclusive_group ≡ l.exclusive_group)
      × (is_active (f l) ≡ true → is_active l ≡ true)
      × ((f l).id ≡ l.id)

pub ended-Weakens : (q : LeaseStatus) (now : ℕ) → q ≢ LeaseStatus.active → Weakens (ended q now)
ended-Weakens LeaseStatus.active now h l = absurd (h refl)
ended-Weakens LeaseStatus.released now h l = (refl, refl, λ e. cc, refl)
ended-Weakens LeaseStatus.expired now h l = (refl, refl, λ e. cc, refl)

pub extended-Weakens : (now seconds : ℕ) → Weakens (extended now seconds)
extended-Weakens now seconds l = (refl, refl, λ e. e, refl)

clashes-weaken :
    (a b a' b' : GpuResourceLease)
    → (a'.resource_key ≡ a.resource_key) × (a'.exclusive_group ≡ a.exclusive_group)
    → (b'.resource_key ≡ b.resource_key) × (b'.exclusive_group ≡ b.exclusive_group)
    → (is_active b' ≡ true → is_active b ≡ true)
    → clashes a b ≡ false
    → clashes a' b' ≡ false
clashes-weaken a b a' b' (ak, ag) (bk, bg) act h = rw (ak, ag, bk, bg) (ground arith)

module _ (f : GpuResourceLease → GpuResourceLease) (w : Weakens f) where
  clashes-map :
      (a a' : GpuResourceLease) (ls : Table)
      → (a'.resource_key ≡ a.resource_key) × (a'.exclusive_group ≡ a.exclusive_group)
      → any (clashes a) ls ≡ false
      → any (clashes a') (map f ls) ≡ false
  clashes-map a a' [] same h = refl
  clashes-map a a' (l ∷ ls) same h = elim (Bool-cases (clashes a l)) [
    | inl clash ↦ absurd (cc (rw clash at h))
    | inr apart ↦
        let (k, g, act, i) = w l in
        let rest : any (clashes a) ls ≡ false = rw apart at h in
        rw (clashes-weaken a l a' (f l) same (k, g) act apart) (clashes-map a a' ls same rest)
  ]

  Exclusive-map : (ls : Table) → Exclusive ls → Exclusive (map f ls)
  Exclusive-map [] e = tt
  Exclusive-map (l ∷ ls) (first, rest) =
      let (k, g, act, i) = w l in
      (λ on. clashes-map l (f l) ls (k, g) (first (act on)), Exclusive-map ls rest)

-- What one call may do to a row.
abbrev pub expire_one : ℕ → GpuResourceLease → GpuResourceLease
expire_one now l = if stale now l then ended LeaseStatus.expired now l else l

abbrev set_one : ℕ → (GpuResourceLease → GpuResourceLease) → GpuResourceLease → GpuResourceLease
set_one i f l = if l.id == i then f l else l

if-Weakens :
    (t : GpuResourceLease → Bool) (f : GpuResourceLease → GpuResourceLease)
    → Weakens f
    → Weakens (λ l. if t l then f l else l)
if-Weakens t f w l = elim (Bool-cases (t l)) [
  | inl e ↦ rw e (w l)
  | inr e ↦ rw e (refl, refl, λ h. h, refl)
]

pub expire_rows-map : (now : ℕ) (ls : Table) → expire_rows now ls ≡ map (expire_one now) ls
unfolding expire_rows
expire_rows-map now [] = refl
expire_rows-map now (l ∷ ls) = rw (expire_rows-map now ls)

set_lease-map :
    (i : ℕ) (f : GpuResourceLease → GpuResourceLease) (ls : Table)
    → set_lease i f ls ≡ map (set_one i f) ls
set_lease-map i f [] = refl
set_lease-map i f (l ∷ ls) = rw (set_lease-map i f ls)

pub expire_rows-Exclusive : (now : ℕ) (ls : Table) → Exclusive ls → Exclusive (expire_rows now ls)
expire_rows-Exclusive now ls e = rw (expire_rows-map now ls) (
    Exclusive-map (expire_one now)
      (if-Weakens (stale now) (ended LeaseStatus.expired now)
        (ended-Weakens LeaseStatus.expired now (λ h. cc)))
      ls e)

pub set_lease-Exclusive :
    (i : ℕ) (f : GpuResourceLease → GpuResourceLease) (ls : Table)
    → Weakens f
    → Exclusive ls
    → Exclusive (set_lease i f ls)
set_lease-Exclusive i f ls w e =
    rw (set_lease-map i f ls) (Exclusive-map (set_one i f) (if-Weakens (λ l. l.id == i) f w) ls e)

pub insert_lease-Exclusive :
    (l : GpuResourceLease) (ls : Table) → Exclusive ls → Exclusive (insert_lease l ls).1
unfolding insert_lease
insert_lease-Exclusive l ls e = elim (Bool-cases (any (clashes l) ls)) [
  | inl clash ↦ rw clash e
  | inr free ↦ rw free (λ on. free, e)
]

pub acquire_lease-Exclusive :
    (id now : ℕ) (meanwhile : Table → Table) (r : GpuLeaseAcquireRequest) (ls : Table)
    → ((ts : Table) → Exclusive ts → Exclusive (meanwhile ts))
    → Exclusive ls
    → Exclusive (acquire_lease id now meanwhile r ls).1
unfolding acquire_lease active_conflict expire_stale_leases
acquire_lease-Exclusive id now meanwhile r ls keeps e =
    let after = expire_rows-Exclusive now ls e in
    elim (Option-cases (
      find?
        (conflicts_with (or_default "gpu0" (some r.resource_key))
          (some (or_default "gpu-shared" r.exclusive_group)))
        (expire_rows now ls))) [
          | inl free ↦ rw free (
              insert_lease-Exclusive (new_lease id now r) (meanwhile (expire_rows now ls))
                (keeps (expire_rows now ls) after))
          | inr (l, found) ↦ rw found after
        ]

pub heartbeat_lease-Exclusive :
    (now i seconds : ℕ) (ls : Table) → Exclusive ls → Exclusive (heartbeat_lease now i seconds ls).1
unfolding heartbeat_lease
heartbeat_lease-Exclusive now i seconds ls e = elim (Option-cases (get_lease i ls)) [
  | inl absent ↦ rw absent e
  | inr (l, found) ↦ elim (Bool-cases (is_active l)) [
    | inr off ↦ rw (found, off) e
    | inl on ↦ elim (Bool-cases (past now l.expires_at)) [
      | inl late ↦
          rw (found, on, late)
            (set_lease-Exclusive i (ended LeaseStatus.expired now) ls
              (ended-Weakens LeaseStatus.expired now (λ h. cc)) e)
      | inr fresh ↦
          rw (found, on, fresh)
            (set_lease-Exclusive i (extended now seconds) ls (extended-Weakens now seconds) e)
    ]
  ]
]

pub release_lease-Exclusive :
    (now i : ℕ) (ls : Table) → Exclusive ls → Exclusive (release_lease now i ls).1
unfolding release_lease
release_lease-Exclusive now i ls e = elim (Option-cases (get_lease i ls)) [
  | inl absent ↦ rw absent e
  | inr (l, found) ↦ elim (Bool-cases (is_active l)) [
    | inr off ↦ rw (found, off) e
    | inl on ↦
        rw (found, on)
          (set_lease-Exclusive i (ended LeaseStatus.released now) ls
            (ended-Weakens LeaseStatus.released now (λ h. cc)) e)
  ]
]

-- Calls one after another, where other sessions may run any calls between the query and the commit
-- of an acquisition.
pub data Runs : Table → Table → Type 0 where
  start : {ls : Table} → Runs ls ls
  expire : {ls ms : Table} → Runs ls ms → (now : ℕ) → Runs ls (expire_stale_leases now ms).1
  acquire :
      {ls ms ts : Table}
      → Runs ls ms
      → (id now : ℕ) (r : GpuLeaseAcquireRequest) → Runs (expire_rows now ms) ts
      → Runs ls (acquire_lease id now (λ _. ts) r ms).1
  beat :
      {ls ms : Table}
      → Runs ls ms
      → (now i seconds : ℕ) → Runs ls (heartbeat_lease now i seconds ms).1
  release : {ls ms : Table} → Runs ls ms → (now i : ℕ) → Runs ls (release_lease now i ms).1

Runs-Exclusive : {ls ms : Table} → Runs ls ms → Exclusive ls → Exclusive ms
unfolding expire_stale_leases
Runs-Exclusive start e = e
Runs-Exclusive (expire {ms = ms} r now) e = expire_rows-Exclusive now ms (Runs-Exclusive r e)
Runs-Exclusive (acquire {ms = ms} {ts = ts} r id now q inner) e =
    let before = Runs-Exclusive r e in
    acquire_lease-Exclusive id now (λ _. ts) q ms
      (λ _ _. Runs-Exclusive inner (expire_rows-Exclusive now ms before)) before
Runs-Exclusive (beat {ms = ms} r now i seconds) e =
    heartbeat_lease-Exclusive now i seconds ms (Runs-Exclusive r e)
Runs-Exclusive (release {ms = ms} r now i) e = release_lease-Exclusive now i ms (Runs-Exclusive r e)

-- Two leases that hold neither the same resource nor the same group.
abbrev pub Apart : GpuResourceLease → GpuResourceLease → Type 0
Apart a b =
    (a.resource_key ≢ b.resource_key)
    × ((g : String) → a.exclusive_group ≡ some g → b.exclusive_group ≢ some g)

pub Apart-sym : (a b : GpuResourceLease) → Apart a b → Apart b a
Apart-sym a b (k, g) = (λ e. k (sym e), λ h be ae. g h ae be)

same_group-some :
    (x y : Option String) (g : String) → x ≡ some g → y ≡ some g → same_group x y ≡ true
same_group-some x y g xg yg = rw (xg, yg) (eq_refl g)

pub clashes-Apart : (a b : GpuResourceLease) → is_active b ≡ true → clashes a b ≡ false → Apart a b
clashes-Apart a b on h = (
  λ e. ground (arith, eq_iff b.resource_key a.resource_key),
  λ g ag bg. ground (arith, same_group-some a.exclusive_group b.exclusive_group g ag bg),
)

pub any-get_lease :
    (p : GpuResourceLease → Bool) (i : ℕ) (ls : Table) {b : GpuResourceLease}
    → any p ls ≡ false
    → get_lease i ls ≡ some b
    → p b ≡ false
any-get_lease p i [] h g = cc
any-get_lease p i (l ∷ ls) {b} h g = ground (arith, any-get_lease p i ls {b = b})

Exclusive-Apart :
    (i k : ℕ) (ls : Table) {a b : GpuResourceLease}
    → Exclusive ls
    → i ≢ k
    → get_lease i ls ≡ some a
    → get_lease k ls ≡ some b
    → is_active a ≡ true
    → is_active b ≡ true
    → Apart a b
Exclusive-Apart i k [] e ne ga gb aon bon = cc
Exclusive-Apart i k (l ∷ ls) {a} {b} (first, rest) ne ga gb aon bon =
    elim (Bool-cases (l.id == i)) [
      | inl here ↦
          let la : l ≡ a = ground arith in
          let later : get_lease k ls ≡ some b = ground arith in
          let lon : is_active l ≡ true = rw la aon in
          rw (sym la) (clashes-Apart l b bon (any-get_lease (clashes l) k ls (first lon) later))
      | inr there ↦
          let later : get_lease i ls ≡ some a = ground arith in
          elim (Bool-cases (l.id == k)) [
            | inl here ↦
                let lb : l ≡ b = ground arith in
                let lon : is_active l ≡ true = rw lb bon in
                rw (sym lb) (
                  Apart-sym l a
                    (clashes-Apart l a aon (any-get_lease (clashes l) i ls (first lon) later)))
            | inr away ↦
                let later' : get_lease k ls ≡ some b = ground arith in
                Exclusive-Apart i k ls rest ne later later' aon bon
          ]
    ]

-- Whatever calls run on a table that the unique indexes accept, in any order and at any times, and
-- with any calls of other sessions between the query and the commit of an acquisition, two
-- different leases that are active afterwards hold different resources and different groups.
pub mutual_exclusion :
    {ls ms : Table} (i k : ℕ) {a b : GpuResourceLease}
    → Exclusive ls
    → Runs ls ms
    → i ≢ k
    → get_lease i ms ≡ some a
    → get_lease k ms ≡ some b
    → is_active a ≡ true
    → is_active b ≡ true
    → Apart a b
mutual_exclusion {ms = ms} i k e r ne ga gb aon bon =
    Exclusive-Apart i k ms (Runs-Exclusive r e) ne ga gb aon bon
