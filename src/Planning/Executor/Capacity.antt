-- ===== src/Planning/Executor/Capacity.antt =====
-- The capacity of the registry of backend/app/services/planning/executor.py, and its lock.
use cine_forge.Prelude.{
  ℕ, ◌≤◌, ◌<◌, ◌≡◌, refl, subst, Bool, true, false, Option, none, some, List, [], ◌∷◌, ◌==◌, leb,
  length, arith, Bool-cases, Option-cases, inl, inr,
}
use cine_forge.Planning.Executor.{
  Entry, Controller, blocked, lookup, pop, schedule, submit, submit_locked, is_active, discard,
  add_done_callback, unlocked, Outcome, scheduled, already_active, capacity_error, submission_error,
}

some-inj : {c d : Controller} → (some c) ≡ (some d) → c ≡ d
some-inj h = cc h

-- No key is registered twice, and there are at most `max_in_flight` keys.
abbrev pub Distinct : List Entry → Type 0
Distinct [] = Unit
Distinct (e ∷ es) = (lookup e.key es ≡ none) × Distinct es

abbrev pub IsValid : Controller → Type 0
IsValid c = Distinct c.active × (length c.active ≤ c.max_in_flight)

lookup-pop : (k : ℕ) (es : List Entry) → lookup k (pop k es) ≡ none
lookup-pop k [] = refl
lookup-pop k (e ∷ es) = ground (arith, lookup-pop k es)

lookup-pop-none : (i k : ℕ) (es : List Entry) → lookup i es ≡ none → lookup i (pop k es) ≡ none
lookup-pop-none i k [] h = refl
lookup-pop-none i k (e ∷ es) h = ground (arith, lookup-pop-none i k es)

Distinct-pop : (k : ℕ) (es : List Entry) → Distinct es → Distinct (pop k es)
Distinct-pop k [] h = tt
Distinct-pop k (e ∷ es) h = ground (arith, lookup-pop-none e.key k es h.0, Distinct-pop k es h.1)

length-pop : (k : ℕ) (es : List Entry) → length (pop k es) ≤ length es
length-pop k [] = omega arith
length-pop k (e ∷ es) = ground (arith, length-pop k es)

pop-IsValid : (k : ℕ) (c : Controller) → IsValid c → IsValid (record c { active = pop k c.active })
pop-IsValid k c (d, n) = (Distinct-pop k c.active d, omega (arith, length-pop k c.active))

discard-IsValid :
    (k f : ℕ) (c : Controller) {d : Controller} → IsValid c → discard k f c ≡ some d → IsValid d
unfolding discard
discard-IsValid k f c {d} v h = elim (Bool-cases c.locked) [
  | inl held ↦ absurd (cc (simp held at h))
  | inr free ↦ elim (Option-cases (lookup k c.active)) [
    | inl absent ↦ subst IsValid (some-inj (simp (free, absent) at h)) v
    | inr (e, found) ↦ elim (Bool-cases (e.future == f)) [
      | inl mine ↦ subst IsValid (some-inj (simp (free, found, mine) at h)) (pop-IsValid k c v)
      | inr other ↦ subst IsValid (some-inj (simp (free, found, other) at h)) v
    ]
  ]
]

add_done_callback-IsValid :
    (done : ℕ → Bool) (k f : ℕ) (c : Controller) {d : Controller}
    → IsValid c
    → add_done_callback done k f c ≡ some d
    → IsValid d
unfolding add_done_callback
add_done_callback-IsValid done k f c {d} v h = elim (Bool-cases (done f)) [
  | inl quick ↦ discard-IsValid k f c {d = d} v (rw quick at h)
  | inr running ↦ rw (some-inj (rw running at h)) at v
]

schedule-IsValid :
    (done : ℕ → Bool) (k : ℕ) (pooled : Option ℕ) (c : Controller)
    → IsValid c
    → IsValid (schedule done k pooled c).1
unfolding schedule
schedule-IsValid done k none c v = elim (Bool-cases (leb c.max_in_flight (length c.active))) [
  | inl full ↦ rw full v
  | inr room ↦ rw room v
]
schedule-IsValid done k (some f) c v = elim (Bool-cases (leb c.max_in_flight (length c.active))) [
  | inl full ↦ rw full v
  | inr room ↦
      let d = record c { active = record { key = k; future = f } ∷ pop k c.active } in
      let added : IsValid d = (
        (lookup-pop k c.active, Distinct-pop k c.active v.0),
        ground (arith, length-pop k c.active, room),
      ) in
      elim (Option-cases (add_done_callback done k f d)) [
        | inl waits ↦ rw (room, waits) added
        | inr (e, attached) ↦
            rw (room, attached) (add_done_callback-IsValid done k f d {d = e} added attached)
      ]
]

submit_locked-IsValid :
    (done : ℕ → Bool) (k : ℕ) (pooled : Option ℕ) (c : Controller)
    → IsValid c
    → IsValid (submit_locked done k pooled c).1
unfolding submit_locked
submit_locked-IsValid done k pooled c v = elim (Option-cases (lookup k c.active)) [
  | inl absent ↦ rw absent (schedule-IsValid done k pooled c v)
  | inr (e, found) ↦ elim (Bool-cases (done e.future)) [
    | inl over ↦
        rw (found, over)
          (schedule-IsValid done k pooled (record c { active = pop k c.active })
            (pop-IsValid k c v))
    | inr running ↦ rw (found, running) v
  ]
]

unlocked-IsValid : (o : Outcome × Controller) → IsValid o.1 → IsValid (unlocked o).1
unlocked-IsValid (blocked, c) v = v
unlocked-IsValid (scheduled, c) v = v
unlocked-IsValid (already_active, c) v = v
unlocked-IsValid (capacity_error, c) v = v
unlocked-IsValid (submission_error, c) v = v

submit-IsValid :
    (done : ℕ → Bool) (k : ℕ) (pooled : Option ℕ) (c : Controller)
    → IsValid c
    → IsValid (submit done k pooled c).1
unfolding submit
submit-IsValid done k pooled c v = elim (Bool-cases c.locked) [
  | inl held ↦ simp held v
  | inr free ↦ simp free (
      unlocked-IsValid (submit_locked done k pooled (record c { locked = true }))
        (submit_locked-IsValid done k pooled (record c { locked = true }) v))
]

is_active-IsValid :
    (done : ℕ → Bool) (k : ℕ) (c : Controller) → IsValid c → IsValid (is_active done k c).1
unfolding is_active
is_active-IsValid done k c v = elim (Bool-cases c.locked) [
  | inl held ↦ simp held v
  | inr free ↦ elim (Option-cases (lookup k c.active)) [
    | inl absent ↦ simp (free, absent) v
    | inr (e, found) ↦ elim (Bool-cases (done e.future)) [
      | inl over ↦ simp (free, found, over) (pop-IsValid k c v)
      | inr running ↦ simp (free, found, running) v
    ]
  ]
]

-- The calls on the registry, one after another, and the callbacks of finished futures.
pub data Runs (c : Controller) : Controller → Type 0 where
  start : Runs c c
  submitted :
      {d : Controller}
      → Runs c d
      → (done : ℕ → Bool) (k : ℕ) (pooled : Option ℕ) → Runs c (submit done k pooled d).1
  asked : {d : Controller} → Runs c d → (done : ℕ → Bool) (k : ℕ) → Runs c (is_active done k d).1
  finished : {d e : Controller} → Runs c d → (k f : ℕ) → discard k f d ≡ some e → Runs c e

-- Whatever is submitted, asked and finished, in any order, no run is registered twice, and there are
-- never more registered runs than `max_in_flight`.
pub capacity_kept : {c d : Controller} → IsValid c → Runs c d → IsValid d
capacity_kept v start = v
capacity_kept v (submitted {d = d} r done k pooled) =
    submit-IsValid done k pooled d (capacity_kept v r)
capacity_kept v (asked {d = d} r done k) = is_active-IsValid done k d (capacity_kept v r)
capacity_kept v (finished {d = d} {e = e} r k f over) =
    discard-IsValid k f d {d = e} (capacity_kept v r) over

-- Where a new run's future is finished before its callback is attached, `add_done_callback` calls
-- `_discard` in the thread that holds the lock, so `submit` waits for ever for itself; from then
-- on every further submission waits too.
pub submit_deadlock :
    (done : ℕ → Bool) (k f : ℕ) (c : Controller)
    → c.locked ≡ false
    → lookup k c.active ≡ none
    → length c.active < c.max_in_flight
    → done f ≡ true
    → (done' : ℕ → Bool) (k' : ℕ) (pooled : Option ℕ)
    → let (outcome, d) = submit done k (some f) c in
      (outcome ≡ blocked) × (submit done' k' pooled d ≡ (blocked, d))
unfolding submit submit_locked schedule add_done_callback discard
submit_deadlock done k f c free absent room quick done' k' pooled =
    let fits : leb c.max_in_flight (length c.active) ≡ false = ground arith in
    rw (free, absent, fits, quick) (refl, refl)
