-- ===== src/Planning/Executor.antt =====
-- backend/app/services/planning/executor.py: the registry of the planning runs that this process
-- executes. A run is named by the number of its execution key, a future by its own. `done` tells
-- which futures are finished when a call asks. `Lock` is not reentrant, and `add_done_callback` of a
-- finished future calls back at once, in the calling thread.
pub mod Capacity
use cine_forge.Prelude.{
  ℕ, Bool, true, false, not, ◌&&◌, Option, none, some, List, [], ◌∷◌, ◌==◌, leb, find?, select,
  length, if◌then◌else◌,
}

-- An entry of `_active`.
pub record Entry : Type 0 where
  pub key : ℕ
  pub future : ℕ

pub record Controller : Type 0 where
  pub max_in_flight : ℕ
  pub locked : Bool
  pub active : List Entry

-- What a call comes to; `blocked` never returns.
pub data Outcome : Type 0 where
  scheduled already_active capacity_error submission_error blocked : Outcome

abbrev pub lookup : ℕ → List Entry → Option Entry
lookup k es = find? (λ e. e.key == k) es

-- `self._active.pop(key, None)`
abbrev pub pop : ℕ → List Entry → List Entry
pop k es = select (λ e. not (e.key == k)) es

-- `_discard`, the callback of a finished future. It takes the lock: `none` is a thread that waits for
-- it, because another thread or itself holds it.
unfoldable pub discard : ℕ → ℕ → Controller → Option Controller
discard k f c = if c.locked then none else some (remove (lookup k c.active))
  where
    remove : Option Entry → Controller
    remove none = c
    remove (some e) = if e.future == f then record c { active = pop k c.active } else c

-- `add_done_callback`: a future that is not finished keeps the callback for later.
unfoldable pub add_done_callback : (ℕ → Bool) → ℕ → ℕ → Controller → Option Controller
unfolding discard
add_done_callback done k f c = if done f then discard k f c else some c

-- The part of `submit` behind the check for a duplicate, with the lock held. The pool gives a future
-- or raises.
unfoldable pub schedule : (ℕ → Bool) → ℕ → Option ℕ → Controller → Outcome × Controller
unfolding add_done_callback
schedule done k pooled c =
    if leb c.max_in_flight (length c.active) then (capacity_error, c) else start pooled
  where
    attached : Controller → Option Controller → Outcome × Controller
    attached d none = (blocked, d)
    attached d (some e) = (scheduled, e)

    start : Option ℕ → Outcome × Controller
    start none = (submission_error, c)
    start (some f) =
        let d = record c { active = record { key = k; future = f } ∷ pop k c.active } in
        attached d (add_done_callback done k f d)

-- The part of `submit` that holds the lock.
unfoldable pub submit_locked : (ℕ → Bool) → ℕ → Option ℕ → Controller → Outcome × Controller
unfolding schedule
submit_locked done k pooled c = duplicate (lookup k c.active)
  where
    duplicate : Option Entry → Outcome × Controller
    duplicate none = schedule done k pooled c
    duplicate (some e) =
        if done e.future
        then schedule done k pooled (record c { active = pop k c.active })
        else (already_active, c)

-- The end of `with self._lock`, which a thread that waits does not reach.
abbrev pub unlocked : Outcome × Controller → Outcome × Controller
unlocked (blocked, c) = (blocked, c)
unlocked (scheduled, c) = (scheduled, record c { locked = false })
unlocked (already_active, c) = (already_active, record c { locked = false })
unlocked (capacity_error, c) = (capacity_error, record c { locked = false })
unlocked (submission_error, c) = (submission_error, record c { locked = false })

unfoldable pub submit : (ℕ → Bool) → ℕ → Option ℕ → Controller → Outcome × Controller
unfolding submit_locked
submit done k pooled c =
    if c.locked
    then (blocked, c)
    else unlocked (submit_locked done k pooled (record c { locked = true }))

-- The answer of `is_active`; `none` never returns.
unfoldable pub is_active : (ℕ → Bool) → ℕ → Controller → Option Bool × Controller
is_active done k c = if c.locked then (none, c) else answer (lookup k c.active)
  where
    answer : Option Entry → Option Bool × Controller
    answer none = (some false, c)
    answer (some e) =
        if done e.future then (some false, record c { active = pop k c.active }) else (some true, c)
