-- ===== src/Headless/Ledger/Slots.antt =====
-- The bound on worker slots of scripts/headless_orchestrator/ledger.py.
use cine_forge.Prelude.{ℕ, ◌≤◌, String, ◌≡◌, refl, some, List, [], ◌∷◌, length, arith}
use cine_forge.Headless.Ledger.{
  ProcessLease, Db, others, set_lease, reserve_slot, release_slot, attach_pid, heartbeat,
}

length-set_lease :
    (t : String) (f : ProcessLease → ProcessLease) (ls : List ProcessLease)
    → length (set_lease t f ls) ≡ length ls
length-set_lease t f [] = refl
length-set_lease t f (x ∷ xs) = omega (arith, length-set_lease t f xs)

length-others : (t : String) (ls : List ProcessLease) → length (others t ls) ≤ length ls
length-others t [] = omega arith
length-others t (x ∷ xs) = ground (arith, length-others t xs)

-- The calls on slots, one after another, by any controllers with any limits.
pub data Runs (l : Db) : Db → Type 0 where
  start : Runs l l
  reserve :
      {m : Db}
      → Runs l m
      → (now : ℕ) (t token : String) (max_active : ℕ)
      → Runs l (reserve_slot now t token max_active m).1
  attach :
      {m : Db} → Runs l m → (now : ℕ) (t : String) (pid : ℕ) → Runs l (attach_pid now t pid m).1
  beat : {m : Db} → Runs l m → (now : ℕ) (t : String) → Runs l (heartbeat now t m).1
  release : {m : Db} → Runs l m → (t : String) → Runs l (release_slot t m).1

reserve_slot-bound :
    (now : ℕ) (t token : String) (max_active : ℕ) (l : Db)
    → length l.process_leases ≤ 64
    → length (reserve_slot now t token max_active l).1.process_leases ≤ 64
unfolding reserve_slot
reserve_slot-bound now t token max_active l h = ground arith

-- From a ledger with at most 64 slots in use, no sequence of calls, by any controllers and with any
-- limits, ever brings more than 64 into use.
pub slots_bounded :
    {l m : Db} → length l.process_leases ≤ 64 → Runs l m → length m.process_leases ≤ 64
unfolding attach_pid heartbeat release_slot
slots_bounded h start = h
slots_bounded h (reserve {m = m} r now t token max_active) =
    reserve_slot-bound now t token max_active m (slots_bounded h r)
slots_bounded h (attach {m = m} r now t pid) = omega (
  arith,
  length-set_lease t (λ x. record x { pid = some pid; heartbeat_at = now }) m.process_leases,
  slots_bounded h r,
)
slots_bounded h (beat {m = m} r now t) = omega (
  arith,
  length-set_lease t (λ x. record x { heartbeat_at = now }) m.process_leases,
  slots_bounded h r,
)
slots_bounded h (release {m = m} r t) =
    omega (arith, length-others t m.process_leases, slots_bounded h r)
