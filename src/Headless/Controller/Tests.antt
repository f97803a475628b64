-- ===== src/Headless/Controller/Tests.antt =====
-- Runs of one task: one that passes, one whose tests fail, and one that finds no free slot.
use cine_forge.Prelude.{◌≤◌, ◌≡◌, refl, true, false, some, [], ◌∷◌, arith, length}
use cine_forge.Prelude.Json.{pos}
use cine_forge.Prelude.Session.{err}
use cine_forge.Headless.Tasks.{TaskStatus, ToolProfile, TaskSpec}
use cine_forge.Headless.Ledger.{
  Task, Db, create_run, limit_reached, task_row, new_lease, reserve_slot, release_slot,
}
use cine_forge.Headless.Ledger.Slots.{Runs, start, reserve, release, slots_bounded}
use cine_forge.Headless.Controller.{World, run_task}
use cine_forge.Headless.Controller.Endings.{run_task-Settled, run_task-full}
use cine_forge.Headless.Controller.Preparing.{Settled, prepared}

abbrev spec : TaskSpec
spec = record { run_id = "r"; task_id = "t"; role = "dev"; tool_profile = ToolProfile.edit_owned }

abbrev ledger : Db
ledger = record {
  runs = [];
  tasks = [];
  process_leases = new_lease 1 "other" "k0" ∷ [];
  events = [];
}

-- Everything goes well but the one test.
abbrev failing : World
failing = record {
  prompt_inside = true;
  preflight = true;
  lease_token = "k1";
  snapshot_before = true;
  pid = some 77;
  heartbeats = 2;
  worker = some (record { exit_code = pos 0; timed_out = false });
  report = some (record { status = "completed"; patches = "a.py" ∷ [] });
  applied = some ("a.py" ∷ []);
  snapshot_after = true;
  changed = some ("a.py" ∷ []);
  tests = some (("unit", pos 1) ∷ []);
}

run_task-Settled_example : Settled "t" ledger.process_leases (run_task 64 failing 9 spec ledger)
run_task-Settled_example =
    run_task-Settled 64 failing 9 spec ledger refl refl refl refl (omega arith) (omega arith)

run_task-full_example :
    (run_task 1 failing 9 spec ledger
      ≡ (err (limit_reached 1 1), prepared 9 spec (create_run "r" ledger).1))
    × ((x : Task) × (task_row "t" (prepared 9 spec (create_run "r" ledger).1).tasks ≡ some x)
        × (x.status ≡ TaskStatus.preparing))
run_task-full_example =
    run_task-full 1 failing 9 spec ledger refl refl refl (omega arith) (omega arith) (omega arith)

-- A second slot is reserved and the first one given up.
slots : Runs ledger (release_slot "other" (reserve_slot 9 "t" "k1" 64 ledger).1).1
slots = release (reserve start 9 "t" "k1" 64) "other"

slots_bounded_example :
    length (release_slot "other" (reserve_slot 9 "t" "k1" 64 ledger).1).1.process_leases ≤ 64
slots_bounded_example = slots_bounded {l = ledger} (omega arith) slots
