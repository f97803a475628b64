-- ===== src/Leases/Tests.antt =====
-- GPU leases on a small table: a render lease whose time is up, and a live preview lease.
use cine_forge.Prelude.{Has, ℕ, ◌≡◌, refl, true, false, not, none, some, [], ◌∷◌, arith, any, inl}
use cine_forge.Prelude.Json.{end}
use cine_forge.Leases.{
  LeaseStatus, GpuResourceLease, Table, GpuLeaseAcquireRequest, err, leased, active_conflict,
  expire_rows, expire_stale_leases, acquire_lease, insert_lease, extended, heartbeat_lease,
  release_lease, preview_request, acquire_voice_preview_lease,
}
use cine_forge.Leases.Exclusion.{Exclusive, start, acquire, Apart, mutual_exclusion}
use cine_forge.Leases.Outcomes.{
  blocks, granted, key_of, group_of, acquire_exact, acquire_refused, preview_waits,
}
use cine_forge.Leases.Heartbeats.{heartbeat_protects, quiet, requested, released}
use cine_forge.Leases.Handover.{handover}

abbrev lease : ℕ → GpuResourceLease
lease id = record {
  id = id;
  resource_key = "gpu0";
  exclusive_group = some "gpu-shared";
  workload_type = "video_render";
  workload_id = none;
  owner = "ada";
  worker_id = none;
  status = LeaseStatus.active;
  acquired_at = 10;
  heartbeat_at = some 10;
  expires_at = some 310;
  released_at = none;
  metadata_json = end;
}

abbrev other_lease : GpuResourceLease
other_lease = record (lease 2) { resource_key = "gpu1"; exclusive_group = some "batch" }

abbrev table : Table
table = lease 1 ∷ other_lease ∷ []

abbrev request : GpuLeaseAcquireRequest
request = preview_request "bob" none none "gpu0" 60 none

-- At second 100 the render still holds the GPU; at second 400 its lease is out of time.
granted-table :
    (granted (acquire_lease 3 100 (λ ts. ts) request table) ≡ false)
    × (granted (acquire_lease 3 400 (λ ts. ts) request table) ≡ true)
unfolding acquire_lease active_conflict expire_stale_leases expire_rows insert_lease
granted-table = (refl, refl)

acquire_exact_example :
    granted (acquire_lease 3 400 (λ ts. ts) request table)
    ≡ not (any (blocks 400 (key_of request) (group_of request)) table)
acquire_exact_example = acquire_exact 3 400 request table

acquire_refused_example :
    (l : GpuResourceLease) × (acquire_lease 3 100 (λ ts. []) request table
      ≡ (err (leased l), expire_rows 100 table))
    × Has l table
    × (blocks 100 "gpu0" "gpu-shared" l ≡ true)
acquire_refused_example = acquire_refused 3 100 (λ ts. []) request table refl

-- The render lease, and one on another resource that lasts longer.
abbrev lasting : GpuResourceLease
lasting = record other_lease { expires_at = some 900 }

abbrev busy : Table
busy = lease 1 ∷ lasting ∷ []

busy-Exclusive : Exclusive busy
busy-Exclusive = (λ _. refl, (λ _. refl, tt))

table-Exclusive : Exclusive table
table-Exclusive = (λ _. refl, (λ _. refl, tt))

-- Second 400: the render lease expires, and the preview gets one with identifier 3.
mutual_exclusion_example :
    Apart
      (record (lease 1) {
        id = 3;
        workload_type = "voice_preview";
        owner = "bob";
        acquired_at = 400;
        heartbeat_at = some 400;
        expires_at = some 460;
        metadata_json = request.metadata;
      })
      lasting
unfolding acquire_lease active_conflict expire_stale_leases expire_rows insert_lease
mutual_exclusion_example =
    mutual_exclusion {ls = busy} 3 2 busy-Exclusive (acquire start 3 400 request start)
      (λ e. omega (arith, e)) refl refl refl refl

-- A request that is refused and a release of another lease, after the heartbeat.
abbrev beaten_table : Table
unfolding heartbeat_lease
beaten_table = (heartbeat_lease 200 1 60 table).1

abbrev asked_table : Table
asked_table = (acquire_lease 4 210 (λ ts. ts) request beaten_table).1

abbrev later_table : Table
later_table = (release_lease 220 2 asked_table).1

heartbeat_protects_example : granted (acquire_lease 3 250 (λ ts. []) request later_table) ≡ false
unfolding heartbeat_lease
heartbeat_protects_example =
    heartbeat_protects 200 250 1 60 3 (λ ts. []) request table beaten_table later_table
      (extended 200 60 (lease 1)) refl (omega arith)
      (released (requested quiet 4 210 (λ ts. ts) request (omega arith) (omega arith) (λ ts. refl))
        220 2 (omega arith))
      (inl refl)

handover_example :
    granted (acquire_lease 3 100 (λ ts. ts) request (release_lease 99 1 table).1) ≡ true
handover_example = handover 100 99 1 3 table (lease 1) request table-Exclusive refl refl refl refl

preview_waits_example :
    granted (acquire_voice_preview_lease 3 100 (λ ts. ts) "bob" none none "gpu7" 60 none table)
    ≡ false
preview_waits_example = preview_waits 3 100 (λ ts. ts) "bob" none none "gpu7" 60 none table refl
