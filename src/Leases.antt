-- ===== src/Leases.antt =====
-- backend/app/services/runtime/gpu_leases.py: leases on GPU resources, with their rows of
-- backend/app/db/base.py. The state is the committed table: each operation commits what it
-- changes or rolls it back. Instants are numbers of seconds and `now` is the instant of a call;
-- the order of the rows stands for the order, left open, in which a query returns them.
pub mod Exclusion
pub mod Outcomes
pub mod Heartbeats
pub mod Handover
mod Tests
use cine_forge.Prelude.{
  ℕ, ◌+◌, String, str_eq, Bool, true, false, ◌&&◌, ◌||◌, not, Option, none, some, List, [], ◌∷◌,
  ◌++◌, ◌==◌, leb, if◌then◌else◌, find?, any, select, length,
}
use cine_forge.Prelude.Json.{Json, Items, nil, cons, Fields, end, field}

pub data LeaseStatus : Type 0 where
  active released expired : LeaseStatus

pub record GpuResourceLease : Type 0 where
  pub id : ℕ
  pub resource_key : String
  pub exclusive_group : Option String
  pub workload_type : String
  pub workload_id : Option String
  pub owner : String
  pub worker_id : Option String
  pub status : LeaseStatus
  pub acquired_at : ℕ
  pub heartbeat_at : Option ℕ
  pub expires_at : Option ℕ
  pub released_at : Option ℕ
  pub metadata_json : Fields

abbrev pub Table : Type 0
Table = List GpuResourceLease

-- What `GpuLeaseError` is raised for, with what its message names.
pub data GpuLeaseError : Type 0 where
  leased : GpuResourceLease → GpuLeaseError
  race_lost : GpuLeaseError
  not_found : ℕ → GpuLeaseError
  not_active : ℕ → LeaseStatus → GpuLeaseError
  has_expired : ℕ → GpuLeaseError

pub data Result (A : Type 0) : Type 0 where
  ok : A → Result A
  err : GpuLeaseError → Result A

pub record GpuLeaseAcquireRequest : Type 0 where
  pub resource_key : String
  pub exclusive_group : Option String
  pub workload_type : String
  pub workload_id : Option String
  pub owner : String
  pub worker_id : Option String
  pub ttl_seconds : ℕ
  pub metadata : Fields

abbrev pub is_active : GpuResourceLease → Bool
is_active l = is l.status
  where
    is : LeaseStatus → Bool
    is LeaseStatus.active = true
    is _ = false

-- `expires_at IS NOT NULL AND expires_at <= now`
abbrev pub past : ℕ → Option ℕ → Bool
past now none = false
past now (some t) = leb t now

abbrev pub stale : ℕ → GpuResourceLease → Bool
stale now l = is_active l && past now l.expires_at

-- A row with its status set to `expired`, and to `released`.
abbrev pub ended : LeaseStatus → ℕ → GpuResourceLease → GpuResourceLease
ended q now l = record l { status = q; released_at = some now }

unfoldable pub expire_rows : ℕ → Table → Table
expire_rows now [] = []
expire_rows now (l ∷ ls) =
    (if stale now l then ended LeaseStatus.expired now l else l) ∷ expire_rows now ls

unfoldable pub expire_stale_leases : ℕ → Table → ℕ × Table
unfolding expire_rows
expire_stale_leases now ls = (length (select (stale now) ls), expire_rows now ls)

-- `exclusive_group == group`, which is not true of NULL.
abbrev pub in_group : String → Option String → Bool
in_group g none = false
in_group g (some h) = str_eq h g

abbrev pub conflicts : String → String → GpuResourceLease → Bool
conflicts key group l =
    is_active l && (str_eq l.resource_key key || in_group group l.exclusive_group)

-- With no group, or an empty one, only the resource counts.
abbrev pub conflicts_with : String → Option String → GpuResourceLease → Bool
conflicts_with key none l = is_active l && str_eq l.resource_key key
conflicts_with key (some group) l =
    if str_eq group "" then is_active l && str_eq l.resource_key key else conflicts key group l

unfoldable pub active_conflict :
    String → Option String → ℕ → Table → Option GpuResourceLease × Table
unfolding expire_rows expire_stale_leases
active_conflict key group now ls =
    let after = (expire_stale_leases now ls).1 in (find? (conflicts_with key group) after, after)

-- `value or default`
abbrev pub or_default : String → Option String → String
or_default d none = d
or_default d (some v) = if str_eq v "" then d else v

-- The rows that the two partial unique indexes hold against a new active row.
abbrev pub same_group : Option String → Option String → Bool
same_group none h = false
same_group (some g) h = in_group g h

abbrev pub clashes : GpuResourceLease → GpuResourceLease → Bool
clashes l m =
    is_active m
    && (str_eq m.resource_key l.resource_key || same_group l.exclusive_group m.exclusive_group)

-- The row that `acquire_lease` adds, with its new identifier.
abbrev pub new_lease : ℕ → ℕ → GpuLeaseAcquireRequest → GpuResourceLease
new_lease id now r = record {
  id = id;
  resource_key = or_default "gpu0" (some r.resource_key);
  exclusive_group = some (or_default "gpu-shared" r.exclusive_group);
  workload_type = r.workload_type;
  workload_id = r.workload_id;
  owner = r.owner;
  worker_id = r.worker_id;
  status = LeaseStatus.active;
  acquired_at = now;
  heartbeat_at = some now;
  expires_at = some (now + r.ttl_seconds);
  released_at = none;
  metadata_json = r.metadata;
}

-- The commit of a new row, which the unique indexes refuse.
unfoldable pub insert_lease : GpuResourceLease → Table → Result GpuResourceLease × Table
insert_lease l ls = if any (clashes l) ls then (err race_lost, ls) else (ok l, l ∷ ls)

-- `meanwhile` is what other sessions commit between the query and the commit.
unfoldable pub acquire_lease :
    ℕ → ℕ → (Table → Table) → GpuLeaseAcquireRequest → Table → Result GpuResourceLease × Table
unfolding active_conflict insert_lease
acquire_lease id now meanwhile r ls =
    let (conflict, after) =
      active_conflict (or_default "gpu0" (some r.resource_key))
        (some (or_default "gpu-shared" r.exclusive_group)) now ls in
    settle conflict after
  where
    settle : Option GpuResourceLease → Table → Result GpuResourceLease × Table
    settle (some l) after = (err (leased l), after)
    settle none after = insert_lease (new_lease id now r) (meanwhile after)

-- `db.get`, and an assignment to attributes of the row.
abbrev pub get_lease : ℕ → Table → Option GpuResourceLease
get_lease i ls = find? (λ l. l.id == i) ls

abbrev pub set_lease : ℕ → (GpuResourceLease → GpuResourceLease) → Table → Table
set_lease i f [] = []
set_lease i f (l ∷ ls) = (if l.id == i then f l else l) ∷ set_lease i f ls

abbrev pub extended : ℕ → ℕ → GpuResourceLease → GpuResourceLease
extended now seconds l = record l { heartbeat_at = some now; expires_at = some (now + seconds) }

unfoldable pub heartbeat_lease : ℕ → ℕ → ℕ → Table → Result GpuResourceLease × Table
heartbeat_lease now i seconds ls = beat (get_lease i ls)
  where
    beat : Option GpuResourceLease → Result GpuResourceLease × Table
    beat none = (err (not_found i), ls)
    beat (some l) =
        if not (is_active l)
        then (err (not_active i l.status), ls)
        else (if past now l.expires_at
            then (err (has_expired i), set_lease i (ended LeaseStatus.expired now) ls)
            else (ok (extended now seconds l), set_lease i (extended now seconds) ls))

unfoldable pub release_lease : ℕ → ℕ → Table → Result GpuResourceLease × Table
release_lease now i ls = release (get_lease i ls)
  where
    release : Option GpuResourceLease → Result GpuResourceLease × Table
    release none = (err (not_found i), ls)
    release (some l) =
        if is_active l
        then (
          ok (ended LeaseStatus.released now l),
          set_lease i (ended LeaseStatus.released now) ls,
        )
        else (ok l, ls)

-- `metadata or {"serializes_with": sorted(VIDEO_GPU_WORKLOADS)}`
abbrev pub serializes_with : Fields
serializes_with =
    field "serializes_with"
      (Json.arr (
        cons (Json.text "comfy_job") (
          cons (Json.text "gpu_video") (
            cons (Json.text "image_render")
              (cons (Json.text "video_render") (cons (Json.text "workflow_run") nil))))))
      end

abbrev pub or_serializes : Option Fields → Fields
or_serializes none = serializes_with
or_serializes (some end) = serializes_with
or_serializes (some (field k v fs)) = field k v fs

abbrev pub preview_request :
    String → Option String → Option String → String → ℕ → Option Fields → GpuLeaseAcquireRequest
preview_request owner workload_id worker_id key ttl metadata = record {
  resource_key = key;
  exclusive_group = some "gpu-shared";
  workload_type = "voice_preview";
  workload_id = workload_id;
  owner = owner;
  worker_id = worker_id;
  ttl_seconds = ttl;
  metadata = or_serializes metadata;
}

unfoldable pub acquire_voice_preview_lease :
    ℕ
    → ℕ
    → (Table → Table)
    → String
    → Option String
    → Option String
    → String
    → ℕ
    → Option Fields
    → Table
    → Result GpuResourceLease × Table
unfolding acquire_lease
acquire_voice_preview_lease id now meanwhile owner workload_id worker_id key ttl metadata ls =
    acquire_lease id now meanwhile (preview_request owner workload_id worker_id key ttl metadata) ls
