-- ===== src/Assets/Store/Uploads.antt =====
-- Uploads of backend/app/services/reference_assets.py.
use cine_forge.Prelude.{
  zero, suc, ◌+◌, ltb, take, ℕ, String, str_eq, Bool, true, false, ◌&&◌, ◌||◌, not, Option, none,
  some, [], ◌∷◌, ◌++◌, ◌==◌, if◌then◌else◌, any, length, is_some,
}
use cine_forge.Prelude.Json.{Fields, end, field, text, boolean, obj}
use cine_forge.Prelude.Session.{Result, ok, err}
use cine_forge.Assets.Bytes.{Bytes}
use cine_forge.Assets.Bytes
use cine_forge.Assets.Errors
use cine_forge.Assets.Errors.{AssetError}
use cine_forge.Assets.Images.{Dimensions, image_dimensions}
use cine_forge.Assets.Policy.{
  KindPolicy, kind_policy, one_of, normalize_mime, validate_kind_and_payload,
}
use cine_forge.Assets.Rows.{PlanningMediaAsset, Tables, find_duplicate, audit}
use cine_forge.Assets.Uri.{Text, codes, build_managed_uri}
use cine_forge.Assets.World.{
  Call, World, pure, raise, lift, gets, ◌>>=◌, ◌>>◌, change, save, undo, require,
}
use cine_forge.Assets.Store.{
  Host, Moment, project_or_error, record_change, commit_rows, write_bytes, try_unlink,
}

pub record Upload : Type 0 where
  pub project_id : ℕ
  pub kind : String
  pub content : Bytes
  pub original_filename : Option String
  pub content_type : Option String
  pub source_type : String
  pub approval_state : String
  pub extra_metadata : Fields
  pub consent_confirmed : Option Bool

abbrev pub unarchived : PlanningMediaAsset → PlanningMediaAsset
unarchived a = record a {
  archived_at = none;
  approval_state = if str_eq a.approval_state "archived" then "draft" else a.approval_state;
}

-- A duplicate is answered with the row that is there.
unfoldable pub reuse : Moment → PlanningMediaAsset → Call PlanningMediaAsset
reuse m existing =
    if is_some existing.archived_at
    then record_change m existing unarchived "planning_media_asset_duplicate_reused_unarchived"
    else (do
      change (audit existing.id "planning_media_asset_duplicate_reused")
      commit_rows m
      pure existing)

abbrev pub width_of : Dimensions → Option ℕ
width_of none = none
width_of (some (width, height)) = some width

abbrev pub height_of : Dimensions → Option ℕ
height_of none = none
height_of (some (width, height)) = some height

pub record Extracted : Type 0 where
  pub size : Dimensions
  pub duration_sec : Option ℕ
  pub extraction : String

abbrev pub is_wave : Option String → Bool
is_wave none = false
is_wave (some mime) = one_of ("audio/wav" ∷ "audio/x-wav" ∷ "audio/wave" ∷ []) mime

unfoldable pub extract_metadata : Host → String → Bytes → Option String → Bytes.Result Extracted
extract_metadata h category content mime_type =
    if str_eq category "image"
    then image (image_dimensions h.open_image content mime_type)
    else (if str_eq category "audio" && is_wave mime_type
        then Bytes.ok (audio (h.wav_duration content))
        else Bytes.ok (record { size = none; duration_sec = none; extraction = "none" }))
  where
    image : Bytes.Result Dimensions → Bytes.Result Extracted
    image (Bytes.err e) = Bytes.err e
    image (Bytes.ok none) =
        Bytes.ok (record { size = none; duration_sec = none; extraction = "none" })
    image (Bytes.ok (some d)) =
        Bytes.ok
          (record { size = some d; duration_sec = none; extraction = "image_headers_or_pillow" })

    audio : Option ℕ → Extracted
    audio none = record { size = none; duration_sec = none; extraction = "none" }
    audio (some d) = record { size = none; duration_sec = some d; extraction = "stdlib_wave" }

abbrev pub metadata : Upload → String → Fields
metadata r extraction = field "extraction" (text extraction) (client r.extra_metadata)
  where
    consent : Fields
    consent =
        if str_eq r.kind "voice_source" then field "consent_confirmed" (boolean true) end else end

    client : Fields → Fields
    client end = consent
    client (field k v fs) = field "client" (obj (field k v fs)) consent

-- The primary key and the unique index on project, kind and hash.
abbrev pub clashes : PlanningMediaAsset → PlanningMediaAsset → Bool
clashes a b =
    a.id == b.id
    || (a.project_id == b.project_id && (str_eq a.kind b.kind && str_eq a.sha256 b.sha256))

unfoldable pub insert_asset : PlanningMediaAsset → Tables → Tables
insert_asset a t = record t { assets = a ∷ t.assets }

abbrev pub flush : Moment → PlanningMediaAsset → Call (Unit {0})
flush m a = do
  taken ← gets (λ t. any (clashes a) t.assets)
  require (not taken) Errors.failure
  change (insert_asset a)

-- Whatever is raised while the rows are written, the bytes are removed if the disk allows it, the
-- session is rolled back, and it is raised on.
module _ {ℓ} {A : Type ℓ} (m : Moment) where
  abbrev pub settled : Text → Result AssetError A × World → Result AssetError A × World
  settled path (ok a, w) = (ok a, w)
  settled path (err e, w) = ((try_unlink m path >> undo) >> raise e) w

  abbrev pub or_cleanup : Text → Call A → Call A
  or_cleanup path block w = settled path (block w)

abbrev pub extracted_or : Bytes.Result Extracted → Result AssetError Extracted
extracted_or (Bytes.ok x) = ok x
extracted_or (Bytes.err e) = err Errors.failure

abbrev pub new_asset :
    Host → Moment → Upload → Option String → Text → Extracted → PlanningMediaAsset
new_asset h m r mime_type uri x = record {
  id = m.new_id;
  project_id = r.project_id;
  kind = r.kind;
  source_type = r.source_type;
  managed_uri = uri;
  sha256 = h.sha256 r.content;
  mime_type = mime_type;
  width = width_of x.size;
  height = height_of x.size;
  duration_sec = x.duration_sec;
  approval_state = r.approval_state;
  metadata_json = metadata r x.extraction;
  original_filename = h.sanitize r.original_filename;
  size_bytes = length r.content;
  archived_at = none;
}

-- The body of the `try` of an upload.
unfoldable pub add_asset :
    Host → Moment → Upload → String → Option String → Text → Call (PlanningMediaAsset × Bool)
add_asset h m r category mime_type uri = do
  x ← lift (extracted_or (extract_metadata h category r.content mime_type))
  let a = new_asset h m r mime_type uri x
  flush m a
  change (audit a.id "planning_media_asset_uploaded")
  require (not m.fails) Errors.failure
  save
  pure (a, true)

abbrev pub extension_of : Host → Upload → String
extension_of h r = h.extension_for (h.sanitize r.original_filename) r.content_type

abbrev pub mime_of : Host → Upload → Option String
mime_of h r = normalize_mime h.guess_type (h.media_type r.content_type) (extension_of h r)

-- The URI of the file that an upload writes.
abbrev pub new_uri : Host → Moment → Upload → Text
new_uri h m r =
    build_managed_uri (h.uuid_text r.project_id) (codes r.kind)
      (m.new_name ++ codes (extension_of h r))

unfoldable pub store_upload :
    Host → Moment → Upload → String → String → Option String → Call (PlanningMediaAsset × Bool)
store_upload h m r extension category mime_type =
    if not (h.inside (h.uuid_text r.project_id) (codes r.kind) (m.new_name ++ codes extension))
    then raise Errors.escapes_root
    else (write_bytes m (new_uri h m r)
        >> or_cleanup m (new_uri h m r) (add_asset h m r category mime_type (new_uri h m r)))

abbrev pub consents : Upload → Bool
consents r = if str_eq r.kind "voice_source" then confirmed r.consent_confirmed else true
  where
    confirmed : Option Bool → Bool
    confirmed none = false
    confirmed (some b) = b

-- A duplicate is kept, anything else stored.
abbrev pub answer :
    Host
    → Moment
    → Upload
    → String
    → String
    → Option String
    → Option PlanningMediaAsset
    → Call (PlanningMediaAsset × Bool)
answer h m r extension category mime_type (some existing) = do
  kept ← reuse m existing
  pure (kept, false)
answer h m r extension category mime_type none = store_upload h m r extension category mime_type

-- The asset, and whether it is a new one.
unfoldable pub upload_asset : Host → Moment → Upload → Call (PlanningMediaAsset × Bool)
upload_asset h m r = do
  project_or_error r.project_id
  require (consents r) Errors.consent_missing
  policy ←
      lift (validate_kind_and_payload r.kind (length r.content) (mime_of h r) (extension_of h r))
  existing ← gets (λ t. find_duplicate t r.project_id r.kind (h.sha256 r.content))
  answer h m r (extension_of h r) policy.category (mime_of h r) existing

-- `max_read_bytes or KIND_POLICY[kind]["max_bytes"]`
abbrev pub read_limit : Option ℕ → KindPolicy → ℕ
read_limit none policy = policy.max_bytes
read_limit (some zero) policy = policy.max_bytes
read_limit (some (suc n)) policy = suc n

-- One byte more than the limit is read, from a file that holds `content`.
abbrev pub read_upload : Host → Moment → Upload → ℕ → Call (PlanningMediaAsset × Bool)
read_upload h m r limit =
    if ltb limit (length (take (limit + 1) r.content))
    then raise (Errors.upload_too_large limit)
    else upload_asset h m
        (record r { content = take (limit + 1) r.content; approval_state = "draft" })

abbrev pub read_of_kind :
    Host → Moment → Upload → Option ℕ → Option KindPolicy → Call (PlanningMediaAsset × Bool)
read_of_kind h m r max_read_bytes none = raise (Errors.unsupported_kind r.kind)
read_of_kind h m r max_read_bytes (some policy) =
    read_upload h m r (read_limit max_read_bytes policy)

unfoldable pub upload_asset_from_fileobj :
    Host → Moment → Upload → Option ℕ → Call (PlanningMediaAsset × Bool)
upload_asset_from_fileobj h m r max_read_bytes =
    read_of_kind h m r max_read_bytes (kind_policy r.kind)
