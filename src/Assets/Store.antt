-- ===== src/Assets/Store.antt =====
-- The operations of backend/app/services/reference_assets.py: what they share.
pub mod Uploads
pub mod Approvals
pub mod Links
pub mod Consistency
pub mod Keeps
pub mod Kept
pub mod Approved
pub mod Atomic
pub mod Calls
pub mod Drafts
use cine_forge.Prelude.{
  ℕ, String, str_eq, Bool, true, false, ◌&&◌, ◌||◌, not, Option, none, some, List, [], ◌∷◌, ◌++◌,
  ◌==◌, if◌then◌else◌, any, select, length, is_some, find?,
}
use cine_forge.Prelude.Json.{Fields, end, field, Json, text, boolean, obj}
use cine_forge.Prelude.Session.{Result, ok, err}
use cine_forge.Assets.Bytes.{Bytes}
use cine_forge.Assets.Bytes
use cine_forge.Assets.Errors
use cine_forge.Assets.Errors.{AssetError}
use cine_forge.Assets.Images.{Dimensions, image_dimensions}
use cine_forge.Assets.Policy.{KindPolicy, one_of, normalize_mime, validate_kind_and_payload}
use cine_forge.Assets.Rows.{
  PlanningMediaAsset, CharacterReferenceAsset, Character, Story, Tables, get_asset_row,
  find_duplicate, story_ids_referencing_asset, mark_stories_draft, audit, update_asset, delete_row,
}
use cine_forge.Assets.Uri.{Text, codes, build_managed_uri, resolve_managed_path}
use cine_forge.Assets.World.{
  Call, World, pure, raise, lift, gets, found_or, ◌>>=◌, ◌>>◌, change, save, undo, require,
  write_file, unlink_file, exists_file, go_on,
}

-- What lies outside: the text of a UUID, which paths the file system keeps under the root, file
-- names and MIME types, hashing, Pillow, the wave module.
pub record Host : Type 0 where
  pub uuid_text : ℕ → Text
  pub inside : Text → Text → Text → Bool
  pub sanitize : Option String → Option String
  pub extension_for : Option String → Option String → String
  pub media_type : Option String → Option String
  pub guess_type : String → Option String
  pub sha256 : Bytes → String
  pub open_image : Bytes → Dimensions
  pub wav_duration : Bytes → Option ℕ

-- The calls whose answer a test does not know: the clock, new identities, the name of a new file
-- without its extension, whether the database refuses the rows of an upload or of a recorded change,
-- and whether the disk fails: while it writes a file, with or without a part of it left, or when it
-- removes one.
pub record Moment : Type 0 where
  pub now : ℕ
  pub new_id : ℕ
  pub new_name : Text
  pub fails : Bool
  pub write_fails : Bool
  pub leaves_part : Bool
  pub unlink_fails : Bool

abbrev pub project_or_error : ℕ → Call ℕ
project_or_error project_id = gets (λ t. find? (λ p. p == project_id) t.projects) >>= λ found.
    lift (found_or Errors.project_not_found found)

abbrev pub asset_or_error : ℕ → Call PlanningMediaAsset
asset_or_error asset_id =
    gets (λ t. get_asset_row t asset_id) >>= λ found. lift (found_or Errors.asset_not_found found)

-- With `include_archived=False`.
abbrev pub live_asset_or_error : ℕ → Call PlanningMediaAsset
live_asset_or_error asset_id = do
  asset ← asset_or_error asset_id
  require (not (is_some asset.archived_at)) Errors.asset_archived
  pure asset

abbrev pub resolve_path : Host → PlanningMediaAsset → Result AssetError Text
resolve_path h asset =
    resolve_managed_path h.inside (h.uuid_text asset.project_id) (codes asset.kind)
      asset.managed_uri

-- A commit; where it fails, the session rolls back what it has not committed.
unfoldable pub commit_rows : Moment → Call (Unit {0})
commit_rows m = if m.fails then (undo >> raise Errors.failure) else save

-- `write_bytes`
unfoldable pub write_bytes : Moment → Text → Call (Unit {0})
write_bytes m path =
    if m.write_fails
    then ((if m.leaves_part then write_file path else pure tt) >> raise Errors.failure)
    else write_file path

-- The removal of a file whose failure is passed over.
unfoldable pub try_unlink : Moment → Text → Call (Unit {0})
try_unlink m path = if m.unlink_fails then pure tt else unlink_file path

-- The end of three handlers: the asset's columns, a draft of each story that refers to it, an
-- audit row, and the commit.
unfoldable pub record_change :
    Moment
    → PlanningMediaAsset
    → (PlanningMediaAsset → PlanningMediaAsset)
    → String
    → Call PlanningMediaAsset
unfolding commit_rows
record_change m asset f action = do
  affected ← gets (λ t. story_ids_referencing_asset t asset.id)
  change (update_asset asset.id f)
  change (mark_stories_draft m.now affected)
  change (audit asset.id action)
  commit_rows m
  pure (f asset)
