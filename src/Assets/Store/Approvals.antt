-- ===== src/Assets/Store/Approvals.antt =====
-- Approval, archiving and deletion in backend/app/services/reference_assets.py.
use cine_forge.Prelude.{
  ℕ, String, str_eq, Bool, ◌&&◌, ◌||◌, not, some, List, [], ◌∷◌, if◌then◌else◌, is_some,
}
use cine_forge.Prelude.Session.{Result, ok, err}
use cine_forge.Assets.Errors
use cine_forge.Assets.Errors.{AssetError}
use cine_forge.Assets.Policy.{one_of}
use cine_forge.Assets.Rows.{
  PlanningMediaAsset, story_ids_referencing_asset, mark_stories_draft, audit, delete_row,
}
use cine_forge.Assets.Uri.{Text}
use cine_forge.Assets.World.{
  Call, pure, lift, gets, ◌>>=◌, ◌>>◌, change, save, require, unlink_file, exists_file,
}
use cine_forge.Assets.Store.{
  live_asset_or_error, Host, Moment, asset_or_error, resolve_path, record_change,
}

abbrev pub active_approval_states : List String
active_approval_states = "draft" ∷ "in_review" ∷ "approved" ∷ "blocked" ∷ []

abbrev pub require_file : Text → Call (Unit {0})
require_file uri w = require (exists_file uri w) Errors.bytes_unavailable w

abbrev pub approved_as : String → PlanningMediaAsset → PlanningMediaAsset
approved_as target a = record a { approval_state = target }

abbrev pub approval : Moment → PlanningMediaAsset → String → Call PlanningMediaAsset
approval m asset target =
    record_change m asset (approved_as target) "planning_media_asset_approval_transitioned"

-- An approval needs the bytes.
unfoldable pub approve : Host → Moment → PlanningMediaAsset → String → Call PlanningMediaAsset
approve h m asset target =
    if str_eq target "approved"
    then (lift (resolve_path h asset)
        >> (require_file asset.managed_uri >> approval m asset target))
    else approval m asset target

-- The tests on the two states, and the change where there is one.
unfoldable pub review :
    Host → Moment → PlanningMediaAsset → String → String → Call PlanningMediaAsset
review h m asset target expected = do
  require (one_of active_approval_states target) (Errors.unsupported_state target)
  require (one_of active_approval_states expected) (Errors.unsupported_expected_state expected)
  require (str_eq asset.approval_state expected)
      (Errors.approval_changed expected asset.approval_state)
  if str_eq asset.approval_state target then pure asset else approve h m asset target

abbrev pub is_archived : PlanningMediaAsset → Bool
is_archived asset = is_some asset.archived_at || str_eq asset.approval_state "archived"

unfoldable pub transition_starting_image_approval :
    Host → Moment → ℕ → String → String → Call PlanningMediaAsset
transition_starting_image_approval h m asset_id target expected = do
  asset ← asset_or_error asset_id
  require (str_eq asset.kind "starting_image") Errors.not_starting_image
  require (not (is_archived asset)) Errors.archived_image
  review h m asset target expected

abbrev pub archived_now : ℕ → PlanningMediaAsset → PlanningMediaAsset
archived_now now a = record a { archived_at = some now; approval_state = "archived" }

unfoldable pub archive_asset : Moment → ℕ → Call PlanningMediaAsset
archive_asset m asset_id = do
  asset ← asset_or_error asset_id
  if is_some asset.archived_at
      then pure asset
      else record_change m asset (archived_now m.now) "planning_media_asset_archived"

-- The file goes only where its path resolves.
abbrev pub unlink_if : Result AssetError Text → Text → Call (Unit {0})
unlink_if (ok name) uri = unlink_file uri
unlink_if (err e) uri = pure tt

unfoldable pub remove_asset : Host → Moment → PlanningMediaAsset → Call (Unit {0})
remove_asset h m asset = do
  affected ← gets (λ t. story_ids_referencing_asset t asset.id)
  change (mark_stories_draft m.now affected)
  change (delete_row asset.id)
  change (audit asset.id "planning_media_asset_deleted")
  save
  unlink_if (resolve_path h asset) asset.managed_uri

-- An asset is archived first, or a draft that the caller forces.
abbrev pub deletable : Bool → PlanningMediaAsset → Bool
deletable force asset =
    is_some asset.archived_at || (force && one_of ("draft" ∷ "archived" ∷ []) asset.approval_state)

unfoldable pub delete_asset : Host → Moment → ℕ → Bool → Call (Unit {0})
delete_asset h m asset_id force = do
  asset ← asset_or_error asset_id
  require (deletable force asset) Errors.archive_first
  remove_asset h m asset

-- The asset whose bytes a client may read.
unfoldable pub open_asset_for_stream : Host → ℕ → Call PlanningMediaAsset
open_asset_for_stream h asset_id = do
  asset ← live_asset_or_error asset_id
  lift (resolve_path h asset)
  require_file asset.managed_uri
  pure asset
