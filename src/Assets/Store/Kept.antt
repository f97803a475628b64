-- ===== src/Assets/Store/Kept.antt =====
-- Uploads, archiving, deletions and links of backend/app/services/reference_assets.py keep the
-- table of assets consistent.
use cine_forge.Prelude.{
  ◌+◌, ltb, take, ℕ, ◌≡◌, refl, String, str_eq, Bool, true, false, not, Option, none, some, List,
  [], ◌∷◌, ◌==◌, find?, any, is_some, length,
}
use cine_forge.Prelude.Session.{Result, ok, err}
use cine_forge.Assets.Errors
use cine_forge.Assets.Errors.{AssetError}
use cine_forge.Assets.Policy.{validate_kind_and_payload}
use cine_forge.Assets.Rows.{
  PlanningMediaAsset, CharacterReferenceAsset, Character, find_duplicate, delete_row,
  story_ids_referencing_asset,
}
use cine_forge.Assets.Uri.{Text}
use cine_forge.Assets.World.{Call, World, found_or, change, require, go_on}
use cine_forge.Assets.Store.{
  Host, Moment, project_or_error, asset_or_error, live_asset_or_error, resolve_path,
}
use cine_forge.Assets.Policy.{KindPolicy, kind_policy}
use cine_forge.Assets.Store.Uploads.{
  upload_asset_from_fileobj, read_of_kind, read_limit, Upload, reuse, unarchived, clashes,
  insert_asset, flush, settled, or_cleanup, add_asset, store_upload, upload_asset, new_asset,
  answer, extension_of, mime_of, consents,
}
use cine_forge.Assets.Store.Approvals.{
  archive_asset, archived_now, delete_asset, remove_asset, deletable, unlink_if,
}
use cine_forge.Assets.Store.Links.{
  new_link, write_link, order_is_taken, link_found, remove_link, link_character_reference,
  unlink_character_reference, add_link, delete_link, story_of,
}
use cine_forge.Assets.Store.Consistency.{ArchivedOk, select-Distinct, select-All}
use cine_forge.Assets.Store.Keeps.{
  Keeps-commit_rows, Keeps-write_bytes, Keeps-try_unlink, Keeps-undo, IsGood, Keeps, Keeps-audit,
  Keeps-bind, Keeps-change, Keeps-drafts, Keeps-files, Keeps-gets, Keeps-if, Keeps-lift, Keeps-pure,
  Keeps-raise, Keeps-record_change, Keeps-require, Keeps-same, Keeps-save, Keeps-then,
}

pub Keeps-reuse : (m : Moment) (asset : PlanningMediaAsset) → Keeps (reuse m asset)
unfolding reuse
Keeps-reuse m asset =
    Keeps-if (is_some asset.archived_at)
      (Keeps-record_change m asset unarchived _ (λ a b. (refl, refl)) (λ a. refl))
      (Keeps-then (Keeps-audit asset.id _) (Keeps-then (Keeps-commit_rows m) (Keeps-pure asset)))

module _ {ℓ} {A : Type ℓ} (m : Moment) where
  pub after_cleanup :
      (path : Text) (r : Result AssetError A × World) → IsGood r.1 → IsGood (settled m path r).1
  after_cleanup path (ok a, w) good = good
  after_cleanup path (err e, w) good =
      (Keeps-then (Keeps-then (Keeps-try_unlink m path) Keeps-undo) (Keeps-raise {A = A} e)).kept w
        good

  pub Keeps-cleanup : (path : Text) {block : Call A} → Keeps block → Keeps (or_cleanup m path block)
  Keeps-cleanup path {block} k = record {
    kept = λ w good. after_cleanup path (block w) (k.kept w good);
  }

pub Keeps-flush : (m : Moment) (a : PlanningMediaAsset) → ArchivedOk a → Keeps (flush m a)
unfolding insert_asset
Keeps-flush m a ok_a = record {
  kept = λ w good. after w (any (clashes a) w.session.db.assets) refl good;
}
  where
    after :
        (w : World) (b : Bool)
        → any (clashes a) w.session.db.assets ≡ b
        → IsGood w
        → IsGood (go_on ((require (not b) Errors.failure) w) (λ _. change (insert_asset a))).1
    after w true e good = good
    after w false e good = (((e, good.0.0), (ok_a, good.0.1)), good.1)

pub Keeps-add_asset :
    (h : Host) (m : Moment) (r : Upload) (category : String) (mime_type : Option String)
    (uri : Text)
    → Keeps (add_asset h m r category mime_type uri)
unfolding add_asset
Keeps-add_asset h m r category mime_type uri = Keeps-bind (Keeps-lift _) λ x.
    Keeps-then (Keeps-flush m (new_asset h m r mime_type uri x) refl) (
      Keeps-then (Keeps-audit _ _)
        (Keeps-then (Keeps-require _ _) (Keeps-then Keeps-save (Keeps-pure _))))

pub Keeps-store_upload :
    (h : Host) (m : Moment) (r : Upload) (extension category : String) (mime_type : Option String)
    → Keeps (store_upload h m r extension category mime_type)
unfolding store_upload
Keeps-store_upload h m r extension category mime_type = Keeps-if _ (Keeps-raise _) (
    Keeps-then (Keeps-write_bytes m _)
      (Keeps-cleanup m _ (Keeps-add_asset h m r category mime_type _)))

pub Keeps-project_or_error : (i : ℕ) → Keeps (project_or_error i)
Keeps-project_or_error i =
    Keeps-bind (Keeps-gets _) λ found. Keeps-lift (found_or Errors.project_not_found found)

pub Keeps-asset_or_error : (i : ℕ) → Keeps (asset_or_error i)
Keeps-asset_or_error i =
    Keeps-bind (Keeps-gets _) λ found. Keeps-lift (found_or Errors.asset_not_found found)

pub Keeps-live_asset_or_error : (i : ℕ) → Keeps (live_asset_or_error i)
Keeps-live_asset_or_error i =
    Keeps-bind (Keeps-asset_or_error i) λ asset. Keeps-then (Keeps-require _ _) (Keeps-pure asset)

pub Keeps-answer :
    (h : Host) (m : Moment) (r : Upload) (extension category : String) (mime_type : Option String)
    (existing : Option PlanningMediaAsset)
    → Keeps (answer h m r extension category mime_type existing)
Keeps-answer h m r extension category mime_type (some a) =
    Keeps-bind (Keeps-reuse m a) λ kept. Keeps-pure (kept, false)
Keeps-answer h m r extension category mime_type none =
    Keeps-store_upload h m r extension category mime_type

pub Keeps-upload_asset : (h : Host) (m : Moment) (r : Upload) → Keeps (upload_asset h m r)
unfolding upload_asset
Keeps-upload_asset h m r = Keeps-then (Keeps-project_or_error r.project_id) (
    Keeps-then (Keeps-require (consents r) Errors.consent_missing) (
      Keeps-bind
        (Keeps-lift
          (validate_kind_and_payload r.kind (length r.content) (mime_of h r) (extension_of h r)))
        λ policy.
          Keeps-bind (Keeps-gets (λ t. find_duplicate t r.project_id r.kind (h.sha256 r.content)))
            λ existing.
              Keeps-answer h m r (extension_of h r) policy.category (mime_of h r) existing))

Keeps-read_of_kind :
    (h : Host) (m : Moment) (r : Upload) (max_read_bytes : Option ℕ) (found : Option KindPolicy)
    → Keeps (read_of_kind h m r max_read_bytes found)
Keeps-read_of_kind h m r max_read_bytes none = Keeps-raise (Errors.unsupported_kind r.kind)
Keeps-read_of_kind h m r max_read_bytes (some policy) =
    let limit = read_limit max_read_bytes policy in
    Keeps-if (ltb limit (length (take (limit + 1) r.content)))
      (Keeps-raise (Errors.upload_too_large limit))
      (Keeps-upload_asset h m
        (record r { content = take (limit + 1) r.content; approval_state = "draft" }))

pub Keeps-upload_asset_from_fileobj :
    (h : Host) (m : Moment) (r : Upload) (max_read_bytes : Option ℕ)
    → Keeps (upload_asset_from_fileobj h m r max_read_bytes)
unfolding upload_asset_from_fileobj
Keeps-upload_asset_from_fileobj h m r max_read_bytes =
    Keeps-read_of_kind h m r max_read_bytes (kind_policy r.kind)

pub Keeps-archive_asset : (m : Moment) (i : ℕ) → Keeps (archive_asset m i)
unfolding archive_asset
Keeps-archive_asset m i = Keeps-bind (Keeps-asset_or_error i) λ asset.
    Keeps-if _ (Keeps-pure asset)
      (Keeps-record_change m asset (archived_now m.now) _ (λ a b. (refl, refl)) (λ a. refl))

pub Keeps-delete_row : (i : ℕ) → Keeps (change (delete_row i))
unfolding delete_row
Keeps-delete_row i =
    Keeps-change (delete_row i)
      λ t ok_t. (select-Distinct _ t.assets ok_t.0, select-All ArchivedOk _ t.assets ok_t.1)

pub Keeps-unlink_if : (r : Result AssetError Text) (uri : Text) → Keeps (unlink_if r uri)
Keeps-unlink_if (ok name) uri = (Keeps-files uri).1
Keeps-unlink_if (err e) uri = Keeps-pure tt

pub Keeps-remove_asset :
    (h : Host) (m : Moment) (asset : PlanningMediaAsset) → Keeps (remove_asset h m asset)
unfolding remove_asset
Keeps-remove_asset h m asset =
    Keeps-bind (Keeps-gets (λ t. story_ids_referencing_asset t asset.id)) λ affected.
      Keeps-then (Keeps-drafts m.now affected) (
        Keeps-then (Keeps-delete_row asset.id) (
          Keeps-then (Keeps-audit asset.id "planning_media_asset_deleted")
            (Keeps-then Keeps-save (Keeps-unlink_if (resolve_path h asset) asset.managed_uri))))

pub Keeps-delete_asset :
    (h : Host) (m : Moment) (i : ℕ) (force : Bool) → Keeps (delete_asset h m i force)
unfolding delete_asset
Keeps-delete_asset h m i force = Keeps-bind (Keeps-asset_or_error i) λ asset.
    Keeps-then (Keeps-require (deletable force asset) Errors.archive_first)
      (Keeps-remove_asset h m asset)

pub Keeps-write_link : (m : Moment) (l : CharacterReferenceAsset) (i : ℕ) → Keeps (write_link m l i)
unfolding write_link add_link
Keeps-write_link m l i = Keeps-then (Keeps-same (add_link l) λ t. refl) (
    Keeps-then (Keeps-drafts m.now (i ∷ [])) (
      Keeps-then (Keeps-audit l.asset_id "character_reference_linked")
        (Keeps-then Keeps-save (Keeps-pure l))))

pub Keeps-link_found :
    (m : Moment) (l : CharacterReferenceAsset) (c : Character) (asset : PlanningMediaAsset)
    → Keeps (link_found m l c asset)
unfolding link_found
Keeps-link_found m l c asset =
    Keeps-then
      (Keeps-require (str_eq asset.kind "character_reference") Errors.not_character_reference)
      (Keeps-bind (Keeps-gets (λ t. find? (λ s. s.id == c.story_id) t.stories)) λ story_row.
        Keeps-bind (Keeps-lift (found_or Errors.other_project story_row)) λ story.
          Keeps-then (Keeps-require (story.project_id == asset.project_id) Errors.other_project) (
            Keeps-bind (Keeps-gets (order_is_taken l.character_id l.order_index)) λ taken.
              Keeps-then (Keeps-require (not taken) (Errors.order_taken l.order_index))
                (Keeps-write_link m l story.id)))

pub Keeps-link :
    (m : Moment) (c a : ℕ) (role : String) (approved : Bool) (order : ℕ)
    → Keeps (link_character_reference m c a role approved order)
unfolding link_character_reference
Keeps-link m c a role approved order =
    Keeps-bind (Keeps-gets (λ t. find? (λ x. x.id == c) t.characters)) λ character_row.
      Keeps-bind (Keeps-lift (found_or Errors.character_not_found character_row)) λ character.
        Keeps-bind (Keeps-live_asset_or_error a)
          λ asset. Keeps-link_found m (new_link m c a role approved order) character asset

pub Keeps-remove_link :
    (m : Moment) (l : CharacterReferenceAsset) (ids : List ℕ) → Keeps (remove_link m l ids)
unfolding remove_link delete_link
Keeps-remove_link m l ids = Keeps-then (Keeps-same (delete_link l.id) λ t. refl) (
    Keeps-then (Keeps-drafts m.now ids)
      (Keeps-then (Keeps-audit l.asset_id "character_reference_unlinked") Keeps-save))

pub Keeps-unlink : (m : Moment) (i : ℕ) → Keeps (unlink_character_reference m i)
unfolding unlink_character_reference
Keeps-unlink m i = Keeps-bind (Keeps-gets (λ t. find? (λ l. l.id == i) t.links)) λ link_row.
    Keeps-bind (Keeps-lift (found_or Errors.link_not_found link_row)) λ link.
      Keeps-bind (Keeps-gets (λ t. find? (λ x. x.id == link.character_id) t.characters))
        λ character. Keeps-remove_link m link (story_of character)
