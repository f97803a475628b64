-- ===== src/Assets/Store/Approved.antt =====
-- The approval of a starting image in backend/app/services/reference_assets.py keeps the table of
-- assets consistent, since it changes the one row that it has found not to be archived.
use cine_forge.Prelude.{
  ℕ, ◌≡◌, refl, ◌∙◌, String, str_eq, Bool, true, false, not, none, some, ◌==◌, if◌then◌else◌, find?,
  find?-sound, arith, Option-cases, inl, inr, ==_iff, ap,
}
use cine_forge.Prelude.Session.{Result, ok, err}
use cine_forge.Assets.Errors
use cine_forge.Assets.Errors.{AssetError}
use cine_forge.Assets.Policy.{one_of}
use cine_forge.Assets.Rows.{PlanningMediaAsset, get_asset_row}
use cine_forge.Assets.Uri.{Text}
use cine_forge.Assets.World.{Call, World, lift, ◌>>◌, require, exists_file}
use cine_forge.Assets.Store.{Host, Moment, resolve_path}
use cine_forge.Assets.Store.Approvals.{
  transition_starting_image_approval, approved_as, approval, approve, review, is_archived,
  require_file, active_approval_states,
}
use cine_forge.Assets.Store.Consistency.{found-ArchivedOk}
use cine_forge.Assets.Store.Keeps.{IsGood, Keeps, record_change-IsGood}

-- The same at one world.
record KeptAt {ℓ} {A : Type ℓ} (m : Call A) (w : World) : Type ℓ where
  good_after : IsGood (m w).1

module _ {ℓ} {A : Type ℓ} (w : World) (good : IsGood w) where
  at-require :
      (b : Bool) (e : AssetError) {k : Call A}
      → (b ≡ true → KeptAt k w)
      → KeptAt (require b e >> k) w
  at-require true e h = record { good_after = (h refl).good_after }
  at-require false e h = record { good_after = good }

  at-lift :
      {B : Type 0} (r : Result AssetError B) {k : Call A} → KeptAt k w → KeptAt (lift r >> k) w
  at-lift (ok a) h = record { good_after = h.good_after }
  at-lift (err e) h = record { good_after = good }

  at-file : (uri : Text) {k : Call A} → KeptAt k w → KeptAt (require_file uri >> k) w
  at-file uri {k} h = record {
    good_after =
        (at-require (exists_file uri w) Errors.bytes_unavailable {k = k} λ _. h).good_after;
  }

  at-if : (b : Bool) {m k : Call A} → KeptAt m w → KeptAt k w → KeptAt (if b then m else k) w
  at-if true h h' = h
  at-if false h h' = h'

module _ (h : Host) (m : Moment) (asset : PlanningMediaAsset) (target : String) (w : World)
    (present : find? (λ b. b.id == asset.id) w.session.db.assets ≡ some asset)
    (live : asset.archived_at ≡ none) (good : IsGood w) where
  approved-KeptAt : KeptAt (approval m asset target) w
  approved-KeptAt = record {
    good_after =
        record_change-IsGood m asset (approved_as target) _ w (λ a b. (refl, refl))
          (found-ArchivedOk (approved_as target) asset.id w.session.db.assets {a = asset} present
            (rw live refl) good.0.0 good.0.1)
          good;
  }

  approve-KeptAt : KeptAt (approve h m asset target) w
  unfolding approve
  approve-KeptAt =
      at-if w good (str_eq target "approved")
        (at-lift w good (resolve_path h asset) (at-file w good asset.managed_uri approved-KeptAt))
        approved-KeptAt

  review-KeptAt : (expected : String) → KeptAt (review h m asset target expected) w
  unfolding review
  review-KeptAt expected =
      at-require w good (one_of active_approval_states target) (Errors.unsupported_state target)
        λ _.
          at-require w good (one_of active_approval_states expected)
            (Errors.unsupported_expected_state expected)
            λ _.
              at-require w good (str_eq asset.approval_state expected)
                (Errors.approval_changed expected asset.approval_state)
                λ _.
                  at-if w good (str_eq asset.approval_state target) (record { good_after = good })
                    approve-KeptAt

-- The row that a query finds has the identity it asks for.
found_id :
    (i : ℕ) (w : World) (asset : PlanningMediaAsset)
    → find? (λ b. b.id == i) w.session.db.assets ≡ some asset
    → asset.id ≡ i
found_id i w asset e =
    (==_iff asset.id i).0 (find?-sound (λ b. b.id == i) w.session.db.assets {a = asset} e)

is_live : (asset : PlanningMediaAsset) → not (is_archived asset) ≡ true → asset.archived_at ≡ none
is_live asset e = elim (Option-cases asset.archived_at) [
  | inl none_there ↦ none_there
  | inr (t, e') ↦ absurd (ground arith)
]

pub Keeps-transition :
    (h : Host) (m : Moment) (i : ℕ) (target expected : String)
    → Keeps (transition_starting_image_approval h m i target expected)
unfolding transition_starting_image_approval
Keeps-transition h m i target expected = record {
  kept = λ w good. elim (Option-cases (get_asset_row w.session.db i)) [
    | inl e ↦ rw e good
    | inr (asset, e) ↦
        let present =
          ap (λ n. find? (λ b. b.id == n) w.session.db.assets) (found_id i w asset e) ∙ e in
        rw e
          (at-require w good (str_eq asset.kind "starting_image") Errors.not_starting_image λ _.
            at-require w good (not (is_archived asset)) Errors.archived_image λ live.
              review-KeptAt h m asset target w present (is_live asset live) good
                expected).good_after
  ];
}
