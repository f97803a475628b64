-- ===== src/Assets/Store/Keeps.antt =====
-- A table of assets that stays consistent in the session and in what other sessions see, through
-- the steps of the calls of backend/app/services/reference_assets.py.
use cine_forge.Prelude.{
  ℕ, ◌≡◌, refl, sym, subst, String, Bool, true, false, List, ◌==◌, if◌then◌else◌, map, All,
  Bool-cases, inl, inr,
}
use cine_forge.Prelude.Session.{Result, ok, err}
use cine_forge.Assets.Errors.{AssetError}
use cine_forge.Assets.Rows.{
  PlanningMediaAsset, Tables, set_if, mark_stories_draft, audit, update_asset,
}
use cine_forge.Assets.Uri.{Text}
use cine_forge.Assets.World.{
  Call, World, pure, raise, lift, gets, ◌>>=◌, ◌>>◌, change, save, undo, require, write_file,
  unlink_file, go_on,
}
use cine_forge.Assets.Store.{Moment, record_change, commit_rows, write_bytes, try_unlink}
use cine_forge.Assets.Store.Consistency.{
  Distinct, ArchivedOk, IsConsistent, KeepsKeys, set_if-KeepsKeys, map-Distinct, map-ArchivedOk,
}

abbrev pub IsGood : World → Type 0
IsGood w = IsConsistent w.session.db × IsConsistent w.session.durable

pub record Keeps {ℓ} {A : Type ℓ} (m : Call A) : Type ℓ where
  pub kept : (w : World) → IsGood w → IsGood (m w).1

module _ {ℓ κ} {A : Type ℓ} {B : Type κ} where
  Keeps-go_on :
      (r : Result AssetError A × World) (f : A → Call B)
      → IsGood r.1
      → ((a : A) → Keeps (f a))
      → IsGood (go_on r f).1
  Keeps-go_on (ok a, w) f good h = (h a).kept w good
  Keeps-go_on (err e, w) f good h = good

  pub Keeps-bind :
      {m : Call A} {f : A → Call B} → Keeps m → ((a : A) → Keeps (f a)) → Keeps (m >>= f)
  Keeps-bind {m} {f} k h = record { kept = λ w good. Keeps-go_on (m w) f (k.kept w good) h }

  pub Keeps-then : {m : Call A} {k : Call B} → Keeps m → Keeps k → Keeps (m >> k)
  Keeps-then h h' = Keeps-bind h λ _. h'

module _ {ℓ} {A : Type ℓ} where
  pub Keeps-if : (b : Bool) {m k : Call A} → Keeps m → Keeps k → Keeps (if b then m else k)
  Keeps-if true h h' = h
  Keeps-if false h h' = h'

  pub Keeps-pure : (a : A) → Keeps (pure a)
  Keeps-pure a = record { kept = λ w good. good }

  pub Keeps-raise : (e : AssetError) → Keeps (raise {A = A} e)
  Keeps-raise e = record { kept = λ w good. good }

  pub Keeps-lift : (r : Result AssetError A) → Keeps (lift r)
  Keeps-lift r = record { kept = λ w good. good }

  pub Keeps-gets : (f : Tables → A) → Keeps (gets f)
  Keeps-gets f = record { kept = λ w good. good }

pub Keeps-change :
    (f : Tables → Tables) → ((t : Tables) → IsConsistent t → IsConsistent (f t)) → Keeps (change f)
Keeps-change f h = record { kept = λ w good. (h w.session.db good.0, good.1) }

pub Keeps-save : Keeps save
Keeps-save = record { kept = λ w good. (good.0, good.0) }

pub Keeps-undo : Keeps undo
Keeps-undo = record { kept = λ w good. (good.1, good.1) }

pub Keeps-files : (path : Text) → Keeps (write_file path) × Keeps (unlink_file path)
Keeps-files path = (record { kept = λ w good. good }, record { kept = λ w good. good })

pub Keeps-commit_rows : (m : Moment) → Keeps (commit_rows m)
unfolding commit_rows
Keeps-commit_rows m = Keeps-if m.fails (Keeps-then Keeps-undo (Keeps-raise _)) Keeps-save

pub Keeps-write_bytes : (m : Moment) (path : Text) → Keeps (write_bytes m path)
unfolding write_bytes
Keeps-write_bytes m path =
    Keeps-if m.write_fails
      (Keeps-then (Keeps-if m.leaves_part (Keeps-files path).0 (Keeps-pure tt)) (Keeps-raise _))
      (Keeps-files path).0

pub Keeps-try_unlink : (m : Moment) (path : Text) → Keeps (try_unlink m path)
unfolding try_unlink
Keeps-try_unlink m path = Keeps-if m.unlink_fails (Keeps-pure tt) (Keeps-files path).1

pub Keeps-require : (b : Bool) (e : AssetError) → Keeps (require b e)
Keeps-require b e = Keeps-if b (Keeps-pure tt) (Keeps-raise e)

pub Keeps-same : (f : Tables → Tables) → ((t : Tables) → (f t).assets ≡ t.assets) → Keeps (change f)
Keeps-same f h = Keeps-change f λ t ok_t.
    subst (λ (rows : List PlanningMediaAsset). Distinct rows × All ArchivedOk rows) (sym (h t)) ok_t

pub Keeps-audit : (i : ℕ) (action : String) → Keeps (change (audit i action))
unfolding audit
Keeps-audit i action = Keeps-same (audit i action) λ t. refl

pub Keeps-drafts : (now : ℕ) (ids : List ℕ) → Keeps (change (mark_stories_draft now ids))
unfolding mark_stories_draft
Keeps-drafts now ids = Keeps-same (mark_stories_draft now ids) λ t. refl

-- A recorded change, where the rows after it are consistent with their approval states.
pub record_change-IsGood :
    (m : Moment) (asset : PlanningMediaAsset) (f : PlanningMediaAsset → PlanningMediaAsset)
    (action : String) (w : World)
    → KeepsKeys f
    → All ArchivedOk (map (set_if asset.id f) w.session.db.assets)
    → IsGood w
    → IsGood (record_change m asset f action w).1
unfolding record_change update_asset
record_change-IsGood m asset f action w keys all good =
    (Keeps-then (Keeps-drafts m.now _) (
        Keeps-then (Keeps-audit asset.id action)
          (Keeps-then (Keeps-commit_rows m) (Keeps-pure (f asset))))).kept
      (change (update_asset asset.id f) w).1
      (
        (map-Distinct (set_if asset.id f) (set_if-KeepsKeys f keys asset.id) _ good.0.0, all),
        good.1,
      )

set_if-ArchivedOk :
    (f : PlanningMediaAsset → PlanningMediaAsset) (i : ℕ)
    → ((a : PlanningMediaAsset) → ArchivedOk (f a))
    → (a : PlanningMediaAsset) → ArchivedOk a
    → ArchivedOk (set_if i f a)
set_if-ArchivedOk f i h a ok_a = elim (Bool-cases (a.id == i)) [
  | inl e ↦ rw e (h a)
  | inr e ↦ rw e ok_a
]

-- One that is right for any row.
pub Keeps-record_change :
    (m : Moment) (asset : PlanningMediaAsset) (f : PlanningMediaAsset → PlanningMediaAsset)
    (action : String)
    → KeepsKeys f
    → ((a : PlanningMediaAsset) → ArchivedOk (f a))
    → Keeps (record_change m asset f action)
Keeps-record_change m asset f action keys h = record {
  kept = λ w good.
      record_change-IsGood m asset f action w keys
        (map-ArchivedOk (set_if asset.id f) (set_if-ArchivedOk f asset.id h) _ good.0.1) good;
}
