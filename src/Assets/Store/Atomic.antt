-- ===== src/Assets/Store/Atomic.antt =====
-- An upload of backend/app/services/reference_assets.py that raises leaves nothing behind, if the disk
-- does not fail.
use cine_forge.Prelude.{◌≡◌, ◌⊎◌, true, ◌∷◌}
use cine_forge.Prelude.Session.{Session, err}
use cine_forge.Assets.Errors
use cine_forge.Assets.Errors.{AssetError}
use cine_forge.Assets.Uri.{Text}
use cine_forge.Assets.World.{Call, World}
use cine_forge.Assets.Store.{Moment}

-- What a call that raised has left: the session, and the files with at most one more, which the disk
-- has kept because it failed.
abbrev pub Undone : Moment → Text → World → World → Type 0
Undone o path w w' =
    (w'.session ≡ w.session)
    × ((w'.files ≡ w.files)
        ⊎ ((w'.files ≡ path ∷ w.files)
            × (((o.write_fails ≡ true) × (o.leaves_part ≡ true)) ⊎ (o.unlink_fails ≡ true))))

module _ (o : Moment) (path : Text) where
  record Atomic {ℓ} {A : Type ℓ} (m : Call A) (w : World) : Type ℓ where
    untouched : (e : AssetError) → (m w).0 ≡ err e → Undone o path w (m w).1

-- Steps that leave the files and what other sessions see.
record Private {ℓ} {A : Type ℓ} (m : Call A) : Type ℓ where
  same_files : (w : World) → (m w).1.files ≡ w.files
  same_durable : (w : World) → (m w).1.session.durable ≡ w.session.durable

-- The same for a call that raises.
record Undoable {ℓ} {A : Type ℓ} (m : Call A) : Type ℓ where
  files_kept : (w : World) (e : AssetError) → (m w).0 ≡ err e → (m w).1.files ≡ w.files
  durable_kept :
      (w : World) (e : AssetError) → (m w).0 ≡ err e → (m w).1.session.durable ≡ w.session.durable
