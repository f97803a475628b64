-- ===== src/Assets/World.antt =====
-- The calls of backend/app/services/reference_assets.py on a database session and the files
-- under the managed root, which a rollback does not bring back.
use cine_forge.Prelude.{Bool, not, Option, none, some, List, ◌∷◌, any, select, if◌then◌else◌}
use cine_forge.Prelude.Session.{Session, Result, ok, err, modify, commit, rollback}
use cine_forge.Assets.Errors.{AssetError}
use cine_forge.Assets.Bytes.{same_bytes}
use cine_forge.Assets.Rows.{Tables}
use cine_forge.Assets.Uri.{Text}

-- A file stands at the path that its managed URI names.
pub record World : Type 0 where
  pub session : Session Tables
  pub files : List Text

abbrev pub Call {ℓ} : Type ℓ → Type ℓ
Call A = World → Result AssetError A × World

module _ {ℓ} {A : Type ℓ} where
  abbrev pub pure : A → Call A
  pure a w = (ok a, w)

  abbrev pub raise : AssetError → Call A
  raise e w = (err e, w)

  abbrev pub lift : Result AssetError A → Call A
  lift r w = (r, w)

  -- A query.
  abbrev pub gets : (Tables → A) → Call A
  gets f w = (ok (f w.session.db), w)

  abbrev pub found_or : AssetError → Option A → Result AssetError A
  found_or e none = err e
  found_or e (some a) = ok a

module _ {ℓ κ} {A : Type ℓ} {B : Type κ} where
  abbrev pub go_on : Result AssetError A × World → (A → Call B) → Result AssetError B × World
  go_on (ok a, w) f = f a w
  go_on (err e, w) f = (err e, w)

infixl 5 ◌>>=◌ ◌>>◌
abbrev pub ◌>>=◌ {ℓ κ} : {A : Type ℓ} {B : Type κ} → Call A → (A → Call B) → Call B
◌>>=◌ m f w = go_on (m w) f

abbrev pub ◌>>◌ {ℓ κ} : {A : Type ℓ} {B : Type κ} → Call A → Call B → Call B
m >> k = m >>= λ _. k

abbrev pub change : (Tables → Tables) → Call (Unit {0})
change f w = (ok tt, record w { session = (modify {E = AssetError} f w.session).1 })

abbrev pub save : Call (Unit {0})
save w = (ok tt, record w { session = (commit {E = AssetError} w.session).1 })

abbrev pub undo : Call (Unit {0})
undo w = (ok tt, record w { session = (rollback {E = AssetError} w.session).1 })

abbrev pub require : Bool → AssetError → Call (Unit {0})
require b e = if b then pure tt else raise e

abbrev pub write_file : Text → Call (Unit {0})
write_file path w = (ok tt, record w { files = path ∷ w.files })

abbrev pub unlink_file : Text → Call (Unit {0})
unlink_file path w = (ok tt, record w { files = select (λ f. not (same_bytes f path)) w.files })

abbrev pub exists_file : Text → World → Bool
exists_file path w = any (λ f. same_bytes f path) w.files
