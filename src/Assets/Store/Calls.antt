-- ===== src/Assets/Store/Calls.antt =====
-- Sequences of calls of backend/app/services/reference_assets.py.
use cine_forge.Prelude.{ℕ, Option, String, Bool, List, [], ◌∷◌}
use cine_forge.Assets.World.{World}
use cine_forge.Assets.Store.{Host, Moment}
use cine_forge.Assets.Store.Uploads.{Upload, upload_asset, upload_asset_from_fileobj}
use cine_forge.Assets.Store.Approvals.{
  transition_starting_image_approval, archive_asset, delete_asset,
}
use cine_forge.Assets.Store.Links.{link_character_reference, unlink_character_reference}
use cine_forge.Assets.Store.Keeps.{IsGood}
use cine_forge.Assets.Store.Kept.{
  Keeps-upload_asset, Keeps-upload_asset_from_fileobj, Keeps-archive_asset, Keeps-delete_asset,
  Keeps-link, Keeps-unlink,
}
use cine_forge.Assets.Store.Approved.{Keeps-transition}

pub data Command : Type 0 where
  upload : Upload → Command
  file_upload : Upload → Option ℕ → Command
  approval : ℕ → String → String → Command
  archive : ℕ → Command
  delete : ℕ → Bool → Command
  link : ℕ → ℕ → String → Bool → ℕ → Command
  unlink : ℕ → Command

-- The world after a call, whatever it returns or raises.
abbrev pub perform : Host → Moment → Command → World → World
perform h m (upload r) w = (upload_asset h m r w).1
perform h m (file_upload r limit) w = (upload_asset_from_fileobj h m r limit w).1
perform h m (approval i target expected) w =
    (transition_starting_image_approval h m i target expected w).1
perform h m (archive i) w = (archive_asset m i w).1
perform h m (delete i force) w = (delete_asset h m i force w).1
perform h m (link c a role approved order) w =
    (link_character_reference m c a role approved order w).1
perform h m (unlink i) w = (unlink_character_reference m i w).1

abbrev pub perform_all : Host → List (Moment × Command) → World → World
perform_all h [] w = w
perform_all h ((m, c) ∷ cs) w = perform_all h cs (perform h m c w)

perform-IsGood :
    (h : Host) (m : Moment) (c : Command) (w : World) → IsGood w → IsGood (perform h m c w)
perform-IsGood h m (upload r) = (Keeps-upload_asset h m r).kept
perform-IsGood h m (file_upload r limit) = (Keeps-upload_asset_from_fileobj h m r limit).kept
perform-IsGood h m (approval i target expected) = (Keeps-transition h m i target expected).kept
perform-IsGood h m (archive i) = (Keeps-archive_asset m i).kept
perform-IsGood h m (delete i force) = (Keeps-delete_asset h m i force).kept
perform-IsGood h m (link c a role approved order) = (Keeps-link m c a role approved order).kept
perform-IsGood h m (unlink i) = (Keeps-unlink m i).kept

-- From a consistent table of assets, in the session and in what other sessions see, no sequence of
-- calls, whether they return or raise, makes it inconsistent: no two rows share their identity
-- or project, kind and hash, and each row that is archived has the approval state `archived`.
pub perform_all-IsGood :
    (h : Host) (cs : List (Moment × Command)) (w : World) → IsGood w → IsGood (perform_all h cs w)
perform_all-IsGood h [] w good = good
perform_all-IsGood h ((m, c) ∷ cs) w good =
    perform_all-IsGood h cs (perform h m c w) (perform-IsGood h m c w good)
