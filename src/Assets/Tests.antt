-- ===== src/Assets/Tests.antt =====
-- Instances of the theorems on managed assets.
use cine_forge.Prelude.{map, ℕ, ◌↔◌, List, false, ◌≡◌, true, refl, some, none, [], ◌∷◌, arith}
use cine_forge.Prelude.Session.{ok}
use cine_forge.Prelude.Json.{end}
use cine_forge.Assets.Bytes.{ok as read_ok}
use cine_forge.Assets.Rows.{PlanningMediaAsset, Tables, update_asset, mark_stories_draft, audit}
use cine_forge.Assets.Uri.{codes, resolve_managed_path}
use cine_forge.Assets.Uri.Exact.{IsManaged, resolve_managed_path-exact}
use cine_forge.Assets.World.{World}
use cine_forge.Assets.Store.{Host, Moment, record_change, commit_rows, write_bytes}
use cine_forge.Assets.Store.Uploads.{
  Upload, new_asset, upload_asset, reuse, store_upload, add_asset, insert_asset, extract_metadata,
}
use cine_forge.Assets.Store.Approvals.{archive_asset}
use cine_forge.Assets.Store.Links.{link_character_reference, link_found, write_link, add_link}
use cine_forge.Assets.Policy.{validate_kind_and_payload, normalize_mime}
use cine_forge.Assets.Errors
use cine_forge.Assets.Store.Drafts.{Drafted, archive_asset-drafts}
use cine_forge.Assets.Store.Keeps.{IsGood}
use cine_forge.Assets.Store.Calls.{Command, upload, link, archive, perform_all, perform_all-IsGood}
use cine_forge.Assets.Images.{png_dimensions, header_dimensions, jpeg_dimensions, image_dimensions}
use cine_forge.Assets.Images.RoundTrip.{
  png_file, header_dimensions-png_file, Segment, frame_bytes, jpeg_file, jpeg_dimensions-jpeg_file,
}
use cine_forge.Assets.Images.Total.{returns, image_dimensions-returns}

header_dimensions-png_file_example :
    header_dimensions (png_file 1920 1080 (8 ∷ 6 ∷ [])) (some "image/png")
    ≡ read_ok (some (1920, 1080))
header_dimensions-png_file_example =
    header_dimensions-png_file 1920 1080 (8 ∷ 6 ∷ []) (some "image/png") (omega arith) (omega arith)

-- An APP0 segment, then a baseline frame.
abbrev app0 : Segment
app0 = record { marker = 0xe0; payload = 0x4a ∷ 0x46 ∷ 0x49 ∷ 0x46 ∷ 0 ∷ [] }

jpeg_dimensions-jpeg_file_example :
    jpeg_dimensions (jpeg_file (app0 ∷ []) (frame_bytes 0xc0 17 8 640 480 (3 ∷ 1 ∷ [])))
    ≡ read_ok (some (640, 480))
jpeg_dimensions-jpeg_file_example =
    jpeg_dimensions-jpeg_file 0xc0 17 8 640 480 (3 ∷ 1 ∷ []) refl refl (omega arith) (omega arith)
      (omega arith) (omega arith) (omega arith) (app0 ∷ []) ((refl, refl, omega arith), tt)

-- A JPEG that ends inside a segment.
image_dimensions-returns_example :
    returns (
      image_dimensions
        (λ _. none)
        (0xff ∷ 0xd8 ∷ 0xff ∷ 0xe0 ∷ 0xff ∷ 0xff ∷ 0 ∷ 0 ∷ 0 ∷ 0 ∷ 0 ∷ 0 ∷ 0 ∷ [])
        (some "image/jpeg"))
    ≡ true
image_dimensions-returns_example =
    image_dimensions-returns (λ _. none)
      (0xff ∷ 0xd8 ∷ 0xff ∷ 0xe0 ∷ 0xff ∷ 0xff ∷ 0 ∷ 0 ∷ 0 ∷ 0 ∷ 0 ∷ 0 ∷ 0 ∷ []) (some "image/jpeg")

-- An asset of a project whose identity is written "7".
resolve_managed_path-exact_example :
    (resolve_managed_path
        (λ _ _ _. true)
        (codes "7")
        (codes "starting_image")
        (codes "cineforge-planning://7/starting_image/ab.png")
      ≡ ok (codes "ab.png"))
    ↔ IsManaged
        (λ _ _ _. true)
        (codes "7")
        (codes "starting_image")
        (codes "cineforge-planning://7/starting_image/ab.png")
        (codes "ab.png")
resolve_managed_path-exact_example =
    resolve_managed_path-exact (λ _ _ _. true) (codes "7") (codes "starting_image")
      (codes "cineforge-planning://7/starting_image/ab.png") (codes "ab.png") refl refl

abbrev host : Host
host = record {
  uuid_text = λ i. codes "7";
  inside = λ _ _ _. true;
  sanitize = λ name. name;
  extension_for = λ _ _. ".png";
  media_type = λ m. m;
  guess_type = λ _. some "image/png";
  sha256 = λ _. "5e88";
  open_image = λ _. none;
  wav_duration = λ _. none;
}

abbrev moment : ℕ → Moment
moment i = record {
  now = i;
  new_id = i;
  new_name = codes "ab";
  fails = false;
  write_fails = false;
  leaves_part = false;
  unlink_fails = false;
}

-- A project with a story whose character can be given a picture.
abbrev tables : Tables
tables = record {
  projects = 7 ∷ [];
  assets = [];
  stories = record { id = 1; project_id = 7; approval_state = "approved"; updated_at = 0 } ∷ [];
  chapters = [];
  scenes = [];
  shots = [];
  characters = record { id = 2; story_id = 1 } ∷ [];
  links = [];
  voice_profiles = [];
  voice_previews = [];
  audit_logs = [];
}

abbrev world : World
world = record { session = record { db = tables; durable = tables }; files = [] }

abbrev picture : Upload
picture = record {
  project_id = 7;
  kind = "character_reference";
  content = png_file 64 64 [];
  original_filename = some "a.png";
  content_type = some "image/png";
  source_type = "user_upload";
  approval_state = "draft";
  extra_metadata = end;
  consent_confirmed = none;
}

-- An upload, a link, an archiving and the same upload again.
abbrev commands : List (Moment × Command)
commands =
    (moment 10, upload picture)
    ∷ (moment 11, link 2 10 "primary" true 0)
    ∷ (moment 12, archive 10)
    ∷ (moment 13, upload picture)
    ∷ []

perform_all-IsGood_example : IsGood (perform_all host commands world)
perform_all-IsGood_example = perform_all-IsGood host commands world ((tt, tt), (tt, tt))

abbrev linked : World
linked =
    perform_all host ((moment 10, upload picture) ∷ (moment 11, link 2 10 "primary" true 0) ∷ [])
      world

abbrev portrait : PlanningMediaAsset
portrait =
    new_asset host (moment 10) picture (some "image/png")
      (codes "cineforge-planning://7/character_reference/ab.png")
      (record { size = some (64, 64); duration_sec = none; extraction = "image_headers_or_pillow" })

-- The character of story 1 is linked to the picture.
archive_asset-drafts_example :
    Drafted linked.session.db 10 (archive_asset (moment 12) 10 linked).1.session.durable.stories
unfolding upload_asset store_upload write_bytes add_asset insert_asset extract_metadata
    validate_kind_and_payload normalize_mime image_dimensions header_dimensions png_dimensions
    link_character_reference link_found write_link add_link audit mark_stories_draft
archive_asset-drafts_example =
    archive_asset-drafts (moment 12) 10 linked {asset = portrait} refl refl refl

-- The second upload gives the archived row back as a draft.
reused :
    map (λ a. a.approval_state) (perform_all host commands world).session.durable.assets
    ≡ "draft" ∷ []
unfolding upload_asset reuse record_change commit_rows write_bytes store_upload add_asset
    insert_asset extract_metadata validate_kind_and_payload normalize_mime image_dimensions
    header_dimensions png_dimensions link_character_reference link_found write_link add_link
    archive_asset update_asset mark_stories_draft audit
reused = refl

-- The database refuses the rows of the upload.
abbrev refusal : Moment
refusal = record {
  now = 20;
  new_id = 20;
  new_name = codes "cd";
  fails = true;
  write_fails = false;
  leaves_part = false;
  unlink_fails = false;
}
