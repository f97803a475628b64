-- ===== src/Assets/Store/Links.antt =====
-- Links between characters and assets in backend/app/services/reference_assets.py.
use cine_forge.Prelude.{
  ℕ, String, str_eq, Bool, ◌&&◌, not, Option, none, some, List, [], ◌∷◌, ◌==◌, any, select, find?,
}
use cine_forge.Assets.Errors
use cine_forge.Assets.Errors.{AssetError}
use cine_forge.Assets.Rows.{
  PlanningMediaAsset, CharacterReferenceAsset, Character, Tables, mark_stories_draft, audit,
}
use cine_forge.Assets.World.{Call, pure, lift, gets, found_or, ◌>>=◌, ◌>>◌, change, save, require}
use cine_forge.Assets.Store.{Moment, live_asset_or_error}

unfoldable pub add_link : CharacterReferenceAsset → Tables → Tables
add_link l t = record t { links = l ∷ t.links }

unfoldable pub delete_link : ℕ → Tables → Tables
delete_link link_id t = record t { links = select (λ l. not (l.id == link_id)) t.links }

abbrev pub new_link : Moment → ℕ → ℕ → String → Bool → ℕ → CharacterReferenceAsset
new_link m character_id asset_id reference_role approved order_index = record {
  id = m.new_id;
  character_id = character_id;
  asset_id = asset_id;
  reference_role = reference_role;
  approved = approved;
  order_index = order_index;
}

unfoldable pub write_link : Moment → CharacterReferenceAsset → ℕ → Call CharacterReferenceAsset
write_link m l story_id = do
  change (add_link l)
  change (mark_stories_draft m.now (story_id ∷ []))
  change (audit l.asset_id "character_reference_linked")
  save
  pure l

-- The unique constraint on character and order.
abbrev pub order_is_taken : ℕ → ℕ → Tables → Bool
order_is_taken character_id order_index t =
    any (λ l. l.character_id == character_id && l.order_index == order_index) t.links

unfoldable pub link_found :
    Moment → CharacterReferenceAsset → Character → PlanningMediaAsset → Call CharacterReferenceAsset
link_found m l character asset = do
  require (str_eq asset.kind "character_reference") Errors.not_character_reference
  story_row ← gets (λ t. find? (λ s. s.id == character.story_id) t.stories)
  story ← lift (found_or Errors.other_project story_row)
  require (story.project_id == asset.project_id) Errors.other_project
  taken ← gets (order_is_taken l.character_id l.order_index)
  require (not taken) (Errors.order_taken l.order_index)
  write_link m l story.id

unfoldable pub link_character_reference :
    Moment → ℕ → ℕ → String → Bool → ℕ → Call CharacterReferenceAsset
link_character_reference m character_id asset_id reference_role approved order_index = do
  character_row ← gets (λ t. find? (λ c. c.id == character_id) t.characters)
  character ← lift (found_or Errors.character_not_found character_row)
  asset ← live_asset_or_error asset_id
  link_found m (new_link m character_id asset_id reference_role approved order_index) character
      asset

-- The story of a character that is there.
abbrev pub story_of : Option Character → List ℕ
story_of none = []
story_of (some c) = c.story_id ∷ []

unfoldable pub remove_link : Moment → CharacterReferenceAsset → List ℕ → Call (Unit {0})
remove_link m link affected = do
  change (delete_link link.id)
  change (mark_stories_draft m.now affected)
  change (audit link.asset_id "character_reference_unlinked")
  save

unfoldable pub unlink_character_reference : Moment → ℕ → Call (Unit {0})
unlink_character_reference m link_id = do
  link_row ← gets (λ t. find? (λ l. l.id == link_id) t.links)
  link ← lift (found_or Errors.link_not_found link_row)
  character ← gets (λ t. find? (λ c. c.id == link.character_id) t.characters)
  remove_link m link (story_of character)
