-- ===== src/Assets/Rows.antt =====
-- The rows of backend/app/db/base.py that backend/app/services/reference_assets.py reads and
-- writes, and its queries. Of the rows of a plan only what leads from an asset to its stories is
-- kept, of an audit row its entity and action. Instants and identities are numbers; a duration
-- counts microseconds.
use cine_forge.Prelude.{
  ℕ, String, str_eq, Bool, false, ◌&&◌, ◌||◌, not, Option, none, some, List, ◌∷◌, ◌++◌, ◌==◌,
  if◌then◌else◌, find?, any, select, map,
}
use cine_forge.Prelude.Json.{Fields}
use cine_forge.Assets.Uri.{Text}

pub record PlanningMediaAsset : Type 0 where
  pub id : ℕ
  pub project_id : ℕ
  pub kind : String
  pub source_type : String
  pub managed_uri : Text
  pub sha256 : String
  pub mime_type : Option String
  pub width : Option ℕ
  pub height : Option ℕ
  pub duration_sec : Option ℕ
  pub approval_state : String
  pub metadata_json : Fields
  pub original_filename : Option String
  pub size_bytes : ℕ
  pub archived_at : Option ℕ

pub record Story : Type 0 where
  pub id : ℕ
  pub project_id : ℕ
  pub approval_state : String
  pub updated_at : ℕ

pub record Chapter : Type 0 where
  pub id : ℕ
  pub story_id : ℕ

pub record Scene : Type 0 where
  pub id : ℕ
  pub chapter_id : ℕ

pub record Shot : Type 0 where
  pub scene_id : ℕ
  pub starting_image_asset_id : Option ℕ

pub record Character : Type 0 where
  pub id : ℕ
  pub story_id : ℕ

pub record CharacterReferenceAsset : Type 0 where
  pub id : ℕ
  pub character_id : ℕ
  pub asset_id : ℕ
  pub reference_role : String
  pub approved : Bool
  pub order_index : ℕ

pub record VoiceProfile : Type 0 where
  pub id : ℕ
  pub story_id : ℕ
  pub source_asset_id : Option ℕ
  pub selected_preview_asset_id : Option ℕ

pub record VoicePreview : Type 0 where
  pub voice_profile_id : ℕ
  pub planning_media_asset_id : Option ℕ

pub record AuditLog : Type 0 where
  pub entity_id : ℕ
  pub action : String

pub record Tables : Type 0 where
  pub projects : List ℕ
  pub assets : List PlanningMediaAsset
  pub stories : List Story
  pub chapters : List Chapter
  pub scenes : List Scene
  pub shots : List Shot
  pub characters : List Character
  pub links : List CharacterReferenceAsset
  pub voice_profiles : List VoiceProfile
  pub voice_previews : List VoicePreview
  pub audit_logs : List AuditLog

-- `column == asset_id`, which no null passes.
abbrev pub refers : Option ℕ → ℕ → Bool
refers none asset_id = false
refers (some i) asset_id = i == asset_id

module _ (t : Tables) where
  abbrev pub get_asset_row : ℕ → Option PlanningMediaAsset
  get_asset_row asset_id = find? (λ a. a.id == asset_id) t.assets

  abbrev pub find_duplicate : ℕ → String → String → Option PlanningMediaAsset
  find_duplicate project_id kind digest =
      find? (λ a. a.project_id == project_id && (str_eq a.kind kind && str_eq a.sha256 digest))
        t.assets

  -- The four queries of `_story_ids_referencing_asset`.
  abbrev pub stories_of_shots : ℕ → List ℕ
  stories_of_shots asset_id =
      map (λ c. c.story_id)
        (select
          (λ c.
            any
              (λ s.
                s.chapter_id == c.id
                && any (λ x. x.scene_id == s.id && refers x.starting_image_asset_id asset_id)
                    t.shots)
              t.scenes)
          t.chapters)

  abbrev pub stories_of_characters : ℕ → List ℕ
  stories_of_characters asset_id =
      map (λ c. c.story_id)
        (select (λ c. any (λ l. l.character_id == c.id && l.asset_id == asset_id) t.links)
          t.characters)

  abbrev pub stories_of_voices : ℕ → List ℕ
  stories_of_voices asset_id =
      map (λ v. v.story_id)
        (select
          (λ v. refers v.source_asset_id asset_id || refers v.selected_preview_asset_id asset_id)
          t.voice_profiles)

  abbrev pub stories_of_previews : ℕ → List ℕ
  stories_of_previews asset_id =
      map (λ v. v.story_id)
        (select
          (λ v.
            any (λ p. p.voice_profile_id == v.id && refers p.planning_media_asset_id asset_id)
              t.voice_previews)
          t.voice_profiles)

  abbrev pub story_ids_referencing_asset : ℕ → List ℕ
  story_ids_referencing_asset asset_id =
      stories_of_shots asset_id
      ++ (stories_of_characters asset_id
          ++ (stories_of_voices asset_id ++ stories_of_previews asset_id))

abbrev pub drafted : ℕ → Story → Story
drafted now s = record s { approval_state = "draft"; updated_at = now }

abbrev pub draft_if : ℕ → List ℕ → Story → Story
draft_if now ids s = if any (λ i. i == s.id) ids then drafted now s else s

unfoldable pub mark_stories_draft : ℕ → List ℕ → Tables → Tables
mark_stories_draft now ids t = record t { stories = map (draft_if now ids) t.stories }

unfoldable pub audit : ℕ → String → Tables → Tables
audit entity_id action t = record t {
  audit_logs = record { entity_id = entity_id; action = action } ∷ t.audit_logs;
}

-- Assignments to the columns of one asset.
abbrev pub set_if :
    ℕ → (PlanningMediaAsset → PlanningMediaAsset) → PlanningMediaAsset → PlanningMediaAsset
set_if asset_id f a = if a.id == asset_id then f a else a

unfoldable pub update_asset : ℕ → (PlanningMediaAsset → PlanningMediaAsset) → Tables → Tables
update_asset asset_id f t = record t { assets = map (set_if asset_id f) t.assets }

-- A deleted asset takes its links with it; the columns that refer to it become null.
abbrev pub cleared : ℕ → Option ℕ → Option ℕ
cleared asset_id o = if refers o asset_id then none else o

abbrev pub forget_shot : ℕ → Shot → Shot
forget_shot i x = record x { starting_image_asset_id = cleared i x.starting_image_asset_id }

abbrev pub forget_voice : ℕ → VoiceProfile → VoiceProfile
forget_voice i v = record v {
  source_asset_id = cleared i v.source_asset_id;
  selected_preview_asset_id = cleared i v.selected_preview_asset_id;
}

abbrev pub forget_preview : ℕ → VoicePreview → VoicePreview
forget_preview i p = record p { planning_media_asset_id = cleared i p.planning_media_asset_id }

unfoldable pub delete_row : ℕ → Tables → Tables
delete_row asset_id t = record t {
  assets = select (λ a. not (a.id == asset_id)) t.assets;
  links = select (λ l. not (l.asset_id == asset_id)) t.links;
  shots = map (forget_shot asset_id) t.shots;
  voice_profiles = map (forget_voice asset_id) t.voice_profiles;
  voice_previews = map (forget_preview asset_id) t.voice_previews;
}
