-- ===== src/Assets/Store/Drafts.antt =====
-- The drafts that a change of an asset leaves, in backend/app/services/reference_assets.py.
use cine_forge.Prelude.{
  ℕ, ◌≡◌, ◌⊎◌, refl, subst, none, some, String, Bool, true, false, ◌&&◌, List, [], ◌∷◌, ◌++◌, ◌==◌,
  ==_iff, any, select, map, find?-sound, All, Has, arith, Bool-cases, inl, inr,
}
use cine_forge.Assets.Rows.{
  PlanningMediaAsset, Story, Chapter, Scene, Shot, Character, CharacterReferenceAsset, VoiceProfile,
  VoicePreview, Tables, refers, get_asset_row, draft_if, stories_of_shots, stories_of_characters,
  stories_of_voices, stories_of_previews, story_ids_referencing_asset, mark_stories_draft, audit,
  update_asset,
}
use cine_forge.Assets.World.{World}
use cine_forge.Assets.Store.{Moment, record_change, commit_rows}
use cine_forge.Assets.Store.Approvals.{archive_asset, archived_now}

-- The plan of a story refers to an asset: a shot of a scene of a chapter starts with it, it is a
-- reference of a character, a voice has it as its source or its selected preview, or a preview of a
-- voice is kept in it.
abbrev pub OfShot : Tables → ℕ → ℕ → Type 0
OfShot t a story =
    (c : Chapter) × (s : Scene) × (x : Shot) × (Has c t.chapters × Has s t.scenes × Has x t.shots)
    × ((c.story_id ≡ story)
        × (s.chapter_id ≡ c.id)
        × (x.scene_id ≡ s.id)
        × (x.starting_image_asset_id ≡ some a))

abbrev pub OfCharacter : Tables → ℕ → ℕ → Type 0
OfCharacter t a story =
    (c : Character) × (l : CharacterReferenceAsset) × (Has c t.characters × Has l t.links)
    × ((c.story_id ≡ story) × (l.character_id ≡ c.id) × (l.asset_id ≡ a))

abbrev pub OfVoice : Tables → ℕ → ℕ → Type 0
OfVoice t a story =
    (v : VoiceProfile) × Has v t.voice_profiles
    × (v.story_id ≡ story)
    × ((v.source_asset_id ≡ some a) ⊎ (v.selected_preview_asset_id ≡ some a))

abbrev pub OfPreview : Tables → ℕ → ℕ → Type 0
OfPreview t a story =
    (v : VoiceProfile) × (p : VoicePreview) × (Has v t.voice_profiles × Has p t.voice_previews)
    × ((v.story_id ≡ story) × (p.voice_profile_id ≡ v.id) × (p.planning_media_asset_id ≡ some a))

abbrev pub RefersTo : Tables → ℕ → ℕ → Type 0
RefersTo t a story =
    (OfShot t a story ⊎ OfCharacter t a story) ⊎ (OfVoice t a story ⊎ OfPreview t a story)

module _ {ℓ} {A : Type ℓ} where
  any-middle :
      (p : A → Bool) (before after : List A) (x : A)
      → p x ≡ true
      → any p (before ++ x ∷ after) ≡ true
  any-middle p [] after x h = rw h refl
  any-middle p (y ∷ before) after x h = ground (arith, any-middle p before after x h)

  Has-any : (p : A → Bool) (xs : List A) (x : A) → Has x xs → p x ≡ true → any p xs ≡ true
  Has-any p xs x (before, after, e) h = rw e (any-middle p before after x h)

  -- What a query of identities returns.
  any-chosen :
      (p : A → Bool) (f : A → ℕ) (before after : List A) (x : A) (i : ℕ)
      → p x ≡ true
      → f x ≡ i
      → any (λ k. k == i) (map f (select p (before ++ x ∷ after))) ≡ true
  any-chosen p f [] after x i h e = rw (h, e) (ground arith)
  any-chosen p f (y ∷ before) after x i h e = ground (arith, any-chosen p f before after x i h e)

  Has-chosen :
      (p : A → Bool) (f : A → ℕ) (xs : List A) (x : A) (i : ℕ)
      → Has x xs
      → p x ≡ true
      → f x ≡ i
      → any (λ k. k == i) (map f (select p xs)) ≡ true
  Has-chosen p f xs x i (before, after, there) h e = rw there (any-chosen p f before after x i h e)

any-left : (p : ℕ → Bool) (xs ys : List ℕ) → any p xs ≡ true → any p (xs ++ ys) ≡ true
any-left p [] ys h = cc
any-left p (x ∷ xs) ys h = ground (arith, any-left p xs ys)

any-right : (p : ℕ → Bool) (xs ys : List ℕ) → any p ys ≡ true → any p (xs ++ ys) ≡ true
any-right p [] ys h = h
any-right p (x ∷ xs) ys h = ground (arith, any-right p xs ys h)

self : (i : ℕ) → (i == i) ≡ true
self i = ground arith

module _ (t : Tables) (a story : ℕ) where
  abbrev among : List ℕ → Bool
  among ids = any (λ k. k == story) ids

  of_shot : OfShot t a story → among (stories_of_shots t a) ≡ true
  of_shot (c, s, x, (hc, hs, hx), (ec, es, ex, ea)) =
      Has-chosen _ (λ (d : Chapter). d.story_id) t.chapters c story hc
        (Has-any _ t.scenes s hs (
          rw (es, self c.id)
            (Has-any (λ (y : Shot). y.scene_id == s.id && refers y.starting_image_asset_id a)
              t.shots x hx (rw (ex, ea, self s.id, self a) refl))))
        ec

  of_character : OfCharacter t a story → among (stories_of_characters t a) ≡ true
  of_character (c, l, (hc, hl), (ec, el, ea)) =
      Has-chosen _ (λ (d : Character). d.story_id) t.characters c story hc
        (Has-any _ t.links l hl (rw (el, ea, self c.id, self a) refl)) ec

  of_voice : OfVoice t a story → among (stories_of_voices t a) ≡ true
  of_voice (v, hv, ev, inl e) =
      Has-chosen _ (λ (d : VoiceProfile). d.story_id) t.voice_profiles v story hv
        (rw (e, self a) refl) ev
  of_voice (v, hv, ev, inr e) =
      Has-chosen _ (λ (d : VoiceProfile). d.story_id) t.voice_profiles v story hv
        (rw (e, self a) (ground arith)) ev

  of_preview : OfPreview t a story → among (stories_of_previews t a) ≡ true
  of_preview (v, p, (hv, hp), (ev, ep, ea)) =
      Has-chosen _ (λ (d : VoiceProfile). d.story_id) t.voice_profiles v story hv
        (Has-any _ t.voice_previews p hp (rw (ep, ea, self v.id, self a) refl)) ev

  RefersTo-among : RefersTo t a story → among (story_ids_referencing_asset t a) ≡ true
  RefersTo-among (inl (inl h)) = any-left _ (stories_of_shots t a) _ (of_shot h)
  RefersTo-among (inl (inr h)) =
      any-right _ (stories_of_shots t a) _
        (any-left _ (stories_of_characters t a) _ (of_character h))
  RefersTo-among (inr (inl h)) = any-right _ (stories_of_shots t a) _ (
      any-right _ (stories_of_characters t a) _ (any-left _ (stories_of_voices t a) _ (of_voice h)))
  RefersTo-among (inr (inr h)) = any-right _ (stories_of_shots t a) _ (
      any-right _ (stories_of_characters t a) _
        (any-right _ (stories_of_voices t a) _ (of_preview h)))

-- The stories that refer to an asset are drafts.
abbrev pub Drafted : Tables → ℕ → List Story → Type 0
Drafted t a stories = All (λ s. RefersTo t a s.id → s.approval_state ≡ "draft") stories

draft_if-Drafted :
    (t : Tables) (a now : ℕ) (s : Story)
    → RefersTo t a (draft_if now (story_ids_referencing_asset t a) s).id
    → (draft_if now (story_ids_referencing_asset t a) s).approval_state ≡ "draft"
draft_if-Drafted t a now s =
    elim (Bool-cases (any (λ k. k == s.id) (story_ids_referencing_asset t a))) [
      | inl e ↦ rw e (λ h. refl)
      | inr e ↦ rw e (λ h. absurd (cc (e, RefersTo-among t a s.id h)))
    ]

map-Drafted :
    (t : Tables) (a now : ℕ) (stories : List Story)
    → Drafted t a (map (draft_if now (story_ids_referencing_asset t a)) stories)
map-Drafted t a now [] = tt
map-Drafted t a now (s ∷ stories) = (draft_if-Drafted t a now s, map-Drafted t a now stories)

record_change-Drafted :
    (m : Moment) (asset : PlanningMediaAsset) (f : PlanningMediaAsset → PlanningMediaAsset)
    (action : String) (w : World)
    → m.fails ≡ false
    → Drafted w.session.db asset.id (record_change m asset f action w).1.session.durable.stories
unfolding record_change commit_rows mark_stories_draft audit update_asset
record_change-Drafted m asset f action w saves =
    rw saves (map-Drafted w.session.db asset.id m.now w.session.db.stories)

-- When an asset that is not archived yet is archived, and the commit goes through, then every story
-- whose plan refers to it, by a shot, a character, a voice or a preview, is a draft, for other
-- sessions too.
pub archive_asset-drafts :
    (m : Moment) (i : ℕ) (w : World) {asset : PlanningMediaAsset}
    → get_asset_row w.session.db i ≡ some asset
    → asset.archived_at ≡ none
    → m.fails ≡ false
    → Drafted w.session.db i (archive_asset m i w).1.session.durable.stories
unfolding archive_asset record_change
archive_asset-drafts m i w {asset} found live saves =
    let same : asset.id ≡ i =
      (==_iff asset.id i).0 (
        find?-sound (λ (b : PlanningMediaAsset). b.id == i) w.session.db.assets {a = asset}
          found) in
    rw (found, live)
      (subst
        (λ k.
          Drafted w.session.db k
            (record_change m asset (archived_now m.now) "planning_media_asset_archived"
              w).1.session.durable.stories)
        same
        (record_change-Drafted m asset (archived_now m.now) "planning_media_asset_archived" w
          saves))
