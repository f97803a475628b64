-- ===== src/Assets/Store/Consistency.antt =====
-- What every call of backend/app/services/reference_assets.py keeps of the table of assets.
use cine_forge.Prelude.{
  ℕ, ◌≡◌, refl, ◌∙◌, str_eq, Bool, true, false, ◌&&◌, not, some, List, [], ◌∷◌, ◌==◌, find?, any,
  select, map, All, is_some, arith, Bool-cases, inl, inr,
}
use cine_forge.Assets.Rows.{PlanningMediaAsset, Tables, set_if}
use cine_forge.Assets.Store.Uploads.{clashes}

-- No two rows share their identity, or project, kind and hash.
abbrev pub Distinct : List PlanningMediaAsset → Type 0
Distinct [] = Unit
Distinct (a ∷ rows) = (any (clashes a) rows ≡ false) × Distinct rows

-- An archived row says so in its approval state.
abbrev pub ArchivedOk : PlanningMediaAsset → Type 0
ArchivedOk a = (is_some a.archived_at && not (str_eq a.approval_state "archived")) ≡ false

abbrev pub IsConsistent : Tables → Type 0
IsConsistent t = Distinct t.assets × All ArchivedOk t.assets

-- A change of columns that no key stands in.
abbrev pub KeepsKeys : (PlanningMediaAsset → PlanningMediaAsset) → Type 0
KeepsKeys f =
    (a b : PlanningMediaAsset) → (clashes (f a) b ≡ clashes a b) × (clashes a (f b) ≡ clashes a b)

module _ (f : PlanningMediaAsset → PlanningMediaAsset) (keys : KeepsKeys f) (i : ℕ) where
  pub set_if-KeepsKeys : KeepsKeys (set_if i f)
  set_if-KeepsKeys a b = elim (Bool-cases (a.id == i)) [
    | inl e ↦ elim (Bool-cases (b.id == i)) [
      | inl e' ↦ rw (e, e') (keys a b)
      | inr e' ↦ rw (e, e') ((keys a b).0, refl)
    ]
    | inr e ↦ elim (Bool-cases (b.id == i)) [
      | inl e' ↦ rw (e, e') (refl, (keys a b).1)
      | inr e' ↦ rw (e, e') (refl, refl)
    ]
  ]

module _ (f : PlanningMediaAsset → PlanningMediaAsset) (keys : KeepsKeys f) where
  any-clashes-map :
      (a : PlanningMediaAsset) (rows : List PlanningMediaAsset)
      → any (clashes (f a)) (map f rows) ≡ any (clashes a) rows
  any-clashes-map a [] = refl
  any-clashes-map a (b ∷ rows) = rw ((keys a (f b)).0, (keys a b).1, any-clashes-map a rows) refl

  pub map-Distinct : (rows : List PlanningMediaAsset) → Distinct rows → Distinct (map f rows)
  map-Distinct [] h = tt
  map-Distinct (a ∷ rows) h = (any-clashes-map a rows ∙ h.0, map-Distinct rows h.1)

any-select :
    (p q : PlanningMediaAsset → Bool) (rows : List PlanningMediaAsset)
    → any p rows ≡ false
    → any p (select q rows) ≡ false
any-select p q [] h = refl
any-select p q (a ∷ rows) h = ground (arith, any-select p q rows)

pub select-Distinct :
    (q : PlanningMediaAsset → Bool) (rows : List PlanningMediaAsset)
    → Distinct rows
    → Distinct (select q rows)
select-Distinct q [] h = tt
select-Distinct q (a ∷ rows) h = elim (Bool-cases (q a)) [
  | inl e ↦ rw e (any-select (clashes a) q rows h.0, select-Distinct q rows h.1)
  | inr e ↦ rw e (select-Distinct q rows h.1)
]

pub select-All :
    (P : PlanningMediaAsset → Type 0) (q : PlanningMediaAsset → Bool)
    (rows : List PlanningMediaAsset)
    → All P rows
    → All P (select q rows)
select-All P q [] h = tt
select-All P q (a ∷ rows) h = elim (Bool-cases (q a)) [
  | inl e ↦ rw e (h.0, select-All P q rows h.1)
  | inr e ↦ rw e (select-All P q rows h.1)
]

pub map-ArchivedOk :
    (f : PlanningMediaAsset → PlanningMediaAsset)
    → ((a : PlanningMediaAsset) → ArchivedOk a → ArchivedOk (f a))
    → (rows : List PlanningMediaAsset) → All ArchivedOk rows
    → All ArchivedOk (map f rows)
map-ArchivedOk f h [] all = tt
map-ArchivedOk f h (a ∷ rows) all = (h a all.0, map-ArchivedOk f h rows all.1)

-- A change of the row that a query found: no other row has its identity.
not_here :
    (f : PlanningMediaAsset → PlanningMediaAsset) (i : ℕ) (a : PlanningMediaAsset)
    (rows : List PlanningMediaAsset)
    → (a.id == i) ≡ true
    → any (clashes a) rows ≡ false
    → All ArchivedOk rows
    → All ArchivedOk (map (set_if i f) rows)
not_here f i a [] e d h = tt
not_here f i a (b ∷ rows) e d h =
    let apart : (b.id == i) ≡ false = ground arith in
    let rest : any (clashes a) rows ≡ false = ground arith in
    (rw apart h.0, not_here f i a rows e rest h.1)

pub found-ArchivedOk :
    (f : PlanningMediaAsset → PlanningMediaAsset) (i : ℕ) (rows : List PlanningMediaAsset)
    {a : PlanningMediaAsset}
    → find? (λ b. b.id == i) rows ≡ some a
    → ArchivedOk (f a)
    → Distinct rows
    → All ArchivedOk rows
    → All ArchivedOk (map (set_if i f) rows)
found-ArchivedOk f i [] e ok_f d h = cc
found-ArchivedOk f i (b ∷ rows) {a} e ok_f d h = elim (Bool-cases (b.id == i)) [
  | inl here ↦
      let same : b ≡ a = ground arith in (rw (here, same) ok_f, not_here f i b rows here d.0 h.1)
  | inr there ↦
      let later : find? (λ b. b.id == i) rows ≡ some a = ground arith in
      (rw there h.0, found-ArchivedOk f i rows {a = a} later ok_f d.1 h.1)
]
