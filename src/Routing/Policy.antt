-- ===== src/Routing/Policy.antt =====
-- The provider policy of backend/app/services/planning/routing.py.
use cine_forge.Prelude.{
  String, str_eq, eq_refl, eq_iff, subst, ◌≡◌, ◌⊎◌, refl, sym, Has, any-Has, Bool-cases, Bool, true,
  false, ◌&&◌, none, some, List, [], ◌∷◌, any, find?, select, if◌then◌else◌, arith, Option-cases,
  inl, inr,
}
use cine_forge.Prelude.Session.{ok}
use cine_forge.Routing.{
  ProviderEntry, is_available, of_class, is_permitted, choose, pick_automatic_provider,
}

-- Some entry of a list has an identifier.
abbrev named : String → List ProviderEntry → Bool
named p es = any (λ e. str_eq e.provider_identifier p) es

found-named :
    (t : ProviderEntry → Bool) (es : List ProviderEntry) {e : ProviderEntry}
    → find? t es ≡ some e
    → named e.provider_identifier es ≡ true
found-named t [] h = cc
found-named t (x ∷ xs) {e} h =
    ground (arith, found-named t xs {e = e}, eq_refl e.provider_identifier)

found_if :
    (b : Bool) (t : ProviderEntry → Bool) (es : List ProviderEntry) {e : ProviderEntry}
    → (if b then find? t es else none) ≡ some e
    → named e.provider_identifier es ≡ true
found_if true t es h = found-named t es h
found_if false t es h = cc

choose-named :
    (local hosted : Bool) (es : List ProviderEntry) (p : String)
    → choose local hosted es ≡ ok p
    → named p es ≡ true
unfolding choose
choose-named local hosted [] p h = cc
choose-named local hosted (e ∷ es) p h =
    elim (Option-cases (if local then find? (of_class "local") (e ∷ es) else none)) [
      | inl no_local ↦
          elim (Option-cases (if hosted then find? (of_class "hosted") (e ∷ es) else none)) [
            | inl no_hosted ↦
                let same : e.provider_identifier ≡ p = cc (rw (no_local, no_hosted) at h) in
                rw (sym same) (ground (arith, eq_refl e.provider_identifier))
            | inr (x, found) ↦
                let same : x.provider_identifier ≡ p = cc (rw (no_local, found) at h) in
                subst (λ q. named q (e ∷ es) ≡ true) same
                  (found_if hosted (of_class "hosted") (e ∷ es) {e = x} found)
          ]
      | inr (x, found) ↦
          let same : x.provider_identifier ≡ p = cc (rw found at h) in
          subst (λ q. named q (e ∷ es) ≡ true) same
            (found_if local (of_class "local") (e ∷ es) {e = x} found)
    ]

both_0 : (a b : Bool) → (a && b) ≡ true → a ≡ true
both_0 true b h = refl
both_0 false b h = cc

both_1 : (a b : Bool) → (a && b) ≡ true → b ≡ true
both_1 true b h = h
both_1 false b h = cc

any-select :
    (p q : ProviderEntry → Bool) (es : List ProviderEntry)
    → any p (select q es) ≡ true
    → any (λ e. p e && q e) es ≡ true
any-select p q [] h = cc
any-select p q (e ∷ es) h = ground (arith, any-select p q es)

-- An entry of the catalog that a run may use: of a class that it prefers, with the status
-- "available" and the capability "planning".
abbrev pub IsUsable : Bool → Bool → ProviderEntry → Type 0
IsUsable local hosted e =
    (((local ≡ true) × (e.privacy_classification ≡ "local"))
      ⊎ ((hosted ≡ true) × (e.privacy_classification ≡ "hosted")))
    × (e.availability_status ≡ "available")
    × Has "planning" e.capabilities

permitted-class :
    (local hosted : Bool) (e : ProviderEntry)
    → is_permitted local hosted e ≡ true
    → ((local ≡ true) × (e.privacy_classification ≡ "local"))
      ⊎ ((hosted ≡ true) × (e.privacy_classification ≡ "hosted"))
permitted-class local hosted e h = elim (Bool-cases (local && of_class "local" e)) [
  | inl yes_local ↦ inl (
    ground (arith, yes_local),
    (eq_iff e.privacy_classification "local").0 (ground (arith, yes_local)),
  )
  | inr no_local ↦ inr (
    ground (arith, h, no_local),
    (eq_iff e.privacy_classification "hosted").0 (ground (arith, h, no_local)),
  )
]

is_available-Has : (e : ProviderEntry) → is_available e ≡ true → Has "planning" e.capabilities
is_available-Has e h =
    let (c, stands, same) = any-Has (λ x. str_eq x "planning") e.capabilities (ground (arith, h)) in
    subst (λ x. Has x e.capabilities) ((eq_iff c "planning").0 same) stands

-- An automatic choice of a provider is the identifier of an entry of the catalog that the run may
-- use: local where it prefers local providers, or hosted where it prefers hosted ones, with the
-- status "available" and the capability "planning".
pub pick_permitted :
    (local hosted : Bool) (catalog : List ProviderEntry) (p : String)
    → pick_automatic_provider local hosted catalog ≡ ok p
    → (e : ProviderEntry) × Has e catalog × (e.provider_identifier ≡ p) × IsUsable local hosted e
unfolding pick_automatic_provider
pick_permitted local hosted catalog p h =
    let chosen =
      any-select (λ e. str_eq e.provider_identifier p && is_permitted local hosted e) is_available
        catalog
        (any-select (λ e. str_eq e.provider_identifier p) (is_permitted local hosted)
          (select is_available catalog) (choose-named local hosted _ p h)) in
    let (e, stands, passes) =
      any-Has
        (λ e. (str_eq e.provider_identifier p && is_permitted local hosted e) && is_available e)
        catalog chosen in
    let permitted : is_permitted local hosted e ≡ true = both_1 _ _ (both_0 _ _ passes) in
    let available : is_available e ≡ true = both_1 _ _ passes in
    (
      e,
      stands,
      (eq_iff e.provider_identifier p).0 (both_0 _ _ (both_0 _ _ passes)),
      (
        permitted-class local hosted e permitted,
        (eq_iff e.availability_status "available").0 (both_0 _ _ available),
        is_available-Has e available,
      ),
    )
