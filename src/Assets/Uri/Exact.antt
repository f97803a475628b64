-- ===== src/Assets/Uri/Exact.antt =====
-- Which URIs resolve in backend/app/services/reference_assets.py, and to what.
use cine_forge.Prelude.{
  ℕ, ◌≡◌, refl, sym, ap, ◌∙◌, ◌↔◌, Bool, true, false, Option, none, some, List, [], ◌∷◌, ◌++◌, ◌==◌,
  arith, inl, inr, Bool-cases, ==_iff, ==_refl,
}
use cine_forge.Prelude.Session.{ok}
use cine_forge.Assets.Bytes.{same_bytes}
use cine_forge.Assets.Uri.{
  Text, scheme, build_managed_uri, after_prefix, onto_first, split, has, has_dots, empty, is_unsafe,
  resolve_parts, resolve_remainder, resolve_managed_path,
}

after_prefix-append : (p xs : Text) → after_prefix p (p ++ xs) ≡ some xs
unfolding after_prefix
after_prefix-append [] xs = refl
after_prefix-append (x ∷ p) xs = rw (==_refl x) (after_prefix-append p xs)

after_prefix-some : (p xs rest : Text) → after_prefix p xs ≡ some rest → xs ≡ p ++ rest
unfolding after_prefix
after_prefix-some [] xs rest e = cc
after_prefix-some (a ∷ p) [] rest e = cc
after_prefix-some (a ∷ p) (x ∷ xs) rest e = ground (arith, after_prefix-some p xs rest)

split-last : (c : ℕ) (w : Text) → has c w ≡ false → split c w ≡ w ∷ []
unfolding split
split-last c [] h = refl
split-last c (x ∷ w) h = ground (arith, split-last c w)

split-append : (c : ℕ) (w xs : Text) → has c w ≡ false → split c (w ++ (c ∷ xs)) ≡ w ∷ split c xs
unfolding split
split-append c [] xs h = rw (==_refl c) refl
split-append c (x ∷ w) xs h = ground (arith, split-append c w xs)

-- What `split` gives joins back.
join : ℕ → List Text → Text
join c [] = []
join c (w ∷ []) = w
join c (w ∷ v ∷ ws) = w ++ (c ∷ join c (v ∷ ws))

join-onto_first : (c x : ℕ) (ws : List Text) → join c (onto_first x ws) ≡ x ∷ join c ws
unfolding join
join-onto_first c x [] = refl
join-onto_first c x (w ∷ []) = refl
join-onto_first c x (w ∷ v ∷ ws) = refl

split-cons : (c : ℕ) (xs : Text) → (w : Text) × (ws : List Text) × (split c xs ≡ w ∷ ws)
unfolding split
split-cons c [] = ([], [], refl)
split-cons c (x ∷ xs) =
    let (w, ws, e) = split-cons c xs in
    elim (Bool-cases (x == c)) [
      | inl t ↦ ([], split c xs, rw t refl)
      | inr f ↦ (x ∷ w, ws, rw (f, e) refl)
    ]

join-empty :
    (c : ℕ) (vs : List Text) (w : Text) (ws : List Text)
    → vs ≡ w ∷ ws
    → join c ([] ∷ vs) ≡ c ∷ join c vs
unfolding join
join-empty c vs w ws e = rw e refl

join-split : (c : ℕ) (xs : Text) → join c (split c xs) ≡ xs
unfolding split join
join-split c [] = refl
join-split c (x ∷ xs) =
    let (w, ws, e) = split-cons c xs in
    elim (Bool-cases (x == c)) [
      | inl t ↦ rw t (join-empty c (split c xs) w ws e ∙ cc ((==_iff x c).0 t, join-split c xs))
      | inr f ↦ rw f (join-onto_first c x (split c xs) ∙ ap (λ t. x ∷ t) (join-split c xs))
    ]

same_bytes→eq : (xs ys : Text) → same_bytes xs ys ≡ true → xs ≡ ys
same_bytes→eq [] [] h = refl
same_bytes→eq [] (y ∷ ys) h = cc
same_bytes→eq (x ∷ xs) [] h = cc
same_bytes→eq (x ∷ xs) (y ∷ ys) h = ground (arith, same_bytes→eq xs ys)

pub same_bytes_self : (xs : Text) → same_bytes xs xs ≡ true
same_bytes_self [] = refl
same_bytes_self (x ∷ xs) = rw (==_refl x) (same_bytes_self xs)

join_parts :
    (ws : List Text) {p k n : Text}
    → ws ≡ p ∷ k ∷ n ∷ []
    → join b'/' ws ≡ p ++ (b'/' ∷ (k ++ (b'/' ∷ n)))
unfolding join
join_parts ws e = rw e refl

module _ (inside : Text → Text → Text → Bool) (project kind : Text) where
  resolve_parts-ok :
      (parts : List Text) (name : Text)
      → resolve_parts inside project kind parts ≡ ok name
      → (parts ≡ project ∷ kind ∷ name ∷ [])
        × (is_unsafe name ≡ false)
        × (inside project kind name ≡ true)
  resolve_parts-ok [] name h = cc
  resolve_parts-ok (p ∷ []) name h = cc
  resolve_parts-ok (p ∷ k ∷ []) name h = cc
  resolve_parts-ok (p ∷ k ∷ n ∷ x ∷ parts) name h = cc
  resolve_parts-ok (p ∷ k ∷ n ∷ []) name h =
      let own_project : p ≡ project = same_bytes→eq p project (ground arith) in
      let own_kind : k ≡ kind = same_bytes→eq k kind (ground arith) in
      let safe : is_unsafe n ≡ false = ground arith in
      let under_root : inside p k n ≡ true = ground arith in
      let same : n ≡ name = ground arith in (cc, cc, cc)

  -- A name that stays in its directory.
  abbrev pub IsSafe : Text → Type 0
  IsSafe name =
      (has_dots name ≡ false)
      × (has b'/' name ≡ false)
      × (has b'\\' name ≡ false)
      × (empty name ≡ false)

  is_unsafe_iff : (name : Text) → (is_unsafe name ≡ false) ↔ IsSafe name
  unfolding is_unsafe
  is_unsafe_iff name =
      (λ h. (ground arith, ground arith, ground arith, ground arith), λ (d, s, b, e). ground arith)

  -- The URI is the one built for the project, the kind and a name that is safe, and the path stays
  -- under the root.
  abbrev pub IsManaged : Text → Text → Type 0
  IsManaged uri name =
      (uri ≡ build_managed_uri project kind name) × IsSafe name × (inside project kind name ≡ true)

  from_rest :
      (uri name : Text) (found : Option Text)
      → after_prefix scheme uri ≡ found
      → resolve_remainder inside project kind found ≡ ok name
      → IsManaged uri name
  from_rest uri name none e h = cc
  from_rest uri name (some rest) e h =
      let (parts, safe, under_root) = resolve_parts-ok (split b'/' rest) name h in
      let joined = sym (join-split b'/' rest) ∙ join_parts _ parts in
      (
        after_prefix-some scheme uri rest e ∙ ap (λ t. scheme ++ t) joined,
        (is_unsafe_iff name).0 safe,
        under_root,
      )

  built :
      (uri name : Text)
      → has b'/' project ≡ false
      → has b'/' kind ≡ false
      → IsManaged uri name
      → resolve_managed_path inside project kind uri ≡ ok name
  built uri name hp hk (e, safe, under_root) =
      ap (resolve_managed_path inside project kind) e
      ∙ ap (resolve_remainder inside project kind)
          (after_prefix-append scheme (project ++ (b'/' ∷ (kind ++ (b'/' ∷ name)))))
      ∙ rw
          (
            split-append b'/' project (kind ++ (b'/' ∷ name)) hp,
            split-append b'/' kind name hk,
            split-last b'/' name (safe.1),
            same_bytes_self project,
            same_bytes_self kind,
          )
          (rw ((is_unsafe_iff name).1 safe, under_root) refl)

  -- Where neither the project nor the kind has a slash: a URI resolves to a file name exactly
  -- if it is the URI built for that project, kind and name, the name is not empty and has no
  -- slash, no backslash and no double dot, and the path stays under the root.
  pub resolve_managed_path-exact :
      (uri name : Text)
      → has b'/' project ≡ false
      → has b'/' kind ≡ false
      → (resolve_managed_path inside project kind uri ≡ ok name) ↔ IsManaged uri name
  resolve_managed_path-exact uri name hp hk =
      (from_rest uri name (after_prefix scheme uri) refl, built uri name hp hk)
