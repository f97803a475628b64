-- ===== src/Assets/Uri.antt =====
-- The managed URIs of backend/app/services/reference_assets.py. A text is the list of its code
-- points.
pub mod Exact
use cine_forge.Prelude.{
  ℕ, Bool, true, false, ◌&&◌, ◌||◌, not, Option, none, some, List, [], ◌∷◌, ◌++◌, ◌==◌,
  if◌then◌else◌, any,
}
use Prim.Native.Char.{code}
use Prim.Native.String.{String}
use cine_forge.Prelude.Session.{Result, ok, err}
use cine_forge.Assets.Errors.{
  AssetError, unrecognized_uri, unexpected_shape, project_mismatch, kind_mismatch, unsafe_name,
  escapes_root,
}
use cine_forge.Assets.Bytes.{same_bytes}

abbrev pub Text : Type 0
Text = List ℕ

abbrev pub codes : String → Text
codes String.[] = []
codes (String.◌∷◌ c s) = code c ∷ codes s

-- "cineforge-planning://"
abbrev pub scheme : Text
scheme =
    b'c' ∷ b'i' ∷ b'n' ∷ b'e' ∷ b'f' ∷ b'o' ∷ b'r' ∷ b'g' ∷ b'e' ∷ b'-' ∷ b'p' ∷ b'l' ∷ b'a' ∷ b'n'
    ∷ b'n' ∷ b'i' ∷ b'n' ∷ b'g' ∷ b':' ∷ b'/' ∷ b'/' ∷ []

abbrev pub build_managed_uri : Text → Text → Text → Text
build_managed_uri project kind stored_name =
    scheme ++ (project ++ (b'/' ∷ (kind ++ (b'/' ∷ stored_name))))

-- What follows a prefix, where the text starts with it.
unfoldable pub after_prefix : Text → Text → Option Text
after_prefix [] xs = some xs
after_prefix (p ∷ ps) [] = none
after_prefix (p ∷ ps) (x ∷ xs) = if p == x then after_prefix ps xs else none

-- `text.split(separator)`
abbrev pub onto_first : ℕ → List Text → List Text
onto_first x [] = (x ∷ []) ∷ []
onto_first x (w ∷ ws) = (x ∷ w) ∷ ws

unfoldable pub split : ℕ → Text → List Text
split c [] = [] ∷ []
split c (x ∷ xs) = let rest = split c xs in if x == c then [] ∷ rest else onto_first x rest

abbrev pub has : ℕ → Text → Bool
has c xs = any (λ x. x == c) xs

-- `".." in text`
abbrev pub has_dots : Text → Bool
has_dots [] = false
has_dots (x ∷ []) = false
has_dots (x ∷ y ∷ xs) = if x == b'.' && y == b'.' then true else has_dots (y ∷ xs)

abbrev pub empty : Text → Bool
empty [] = true
empty (x ∷ xs) = false

unfoldable pub is_unsafe : Text → Bool
is_unsafe name = has_dots name || has b'/' name || has b'\\' name || empty name

-- `inside` tells of three path components whether what they resolve to, through the links of the
-- file system, lies under the managed root.
module _ (inside : Text → Text → Text → Bool) (project kind : Text) where
  abbrev pub resolve_parts : List Text → Result AssetError Text
  resolve_parts (p ∷ k ∷ name ∷ []) =
      if not (same_bytes p project)
      then err project_mismatch
      else (if not (same_bytes k kind)
          then err kind_mismatch
          else (if is_unsafe name
              then err unsafe_name
              else (if not (inside p k name) then err escapes_root else ok name)))
  resolve_parts _ = err unexpected_shape

  -- The name of the asset's file in the directory of its project and kind.
  abbrev pub resolve_remainder : Option Text → Result AssetError Text
  resolve_remainder none = err unrecognized_uri
  resolve_remainder (some remainder) = resolve_parts (split b'/' remainder)

  abbrev pub resolve_managed_path : Text → Result AssetError Text
  resolve_managed_path uri = resolve_remainder (after_prefix scheme uri)
