-- ===== src/Assets/Policy.antt =====
-- Which uploads backend/app/services/reference_assets.py allows.
use cine_forge.Prelude.{
  ℕ, ◌*◌, String, str_eq, Bool, false, not, Option, none, some, List, [], ◌∷◌, ◌==◌, ltb,
  if◌then◌else◌, any,
}
use cine_forge.Prelude.Session.{Result, ok, err}
use cine_forge.Assets.Errors.{
  AssetError, unsupported_kind, upload_empty, upload_too_large, extension_not_allowed,
  mime_not_allowed,
}

-- A key of `KIND_POLICY` with its entry.
pub record KindPolicy : Type 0 where
  pub mimes : List String
  pub extensions : List String
  pub max_bytes : ℕ
  pub category : String

abbrev pub image_policy : KindPolicy
image_policy = record {
  mimes = "image/png" ∷ "image/jpeg" ∷ "image/webp" ∷ [];
  extensions = ".png" ∷ ".jpg" ∷ ".jpeg" ∷ ".webp" ∷ [];
  max_bytes = 25 * 1024 * 1024;
  category = "image";
}

abbrev pub voice_policy : KindPolicy
voice_policy = record {
  mimes =
      "audio/wav" ∷ "audio/x-wav" ∷ "audio/wave" ∷ "audio/mpeg" ∷ "audio/mp3" ∷ "audio/ogg"
      ∷ "audio/flac" ∷ [];
  extensions = ".wav" ∷ ".mp3" ∷ ".ogg" ∷ ".flac" ∷ [];
  max_bytes = 50 * 1024 * 1024;
  category = "audio";
}

abbrev pub document_policy : KindPolicy
document_policy = record {
  mimes =
      "text/plain" ∷ "text/markdown" ∷ "text/x-markdown" ∷ "application/pdf" ∷ "application/json"
      ∷ [];
  extensions = ".txt" ∷ ".md" ∷ ".markdown" ∷ ".pdf" ∷ ".json" ∷ [];
  max_bytes = 10 * 1024 * 1024;
  category = "document";
}

abbrev pub kind_policy : String → Option KindPolicy
kind_policy kind =
    if str_eq kind "character_reference"
    then some image_policy
    else (if str_eq kind "starting_image"
        then some image_policy
        else (if str_eq kind "voice_source"
            then some voice_policy
            else (if str_eq kind "story_document" then some document_policy else none)))

abbrev pub one_of : List String → String → Bool
one_of names name = any (λ n. str_eq n name) names

-- `MIME_ALIASES.get(mime, mime)`
abbrev pub alias_of : String → String
alias_of mime =
    if str_eq mime "image/jpg"
    then "image/jpeg"
    else (if one_of ("audio/x-wav" ∷ "audio/wave" ∷ []) mime
        then "audio/wav"
        else (if str_eq mime "audio/mp3"
            then "audio/mpeg"
            else (if str_eq mime "text/x-markdown" then "text/markdown" else mime)))

-- `media_type` is what comes before the first `;` of a content type, stripped and in lower case,
-- or nothing; `guess_type` is the lookup of the mimetypes module for an extension.
unfoldable pub normalize_mime : (String → Option String) → Option String → String → Option String
normalize_mime guess_type (some raw) extension = some (alias_of raw)
normalize_mime guess_type none extension =
    if str_eq extension "" then none else guessed (guess_type extension)
  where
    guessed : Option String → Option String
    guessed none = none
    guessed (some g) = some (alias_of g)

abbrev pub mime_allowed : List String → Option String → Bool
mime_allowed mimes none = false
mime_allowed mimes (some mime) = if str_eq mime "" then false else one_of mimes mime

abbrev pub check_payload : KindPolicy → ℕ → Option String → String → Result AssetError KindPolicy
check_payload policy size_bytes mime_type extension =
    if size_bytes == 0
    then err upload_empty
    else (if ltb policy.max_bytes size_bytes
        then err (upload_too_large policy.max_bytes)
        else (if not (one_of policy.extensions extension)
            then err (extension_not_allowed extension)
            else (if not (mime_allowed policy.mimes mime_type)
                then err (mime_not_allowed mime_type)
                else ok policy)))

unfoldable pub validate_kind_and_payload :
    String → ℕ → Option String → String → Result AssetError KindPolicy
validate_kind_and_payload kind size_bytes mime_type extension = elim (kind_policy kind) [
  | none ↦ err (unsupported_kind kind)
  | some policy ↦ check_payload policy size_bytes mime_type extension
]
