-- ===== src/Assets/Errors.antt =====
-- What backend/app/services/reference_assets.py raises, with what its messages name. The
-- exceptions that a database or a disk raise are `failure`.
use cine_forge.Prelude.{ℕ, String, Option}

pub data AssetError : Type 0 where
  unrecognized_uri unexpected_shape project_mismatch kind_mismatch unsafe_name : AssetError
  escapes_root : AssetError
  unsupported_kind : String → AssetError
  upload_empty : AssetError
  upload_too_large : ℕ → AssetError
  extension_not_allowed : String → AssetError
  mime_not_allowed : Option String → AssetError
  consent_missing : AssetError
  project_not_found asset_not_found asset_archived : AssetError
  not_starting_image archived_image : AssetError
  unsupported_state unsupported_expected_state : String → AssetError
  approval_changed : String → String → AssetError
  bytes_unavailable : AssetError
  archive_first : AssetError
  character_not_found not_character_reference other_project link_not_found : AssetError
  order_taken : ℕ → AssetError
  failure : AssetError
