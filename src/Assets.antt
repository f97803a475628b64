-- ===== src/Assets.antt =====
-- backend/app/services/reference_assets.py: managed media of a project, how their bytes are read
-- and how their rows change.
pub mod Bytes
pub mod Images
pub mod Errors
pub mod Uri
pub mod Policy
pub mod Rows
pub mod World
pub mod Store
mod Tests
