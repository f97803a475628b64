-- ===== src/Storyboard.antt =====
-- The storyboard of backend/app/services/storyboard.py.
pub mod Order
mod Tests
