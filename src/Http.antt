-- ===== src/Http.antt =====
-- The routes of src/http/routes that change issues.
pub mod Issues
pub mod Comments
