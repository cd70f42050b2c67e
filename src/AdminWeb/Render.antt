-- ===== src/AdminWeb/Render.antt =====
-- What the administrators' console shows.
pub mod Accounts
