-- ===== src/AdminWeb/Tests.antt =====
-- The theorems on the administrators' console at concrete pages.
mod Sessions
mod Forms
