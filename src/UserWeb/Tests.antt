-- ===== src/UserWeb/Tests.antt =====
-- Concrete pages and servers, and the theorems at them.
mod Data
mod Sessions
mod Views
mod Formats
mod Renders
