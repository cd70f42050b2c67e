-- ===== src/UserWeb/Views.antt =====
-- The views below App, each with its cells and handlers.
pub mod Auth
pub mod Upload
pub mod Gallery
pub mod Pricing
pub mod ApiKeys
pub mod Backup
pub mod Settings
pub mod Docs
