-- ===== src/UserWeb/Session/Views.antt =====
-- The handlers of the views and the tokens of the session, view by view.
pub mod Auth
pub mod Upload
pub mod Gallery
pub mod Pricing
pub mod ApiKeys
pub mod Backup
pub mod Settings
pub mod Docs
