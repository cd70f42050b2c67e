-- ===== src/UserWeb/Render.antt =====
-- What the console's views show.
pub mod Layout
pub mod Dashboard
pub mod Upload
pub mod Gallery
pub mod Pricing
pub mod ApiKeys
pub mod Account
pub mod Auth
pub mod Landing
pub mod Screens
pub mod Controls
pub mod Events
pub mod Forms
pub mod Leads
