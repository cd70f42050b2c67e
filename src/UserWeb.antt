-- ===== src/UserWeb.antt =====
-- The user console, yuexiang-image-user-web/src/App.tsx.
pub mod Types
pub mod Format
pub mod Mapping
pub mod Http
pub mod Page
pub mod Rules
pub mod App
pub mod Views
pub mod Screen
pub mod Html
pub mod Requests
pub mod Render
pub mod Events
pub mod Session
mod Tests
