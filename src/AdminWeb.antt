-- ===== src/AdminWeb.antt =====
-- The administrators' console, yuexiang-image-admin-web/src/App.tsx.
pub mod Types
pub mod Replies
pub mod Text
pub mod Format
pub mod Calls
pub mod Rows
pub mod Cells
pub mod Page
pub mod Session
pub mod Gate
pub mod Csv
pub mod Views
pub mod Events
pub mod Progress
pub mod Audit
pub mod Html
pub mod Render
mod Tests
