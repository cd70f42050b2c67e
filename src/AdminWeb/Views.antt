-- ===== src/AdminWeb/Views.antt =====
-- The views of the administrators' console: their handlers.
pub mod Reads
pub mod Users
pub mod Plans
pub mod HiddenPlans
pub mod Invites
pub mod Moderation
pub mod Backup
pub mod Orders
pub mod Hotlink
pub mod Settings
pub mod Queue
pub mod Platform
