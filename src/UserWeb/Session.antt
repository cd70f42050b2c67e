-- ===== src/UserWeb/Session.antt =====
-- The session: what the page and the browser keep of it, under every interleaving of handlers.
pub mod InSync
pub mod Views
pub mod Reload
pub mod Ends
