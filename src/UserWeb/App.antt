-- ===== src/UserWeb/App.antt =====
-- App: its effects and the handlers that it hands to the views. A handler is a closure over the
-- cells of the render that made it: that render is its argument `seen`, and what a functional
-- update (`setX((x) => …)`) reads is the page at the time.
pub mod Effects
pub mod Account
pub mod Images
pub mod Navigation
