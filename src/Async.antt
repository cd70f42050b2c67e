-- ===== src/Async.antt =====
-- JavaScript's asynchronous handlers, the event loop that interleaves them, and a rule for invariants.
pub mod Program
pub mod Loop
pub mod Safe
pub mod Rules
pub mod Within
pub mod Lands
pub mod Exec
