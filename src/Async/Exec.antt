-- ===== src/Async/Exec.antt =====
-- A handler from its start to its end: `server` answers each request, and `meanwhile` is what other
-- handlers do to the state while this one waits for an answer or a timer. A handler that it starts on
-- the side runs to its end before the rest.
use infinite_image_hosting.Async.Program.{Outcome, Prog, stop, modify, read, call, timeout, fork}

module _ {S : Type 0} {Request : Type 0} {Reply : Request → Type 0}
    (server : (r : Request) → Outcome (Reply r)) (meanwhile : S → S) where
  abbrev pub exec : Prog S Request Reply → S → S
  exec stop s = s
  exec (modify f p) s = exec p (f s)
  exec (read f) s = exec (f s) s
  exec (call r k) s = exec (k (server r)) (meanwhile s)
  exec (timeout n p) s = exec p (meanwhile s)
  exec (fork p q) s = exec q (exec p s)
