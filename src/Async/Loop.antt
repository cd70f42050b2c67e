-- ===== src/Async/Loop.antt =====
-- The event loop: a program runs up to where it waits, and what waits is resumed in any order.
use infinite_image_hosting.Prelude.{ℕ, ◌≡◌, List, [], ◌∷◌, ◌++◌}
use infinite_image_hosting.Async.Program.{Outcome, Prog, stop, modify, read, call, timeout, fork}

module _ {S : Type 0} {Request : Type 0} {Reply : Request → Type 0} where
  -- Run without interruption: the state reached, and the programs that wait.
  unfoldable pub run_sync : Prog S Request Reply → S → S × List (Prog S Request Reply)
  run_sync stop s = (s, [])
  run_sync (modify f p) s = run_sync p (f s)
  run_sync (read f) s = run_sync (f s) s
  run_sync (call r k) s = (s, call r k ∷ [])
  run_sync (timeout n p) s = (s, timeout n p ∷ [])
  run_sync (fork p q) s =
      let (s₁, ps) = run_sync p s in let (s₂, qs) = run_sync q s₁ in (s₂, ps ++ qs)

pub record World (S : Type 0) (Request : Type 0) (Reply : Request → Type 0) : Type 0 where
  pub state : S
  pub waiting : List (Prog S Request Reply)

-- `Pick p ws rest`: `ws` is `rest` with `p` put in at some place.
pub data Pick {A : Type 0} (p : A) : List A → List A → Type 0 where
  here : {ws : List A} → Pick p (p ∷ ws) ws
  there : {q : A} {ws rest : List A} → Pick p ws rest → Pick p (q ∷ ws) (q ∷ rest)

module _ {S : Type 0} {Request : Type 0} {Reply : Request → Type 0} where
  -- The loop runs `p` beside the programs that wait.
  abbrev pub resume : Prog S Request Reply → S → List (Prog S Request Reply) → World S Request Reply
  resume p s rest = record { state = (run_sync p s).0; waiting = rest ++ (run_sync p s).1 }

-- One turn of the loop. `Event s p` says that in state `s` the page may start the handler `p`;
-- a request that waits gets any outcome, and a timer that waits may fire at any time.
pub data Turn {S : Type 0} {Request : Type 0} {Reply : Request → Type 0}
    (Event : S → Prog S Request Reply → Type 0) (w : World S Request Reply)
    (w' : World S Request Reply) : Type 0 where
  start :
      (p : Prog S Request Reply)
      → Event w.state p
      → w' ≡ resume p w.state w.waiting
      → Turn Event w w'
  answer :
      (r : Request) (k : Outcome (Reply r) → Prog S Request Reply) (a : Outcome (Reply r))
      (rest : List (Prog S Request Reply))
      → Pick (call r k) w.waiting rest
      → w' ≡ resume (k a) w.state rest
      → Turn Event w w'
  fire :
      (n : ℕ) (p : Prog S Request Reply) (rest : List (Prog S Request Reply))
      → Pick (timeout n p) w.waiting rest
      → w' ≡ resume p w.state rest
      → Turn Event w w'

-- Any number of turns.
pub data Reach {S : Type 0} {Request : Type 0} {Reply : Request → Type 0}
    (Event : S → Prog S Request Reply → Type 0) (w : World S Request Reply)
    : World S Request Reply → Type 0 where
  none_yet : Reach Event w w
  turn : {u v : World S Request Reply} → Reach Event w u → Turn Event u v → Reach Event w v
