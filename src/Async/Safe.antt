-- ===== src/Async/Safe.antt =====
-- Invariants of the event loop: what a handler must keep at each point where it can be interrupted,
-- and that every interleaving of such handlers keeps it.
use infinite_image_hosting.Prelude.{List, ◌++◌, All, All-append}
use infinite_image_hosting.Async.Program.{Outcome, Prog, stop, modify, read, call, timeout, fork}
use infinite_image_hosting.Async.Loop.{
  run_sync, World, Pick, here, there, Turn, start, answer, fire, Reach, none_yet, turn,
}

module _ {S : Type 0} {Request : Type 0} {Reply : Request → Type 0} (P : S → Type 0) where
  -- `p` runs without interruption from `s` to a state where `K` holds, and what is left waiting
  -- keeps `P` from whatever state with `P` it is resumed in.
  abbrev pub SafeTo : Prog S Request Reply → S → (S → Type 0) → Type 0
  SafeTo stop s K = K s
  SafeTo (modify f p) s K = SafeTo p (f s) K
  SafeTo (read f) s K = SafeTo (f s) s K
  SafeTo (call r k) s K = K s × ((a : Outcome (Reply r)) (t : S) → P t → SafeTo (k a) t P)
  SafeTo (timeout n p) s K = K s × ((t : S) → P t → SafeTo p t P)
  SafeTo (fork p q) s K = SafeTo p s (λ t. SafeTo q t K)

  -- A program that keeps `P` from every state that has it.
  abbrev pub Keeps : Prog S Request Reply → Type 0
  Keeps p = (s : S) → P s → SafeTo p s P

  -- What runs next may ask for less than what was reached.
  pub SafeTo-weaken :
      (p : Prog S Request Reply) (s : S) (K L : S → Type 0)
      → ((t : S) → K t → L t)
      → SafeTo p s K
      → SafeTo p s L
  SafeTo-weaken stop s K L f h = f s h
  SafeTo-weaken (modify g p) s K L f h = SafeTo-weaken p (g s) K L f h
  SafeTo-weaken (read g) s K L f h = SafeTo-weaken (g s) s K L f h
  SafeTo-weaken (call r k) s K L f h = (f s h.0, h.1)
  SafeTo-weaken (timeout n p) s K L f h = (f s h.0, h.1)
  SafeTo-weaken (fork p q) s K L f h =
      SafeTo-weaken p s (λ t. SafeTo q t K) (λ t. SafeTo q t L) (λ t. SafeTo-weaken q t K L f) h

  run_sync-SafeTo :
      (p : Prog S Request Reply) (s : S) (K : S → Type 0)
      → SafeTo p s K
      → K (run_sync p s).0 × All Keeps (run_sync p s).1
  unfolding run_sync
  run_sync-SafeTo stop s K h = (h, tt)
  run_sync-SafeTo (modify f p) s K h = run_sync-SafeTo p (f s) K h
  run_sync-SafeTo (read f) s K h = run_sync-SafeTo (f s) s K h
  run_sync-SafeTo (call r k) s K h = (h.0, ((λ t pt. (pt, h.1)), tt))
  run_sync-SafeTo (timeout n p) s K h = (h.0, ((λ t pt. (pt, h.1)), tt))
  run_sync-SafeTo (fork p q) s K h =
      let (hq, ps) = run_sync-SafeTo p s (λ t. SafeTo q t K) h in
      let (hk, qs) = run_sync-SafeTo q (run_sync p s).0 K hq in
      (hk, All-append Keeps (run_sync p s).1 (run_sync q (run_sync p s).0).1 ps qs)

  -- What an invariant of the whole loop says: it holds, and every waiting program keeps it.
  pub record IsSafe (w : World S Request Reply) : Type 0 where
    pub holds : P w.state
    pub waiting_keep : All Keeps w.waiting

  All-Pick :
      {p : Prog S Request Reply} {ws rest : List (Prog S Request Reply)}
      → Pick p ws rest
      → All Keeps ws
      → Keeps p × All Keeps rest
  All-Pick here h = h
  All-Pick (there pick) h = let (kp, kr) = All-Pick pick h.1 in (kp, (h.0, kr))

  resume-IsSafe :
      (p : Prog S Request Reply) (s : S) (rest : List (Prog S Request Reply))
      → SafeTo p s P
      → All Keeps rest
      → IsSafe (record { state = (run_sync p s).0; waiting = rest ++ (run_sync p s).1 })
  resume-IsSafe p s rest h kr =
      let (hs, ks) = run_sync-SafeTo p s P h in
      record { holds = hs; waiting_keep = All-append Keeps rest (run_sync p s).1 kr ks }

  module _ (Event : S → Prog S Request Reply → Type 0)
      (event_keeps : (s : S) (p : Prog S Request Reply) → Event s p → P s → SafeTo p s P) where
    Turn-IsSafe : {w w' : World S Request Reply} → Turn Event w w' → IsSafe w → IsSafe w'
    Turn-IsSafe {w} (start p e eq) h =
        rw eq (resume-IsSafe p w.state w.waiting (event_keeps w.state p e h.holds) h.waiting_keep)
    Turn-IsSafe {w} (answer r k a rest pick eq) h =
        let (kp, kr) = All-Pick pick h.waiting_keep in
        rw eq (resume-IsSafe (k a) w.state rest ((kp w.state h.holds).1 a w.state h.holds) kr)
    Turn-IsSafe {w} (fire n p rest pick eq) h =
        let (kp, kr) = All-Pick pick h.waiting_keep in
        rw eq (resume-IsSafe p w.state rest ((kp w.state h.holds).1 w.state h.holds) kr)

    -- If every handler that the page may start keeps `P`, so does every interleaving of handlers.
    pub Reach-IsSafe : {w w' : World S Request Reply} → IsSafe w → Reach Event w w' → IsSafe w'
    Reach-IsSafe h none_yet = h
    Reach-IsSafe h (turn r t) = Turn-IsSafe t (Reach-IsSafe h r)
