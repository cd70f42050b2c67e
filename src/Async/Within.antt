-- ===== src/Async/Within.antt =====
-- What a handler may do at all: every request that it sends satisfies `Q`, and every write takes the
-- state to one that stands in `R` to it. Both hold in every interleaving of such handlers.
use infinite_image_hosting.Prelude.{
  ℕ, ◌≡◌, refl, Bool, true, false, if◌then◌else◌, Option, none, some, if_some, List, ◌++◌, All,
  All-append,
}
use infinite_image_hosting.Async.Program.{
  Outcome, ok, fail, Thrown, Prog, stop, modify, read, call, timeout, fork, Async, pure, throw,
  set_state, get_state, fetch, try_catch, try_finally, run, detach, set_timeout, ◌>>=◌, ◌>>◌,
}
use infinite_image_hosting.Async.Safe.{Keeps, SafeTo, SafeTo-weaken}
use infinite_image_hosting.Async.Loop.{
  run_sync, World, Pick, here, there, Turn, start, answer, fire, Reach, none_yet, turn,
}

module _ {S : Type 0} {Request : Type 0} {Reply : Request → Type 0} (Q : Request → Type 0)
    (R : S → S → Type 0) where
  abbrev pub Within : Prog S Request Reply → Type 0
  Within stop = Unit
  Within (modify f p) = ((s : S) → R s (f s)) × Within p
  Within (read f) = (s : S) → Within (f s)
  Within (call r k) = Q r × ((a : Outcome (Reply r)) → Within (k a))
  Within (timeout n p) = Within p
  Within (fork p q) = Within p × Within q

  -- `m` stays within `Q` and `R` whatever runs after it, as long as that does.
  pub record Stays {A : Type 0} (m : Async S Request Reply A) : Type 0 where
    pub at :
        (k : A → Prog S Request Reply) (e : Thrown → Prog S Request Reply)
        → ((a : A) → Within (k a))
        → ((x : Thrown) → Within (e x))
        → Within (m k e)

module _ {S : Type 0} {Request : Type 0} {Reply : Request → Type 0} {Q : Request → Type 0}
    {R : S → S → Type 0} where
  pub Stays-pure : {A : Type 0} (a : A) → Stays Q R (pure {Reply = Reply} a)
  Stays-pure a = record { at = λ k e hk he. hk a }

  pub Stays-throw : {A : Type 0} (x : Thrown) → Stays Q R (throw {Reply = Reply} {A = A} x)
  Stays-throw x = record { at = λ k e hk he. he x }

  pub Stays-set_state :
      (f : S → S) → ((s : S) → R s (f s)) → Stays Q R (set_state {Reply = Reply} f)
  Stays-set_state f keep = record { at = λ k e hk he. (keep, hk tt) }

  pub Stays-fetch : (r : Request) → Q r → Stays Q R (fetch {S = S} {Reply = Reply} r)
  Stays-fetch r good = record { at = λ k e hk he. (good, elim [ ok a ↦ hk a | fail x ↦ he x ]) }

  pub Stays-get_state : Stays Q R (get_state {S = S} {Reply = Reply})
  Stays-get_state = record { at = λ k e hk he. hk }

  pub Stays-try_catch :
      {A : Type 0} (m : Async S Request Reply A) (h : Thrown → Async S Request Reply A)
      → Stays Q R m
      → ((x : Thrown) → Stays Q R (h x))
      → Stays Q R (try_catch m h)
  Stays-try_catch m h hm hh = record {
    at = λ k e hk he. hm.at k (λ x. h x k e) hk (λ x. (hh x).at k e hk he);
  }

  pub Stays-try_finally :
      {A : Type 0} (m : Async S Request Reply A) (f : Async S Request Reply (Unit {0}))
      → Stays Q R m
      → Stays Q R f
      → Stays Q R (try_finally m f)
  Stays-try_finally m f hm hf = record {
    at = λ k e hk he.
        hm.at (λ a. f (λ _. k a) e) (λ x. f (λ _. e x) e) (λ a. hf.at (λ _. k a) e (λ _. hk a) he)
          (λ x. hf.at (λ _. e x) e (λ _. he x) he);
  }

  pub Stays-bind :
      {A B : Type 0} (m : Async S Request Reply A) (f : A → Async S Request Reply B)
      → Stays Q R m
      → ((a : A) → Stays Q R (f a))
      → Stays Q R (m >>= f)
  Stays-bind m f hm hf = record {
    at = λ k e hk he. hm.at (λ a. f a k e) e (λ a. (hf a).at k e hk he) he;
  }

  pub Stays-then :
      {B : Type 0} (m : Async S Request Reply (Unit {0})) (n : Async S Request Reply B)
      → Stays Q R m
      → Stays Q R n
      → Stays Q R (m >> n)
  Stays-then m n hm hn = record { at = λ k e hk he. hm.at (λ _. n k e) e (λ _. hn.at k e hk he) he }

  -- A handler started on its own.
  pub Stays-run : {m : Async S Request Reply (Unit {0})} → Stays Q R m → Within Q R (run m)
  Stays-run {m} hm = hm.at (λ _. Prog.stop) (λ _. Prog.stop) (λ _. tt) (λ _. tt)

  pub Stays-detach : (m : Async S Request Reply (Unit {0})) → Stays Q R m → Stays Q R (detach m)
  Stays-detach m hm = record { at = λ k e hk he. (Stays-run hm, hk tt) }

  pub Stays-set_timeout :
      (ms : ℕ) (m : Async S Request Reply (Unit {0})) → Stays Q R m → Stays Q R (set_timeout ms m)
  Stays-set_timeout ms m hm = record { at = λ k e hk he. (Stays-run hm, hk tt) }

  pub Stays-if :
      {A : Type 0} (b : Bool) (m n : Async S Request Reply A)
      → (b ≡ true → Stays Q R m)
      → (b ≡ false → Stays Q R n)
      → Stays Q R (if b then m else n)
  Stays-if true m n hm hn = hm refl
  Stays-if false m n hm hn = hn refl

  pub Stays-if_some :
      {A B : Type 0} (o : Option B) (m : Async S Request Reply A) (f : B → Async S Request Reply A)
      → Stays Q R m
      → ((b : B) → Stays Q R (f b))
      → Stays Q R (if_some o m f)
  Stays-if_some none m f hm hf = hm
  Stays-if_some (some b) m f hm hf = hf b

-- The same with less asked of the requests and of the writes.
module _ {S : Type 0} {Request : Type 0} {Reply : Request → Type 0} (Q : Request → Type 0)
    (R R' : S → S → Type 0) (weaker : (s t : S) → R s t → R' s t) where
  pub Within-weaken : (p : Prog S Request Reply) → Within Q R p → Within Q R' p
  Within-weaken stop h = tt
  Within-weaken (modify f p) h = ((λ s. weaker s (f s) (h.0 s)), Within-weaken p h.1)
  Within-weaken (read f) h = λ s. Within-weaken (f s) (h s)
  Within-weaken (call r k) h = (h.0, λ a. Within-weaken (k a) (h.1 a))
  Within-weaken (timeout n p) h = Within-weaken p h
  Within-weaken (fork p q) h = (Within-weaken p h.0, Within-weaken q h.1)

module _ {S : Type 0} {Request : Type 0} {Reply : Request → Type 0} (Q : Request → Type 0)
    (R : S → S → Type 0) (refl_lem : (s : S) → R s s)
    (trans_lem : (s t u : S) → R s t → R t u → R s u) where
  run_sync-Within :
      (p : Prog S Request Reply) (s : S)
      → Within Q R p
      → R s (run_sync p s).0 × All (Within Q R) (run_sync p s).1
  unfolding run_sync
  run_sync-Within stop s h = (refl_lem s, tt)
  run_sync-Within (modify f p) s h =
      let (moved, ws) = run_sync-Within p (f s) h.1 in
      (trans_lem s (f s) (run_sync p (f s)).0 (h.0 s) moved, ws)
  run_sync-Within (read f) s h = run_sync-Within (f s) s (h s)
  run_sync-Within (call r k) s h = (refl_lem s, (h, tt))
  run_sync-Within (timeout n p) s h = (refl_lem s, (h, tt))
  run_sync-Within (fork p q) s h =
      let t = (run_sync p s).0 in
      let (first, ps) = run_sync-Within p s h.0 in
      let (second, qs) = run_sync-Within q t h.1 in
      (
        trans_lem s t (run_sync q t).0 first second,
        All-append (Within Q R) (run_sync p s).1 (run_sync q t).1 ps qs,
      )

  All-Pick :
      {p : Prog S Request Reply} {ws rest : List (Prog S Request Reply)}
      → Pick p ws rest
      → All (Within Q R) ws
      → Within Q R p × All (Within Q R) rest
  All-Pick here h = h
  All-Pick (there pick) h = let (hp, hr) = All-Pick pick h.1 in (hp, (h.0, hr))

  resume-Within :
      (p : Prog S Request Reply) (s : S) (rest : List (Prog S Request Reply))
      → Within Q R p
      → All (Within Q R) rest
      → R s (run_sync p s).0 × All (Within Q R) (rest ++ (run_sync p s).1)
  resume-Within p s rest hp hr =
      let (moved, ws) = run_sync-Within p s hp in
      (moved, All-append (Within Q R) rest (run_sync p s).1 hr ws)

  module _ (Event : S → Prog S Request Reply → Type 0)
      (event_within : (s : S) (p : Prog S Request Reply) → Event s p → Within Q R p) where
    -- One turn of the loop moves the state along `R`, and what waits stays within `Q` and `R`.
    pub Turn-Within :
        {w w' : World S Request Reply}
        → Turn Event w w'
        → All (Within Q R) w.waiting
        → R w.state w'.state × All (Within Q R) w'.waiting
    Turn-Within {w} (start p e eq) h =
        rw eq (resume-Within p w.state w.waiting (event_within w.state p e) h)
    Turn-Within {w} (answer r k a rest pick eq) h =
        let (hp, hr) = All-Pick pick h in rw eq (resume-Within (k a) w.state rest (hp.1 a) hr)
    Turn-Within {w} (fire n p rest pick eq) h =
        let (hp, hr) = All-Pick pick h in rw eq (resume-Within p w.state rest hp hr)

    -- So do any number of turns.
    pub Reach-Within :
        {w w' : World S Request Reply}
        → All (Within Q R) w.waiting
        → Reach Event w w'
        → R w.state w'.state × All (Within Q R) w'.waiting
    Reach-Within {w} h none_yet = (refl_lem w.state, h)
    Reach-Within {w} {w'} h (turn {u} r t) =
        let (first, hu) = Reach-Within h r in
        let (second, hw) = Turn-Within t hu in (trans_lem w.state u.state w'.state first second, hw)

-- A handler whose writes keep `P` keeps it wherever it can be interrupted.
module _ {S : Type 0} {Request : Type 0} {Reply : Request → Type 0} (Q : Request → Type 0)
    (R : S → S → Type 0) (P : S → Type 0) (kept : (s t : S) → R s t → P s → P t) where
  pub Within-Keeps : (p : Prog S Request Reply) → Within Q R p → Keeps P p
  Within-Keeps stop h s hs = hs
  Within-Keeps (modify f p) h s hs = Within-Keeps p h.1 (f s) (kept s (f s) (h.0 s) hs)
  Within-Keeps (read f) h s hs = Within-Keeps (f s) (h s) s hs
  Within-Keeps (call r k) h s hs = (hs, λ a t ht. Within-Keeps (k a) (h.1 a) t ht)
  Within-Keeps (timeout n p) h s hs = (hs, λ t ht. Within-Keeps p h t ht)
  Within-Keeps (fork p q) h s hs =
      SafeTo-weaken P p s P (λ t. SafeTo P q t P) (λ t ht. Within-Keeps q h.1 t ht)
        (Within-Keeps p h.0 s hs)
