-- ===== src/Async/Lands.antt =====
-- How a handler ends: every way through it comes to its `finally`, whatever the server answers.
use infinite_image_hosting.Async.Program.{
  Outcome, ok, fail, Thrown, Prog, stop, Async, pure, throw, set_state, get_state, fetch, try_catch,
  try_finally, run, detach, ◌>>=◌, ◌>>◌,
}
use infinite_image_hosting.Async.Exec.{exec}

module _ {S : Type 0} {Request : Type 0} {Reply : Request → Type 0}
    (server : (r : Request) → Outcome (Reply r)) (meanwhile : S → S) (P : S → Type 0) where
  -- If what runs after `m` leads to `P` from every state, so does `m` with it.
  pub record Lands {A : Type 0} (m : Async S Request Reply A) : Type 0 where
    pub at :
        (k : A → Prog S Request Reply) (e : Thrown → Prog S Request Reply)
        → ((a : A) (s : S) → P (exec server meanwhile (k a) s))
        → ((x : Thrown) (s : S) → P (exec server meanwhile (e x) s))
        → (s : S) → P (exec server meanwhile (m k e) s)

  after_fetch :
      {A : Type 0} (o : Outcome A) (k : A → Prog S Request Reply)
      (e : Thrown → Prog S Request Reply)
      → ((a : A) (s : S) → P (exec server meanwhile (k a) s))
      → ((x : Thrown) (s : S) → P (exec server meanwhile (e x) s))
      → (s : S) → P (exec server meanwhile (elim o [ ok a ↦ k a | fail x ↦ e x ]) s)
  after_fetch (ok a) k e hk he s = hk a s
  after_fetch (fail x) k e hk he s = he x s

module _ {S : Type 0} {Request : Type 0} {Reply : Request → Type 0}
    {server : (r : Request) → Outcome (Reply r)} {meanwhile : S → S} {P : S → Type 0} where
  pub Lands-pure : {A : Type 0} (a : A) → Lands server meanwhile P (pure a)
  Lands-pure a = record { at = λ k e hk he s. hk a s }

  pub Lands-throw : {A : Type 0} (x : Thrown) → Lands server meanwhile P (throw {A = A} x)
  Lands-throw x = record { at = λ k e hk he s. he x s }

  pub Lands-set_state : (f : S → S) → Lands server meanwhile P (set_state f)
  Lands-set_state f = record { at = λ k e hk he s. hk tt (f s) }

  pub Lands-get_state : Lands server meanwhile P get_state
  Lands-get_state = record { at = λ k e hk he s. hk s s }

  pub Lands-fetch : (r : Request) → Lands server meanwhile P (fetch r)
  Lands-fetch r = record {
    at = λ k e hk he s. after_fetch server meanwhile P (server r) k e hk he (meanwhile s);
  }

  pub Lands-bind :
      {A B : Type 0} (m : Async S Request Reply A) (f : A → Async S Request Reply B)
      → Lands server meanwhile P m
      → ((a : A) → Lands server meanwhile P (f a))
      → Lands server meanwhile P (m >>= f)
  Lands-bind m f hm hf = record {
    at = λ k e hk he. hm.at (λ a. f a k e) e (λ a. (hf a).at k e hk he) he;
  }

  pub Lands-then :
      {B : Type 0} (m : Async S Request Reply (Unit {0})) (n : Async S Request Reply B)
      → Lands server meanwhile P m
      → Lands server meanwhile P n
      → Lands server meanwhile P (m >> n)
  Lands-then m n hm hn = record { at = λ k e hk he. hm.at (λ _. n k e) e (λ _. hn.at k e hk he) he }

  pub Lands-detach : (m : Async S Request Reply (Unit {0})) → Lands server meanwhile P (detach m)
  Lands-detach m = record { at = λ k e hk he s. hk tt (exec server meanwhile (run m) s) }

  pub Lands-try_catch :
      {A : Type 0} (m : Async S Request Reply A) (h : Thrown → Async S Request Reply A)
      → Lands server meanwhile P m
      → ((x : Thrown) → Lands server meanwhile P (h x))
      → Lands server meanwhile P (try_catch m h)
  Lands-try_catch m h hm hh = record {
    at = λ k e hk he. hm.at k (λ x. h x k e) hk (λ x. (hh x).at k e hk he);
  }

  -- A handler that ends in the write `f`, whatever happens before.
  pub ends_in :
      (m : Async S Request Reply (Unit {0})) (f : S → S)
      → Lands server meanwhile P m
      → ((s : S) → P (f s))
      → (s : S) → P (exec server meanwhile (run (try_finally m (set_state f))) s)
  ends_in m f hm final s =
      hm.at (λ _. Prog.modify f stop) (λ _. Prog.modify f stop) (λ _ t. final t) (λ _ t. final t) s
