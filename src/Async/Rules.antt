-- ===== src/Async/Rules.antt =====
-- One rule for each way to build a handler: a handler made of steps that keep an invariant keeps it
-- wherever it can be interrupted. The rules serve proof search.
use infinite_image_hosting.Prelude.{
  ℕ, ◌≡◌, refl, Bool, true, false, if◌then◌else◌, Option, none, some, if_some,
}
use infinite_image_hosting.Async.Program.{
  ok, fail, Thrown, Prog, Async, pure, throw, set_state, fetch, try_catch, try_finally, run, detach,
  set_timeout, ◌>>=◌, ◌>>◌,
}
use infinite_image_hosting.Async.Safe.{Keeps, SafeTo, SafeTo-weaken}

module _ {S : Type 0} {Request : Type 0} {Reply : Request → Type 0} (P : S → Type 0) where
  -- `m` keeps `P` whatever runs after it, as long as that keeps `P` too.
  pub record Holds {A : Type 0} (m : Async S Request Reply A) : Type 0 where
    pub at :
        (k : A → Prog S Request Reply) (e : Thrown → Prog S Request Reply)
        → ((a : A) → Keeps P (k a))
        → ((x : Thrown) → Keeps P (e x))
        → Keeps P (m k e)

module _ {S : Type 0} {Request : Type 0} {Reply : Request → Type 0} {P : S → Type 0} where
  pub Holds-pure : {A : Type 0} (a : A) → Holds P (pure {Reply = Reply} a)
  Holds-pure a = record { at = λ k e hk he. hk a }

  pub Holds-throw : {A : Type 0} (x : Thrown) → Holds P (throw {Reply = Reply} {A = A} x)
  Holds-throw x = record { at = λ k e hk he. he x }

  pub Holds-set_state :
      (f : S → S) → ((s : S) → P s → P (f s)) → Holds P (set_state {Reply = Reply} f)
  Holds-set_state f keep = record { at = λ k e hk he s h. hk tt (f s) (keep s h) }

  pub Holds-fetch : (r : Request) → Holds P (fetch {S = S} {Reply = Reply} r)
  Holds-fetch r = record {
    at = λ k e hk he s h. (h, elim [ ok a ↦ (λ t ht. hk a t ht) | fail x ↦ (λ t ht. he x t ht) ]);
  }

  pub Holds-try_catch :
      {A : Type 0} (m : Async S Request Reply A) (h : Thrown → Async S Request Reply A)
      → Holds P m
      → ((x : Thrown) → Holds P (h x))
      → Holds P (try_catch m h)
  Holds-try_catch m h hm hh = record {
    at = λ k e hk he. hm.at k (λ x. h x k e) hk (λ x. (hh x).at k e hk he);
  }

  pub Holds-try_finally :
      {A : Type 0} (m : Async S Request Reply A) (f : Async S Request Reply (Unit {0}))
      → Holds P m
      → Holds P f
      → Holds P (try_finally m f)
  Holds-try_finally m f hm hf = record {
    at = λ k e hk he.
        hm.at (λ a. f (λ _. k a) e) (λ x. f (λ _. e x) e) (λ a. hf.at (λ _. k a) e (λ _. hk a) he)
          (λ x. hf.at (λ _. e x) e (λ _. he x) he);
  }

  pub Holds-bind :
      {A B : Type 0} (m : Async S Request Reply A) (f : A → Async S Request Reply B)
      → Holds P m
      → ((a : A) → Holds P (f a))
      → Holds P (m >>= f)
  Holds-bind m f hm hf = record {
    at = λ k e hk he. hm.at (λ a. f a k e) e (λ a. (hf a).at k e hk he) he;
  }

  pub Holds-then :
      {B : Type 0} (m : Async S Request Reply (Unit {0})) (n : Async S Request Reply B)
      → Holds P m
      → Holds P n
      → Holds P (m >> n)
  Holds-then m n hm hn = record { at = λ k e hk he. hm.at (λ _. n k e) e (λ _. hn.at k e hk he) he }

  -- A handler started on its own.
  pub Holds-run : {m : Async S Request Reply (Unit {0})} → Holds P m → Keeps P (run m)
  Holds-run {m} hm = hm.at (λ _. Prog.stop) (λ _. Prog.stop) (λ _ s h. h) (λ _ s h. h)

  pub Holds-detach : (m : Async S Request Reply (Unit {0})) → Holds P m → Holds P (detach m)
  Holds-detach m hm = record {
    at = λ k e hk he s h.
        SafeTo-weaken P (run m) s P (λ t. SafeTo P (k tt) t P) (λ t. hk tt t) (Holds-run hm s h);
  }

  pub Holds-set_timeout :
      (n : ℕ) (m : Async S Request Reply (Unit {0})) → Holds P m → Holds P (set_timeout n m)
  Holds-set_timeout n m hm = record { at = λ k e hk he s h. (hk tt s h, Holds-run hm) }

  pub Holds-if :
      {A : Type 0} (b : Bool) (m n : Async S Request Reply A)
      → (b ≡ true → Holds P m)
      → (b ≡ false → Holds P n)
      → Holds P (if b then m else n)
  Holds-if true m n hm hn = hm refl
  Holds-if false m n hm hn = hn refl

  pub Holds-if_some :
      {A B : Type 0} (o : Option B) (m : Async S Request Reply A) (f : B → Async S Request Reply A)
      → Holds P m
      → ((b : B) → Holds P (f b))
      → Holds P (if_some o m f)
  Holds-if_some none m f hm hf = hm
  Holds-if_some (some b) m f hm hf = hf b

pub ruleset holds_rules = (
  Holds-pure, Holds-throw, Holds-fetch, Holds-try_catch, Holds-try_finally, Holds-bind, Holds-then,
  Holds-detach, Holds-set_timeout, Holds-if, Holds-if_some,
)
