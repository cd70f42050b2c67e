-- ===== src/Async/Program.antt =====
-- JavaScript's asynchronous handlers: `async` functions, promises, `try`, `void p` and `setTimeout`,
-- over a shared state that other handlers may change while one waits.
-- A handler is a program in continuation-passing style, which is what a promise chain is. It runs
-- without interruption up to the point where it waits; what is left then waits in the event loop.
use infinite_image_hosting.Prelude.{◌≡◌, refl, ◌⊎◌, inl, inr, ℕ, String}

-- What a `catch` clause receives: `error instanceof Error`, with its message, or another value.
pub data Thrown : Type 0 where
  error : String → Thrown
  other : Thrown

-- `error instanceof Error ? error.message : fallback`
abbrev pub message_or : String → Thrown → String
message_or fallback (error m) = m
message_or fallback other = fallback

-- What a call of the server ends in, as its caller sees it.
pub data Outcome (A : Type 0) : Type 0 where
  ok : A → Outcome A
  fail : Thrown → Outcome A

pub Outcome-cases :
    {A : Type 0} (o : Outcome A) → ((a : A) × (o ≡ ok a)) ⊎ ((x : Thrown) × (o ≡ fail x))
Outcome-cases (ok a) = inl (a, refl)
Outcome-cases (fail x) = inr (x, refl)

module _ (S : Type 0) (Request : Type 0) (Reply : Request → Type 0) where
  -- The rest of a running handler.
  pub data Prog : Type 0 where
    stop : Prog
    modify : (S → S) → Prog → Prog
    read : (S → Prog) → Prog
    call : (r : Request) → (Outcome (Reply r) → Prog) → Prog
    timeout : ℕ → Prog → Prog
    fork : Prog → Prog → Prog

  -- `Promise<A>`: a handler that hands its value, or what it throws, to the rest.
  abbrev pub Async : Type 0 → Type 0
  Async A = (A → Prog) → (Thrown → Prog) → Prog

module _ {S : Type 0} {Request : Type 0} {Reply : Request → Type 0} where
  abbrev pub pure : {A : Type 0} → A → Async S Request Reply A
  pure a k e = k a

  abbrev pub throw : {A : Type 0} → Thrown → Async S Request Reply A
  throw x k e = e x

  infixl 5 ◌>>=◌ ◌>>◌
  abbrev pub ◌>>=◌ :
      {A B : Type 0}
      → Async S Request Reply A
      → (A → Async S Request Reply B)
      → Async S Request Reply B
  ◌>>=◌ m f k e = m (λ a. f a k e) e

  abbrev pub ◌>>◌ :
      {B : Type 0}
      → Async S Request Reply (Unit {0})
      → Async S Request Reply B
      → Async S Request Reply B
  ◌>>◌ m n k e = m (λ _. n k e) e

  -- The setters of the program's state: `setX(v)`, `setX((x) => …)`, `localStorage.setItem(k, v)`.
  abbrev pub set_state : (S → S) → Async S Request Reply (Unit {0})
  set_state f k e = modify f (k tt)

  abbrev pub get_state : Async S Request Reply S
  get_state k e = read k

  -- `await apiFetch(r)`
  abbrev pub fetch : (r : Request) → Async S Request Reply (Reply r)
  fetch r k e = call r (elim [ ok a ↦ k a | fail x ↦ e x ])

  -- `try { m } catch (x) { h(x) }`
  abbrev pub try_catch :
      {A : Type 0}
      → Async S Request Reply A
      → (Thrown → Async S Request Reply A)
      → Async S Request Reply A
  try_catch m h k e = m k (λ x. h x k e)

  -- `try { m } finally { f }`
  abbrev pub try_finally :
      {A : Type 0}
      → Async S Request Reply A
      → Async S Request Reply (Unit {0})
      → Async S Request Reply A
  try_finally m f k e = m (λ a. f (λ _. k a) e) (λ x. f (λ _. e x) e)

  -- A handler on its own: what it throws is an unhandled rejection, which changes no state.
  abbrev pub run : Async S Request Reply (Unit {0}) → Prog S Request Reply
  run m = m (λ _. stop) (λ _. stop)

  -- `void m`, or a promise chain that nobody awaits
  abbrev pub detach : Async S Request Reply (Unit {0}) → Async S Request Reply (Unit {0})
  detach m k e = fork (run m) (k tt)

  -- `setTimeout(() => m, ms)`
  abbrev pub set_timeout : ℕ → Async S Request Reply (Unit {0}) → Async S Request Reply (Unit {0})
  set_timeout ms m k e = fork (timeout ms (run m)) (k tt)
