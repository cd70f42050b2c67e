-- ===== src/UserWeb/Requests.antt =====
-- What a user must have done before the page sends a request that cannot be taken back.
pub mod App
pub mod Views
pub mod Panels
pub mod Starts
use infinite_image_hosting.Prelude.{◌≡◌, refl, Bool, true, false, not}
use infinite_image_hosting.Async.Program.{fetch, set_state}
use infinite_image_hosting.Async.Within.{
  Within, Stays, Stays-set_state, Stays-fetch, Stays-bind, Stays-detach, Stays-if, Stays-if_some,
  Stays-then, Stays-throw, Stays-pure, Stays-try_catch, Stays-try_finally, Stays-set_timeout,
}
use infinite_image_hosting.UserWeb.Types.{User}
use infinite_image_hosting.UserWeb.Http.{
  Request, Reply, delete_image, request_destroy, create_api_key,
}
use infinite_image_hosting.UserWeb.Page.{Page, Running}

-- An image is deleted and the destruction of the account is asked for only where the user has
-- confirmed it, and a key is created only where the user's mail address is verified.
abbrev pub Allowed : User → (confirmed : Bool) → Request → Type 0
Allowed user confirmed (delete_image public_id token) = confirmed ≡ true
Allowed user confirmed (request_destroy reason token) = confirmed ≡ true
Allowed user confirmed (create_api_key token) = user.email_verified ≡ true
Allowed user confirmed _ = Unit

abbrev pub Free : Page → Page → Type 0
Free s t = Unit

-- Whatever the server answers and whenever, a handler sends allowed requests only.
pub record Sends (user : User) (confirmed : Bool) (p : Running) : Type 0 where
  pub within : Within (Allowed user confirmed) Free p

module _ {Q : Request → Type 0} where
  pub Stays-write :
      (f : Page → Page) → Stays Q Free (set_state {Request = Request} {Reply = Reply} f)
  Stays-write f = Stays-set_state f (λ s. tt)

  pub Stays-call : (r : Request) → Q r → Stays Q Free (fetch {S = Page} {Reply = Reply} r)
  Stays-call r allowed = Stays-fetch r allowed

pub yes : (b : Bool) → not b ≡ false → b ≡ true
yes true e = refl
yes false e = cc e

pub ruleset steps = (
  Stays-write, Stays-bind, Stays-detach, Stays-if, Stays-if_some, Stays-then, Stays-throw,
  Stays-pure, Stays-try_catch, Stays-try_finally, Stays-set_timeout, Stays-call,
)
