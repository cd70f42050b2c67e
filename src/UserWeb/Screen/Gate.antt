-- ===== src/UserWeb/Screen/Gate.antt =====
-- Who gets to see the console.
use infinite_image_hosting.Prelude.{
  refl, ◌≡◌, ◌⊎◌, inl, inr, ◌↔◌, Option, none, some, if_some, arith,
}
use infinite_image_hosting.Async.Program.{Outcome, run}
use infinite_image_hosting.Async.Exec.{exec}
use infinite_image_hosting.UserWeb.Types.{View, landing, docs, auth, app, AppView, dashboard, User}
use infinite_image_hosting.UserWeb.Http.{Request, Reply}
use infinite_image_hosting.UserWeb.Page.{Page, show_toast}
use infinite_image_hosting.UserWeb.Screen.{screen, screen_of, auth_screen, console}
use infinite_image_hosting.UserWeb.App.Navigation.{navigate}

console_of :
    (v : View) (o : Option User) (u : User) (a : AppView)
    → (screen_of v o ≡ console u a)
      ↔ ((o ≡ some u) × ((v ≡ app a) ⊎ ((a ≡ dashboard) × ((v ≡ landing) ⊎ (v ≡ auth)))))
unfolding screen_of
console_of docs o u a =
    ((λ h. cc), λ h. elim h.1 [ inl e ↦ cc | inr d ↦ elim d.1 [ inl e ↦ cc | inr e ↦ cc ] ])
console_of landing none u a = ((λ h. cc), λ h. cc (h.0))
console_of auth none u a = ((λ h. cc), λ h. cc (h.0))
console_of (app b) none u a = ((λ h. cc), λ h. cc (h.0))
console_of landing (some x) u a =
    ((λ h. (cc, inr (cc, inl refl))), λ h. elim h.1 [ inl e ↦ cc | inr d ↦ cc (h.0, d.0) ])
console_of auth (some x) u a =
    ((λ h. (cc, inr (cc, inr refl))), λ h. elim h.1 [ inl e ↦ cc | inr d ↦ cc (h.0, d.0) ])
console_of (app b) (some x) u a = (
  (λ h. (cc, inl cc)),
  λ h. elim h.1 [ inl e ↦ cc (h.0, e) | inr d ↦ elim d.1 [ inl e ↦ cc | inr e ↦ cc ] ],
)

-- The console of a user with a view of it is on the screen exactly when that user is signed in and
-- the current view is that view, or the view is the dashboard and the current one is the landing or
-- the sign-in view.
pub screen-console_iff :
    (s : Page) (u : User) (a : AppView)
    → (screen s ≡ console u a) ↔ (
        (s.user ≡ some u)
        × ((s.current_view ≡ app a)
            ⊎ ((a ≡ dashboard) × ((s.current_view ≡ landing) ⊎ (s.current_view ≡ auth)))))
unfolding screen
screen-console_iff s u a = console_of s.current_view s.user u a

-- A navigation from the page on the screen leads a signed-in user to the view that was asked for,
-- and anybody else to the sign-in view, without a request.
pub navigate_gate :
    (server : (r : Request) → Outcome (Reply r)) (meanwhile : Page → Page) (s : Page) (a : AppView)
    → screen (exec server meanwhile (run (navigate s a)) s)
      ≡ if_some s.user auth_screen (λ u. console u a)
unfolding navigate show_toast screen
navigate_gate server meanwhile s a = ground arith
