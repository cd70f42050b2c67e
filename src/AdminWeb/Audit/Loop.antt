-- ===== src/AdminWeb/Audit/Loop.antt =====
-- The requests of the administrators' page, and its session, under every interleaving of handlers.
use infinite_image_hosting.Prelude.{
  String, ◌≡◌, refl, ◌⊎◌, inl, inr, Option, none, List, [], All, arith,
}
use infinite_image_hosting.Async.Program.{Outcome, ok, fail, call, run}
use infinite_image_hosting.Async.Loop.{World, Reach, Pick, here, there}
use infinite_image_hosting.Async.Safe.{Keeps, Reach-IsSafe}
use infinite_image_hosting.Async.Within.{
  Within, Stays-run, Within-weaken, Within-Keeps, Reach-Within,
}
use infinite_image_hosting.AdminWeb.Types.{AdminAccount}
use infinite_image_hosting.AdminWeb.Calls.{Request, Reply}
use infinite_image_hosting.AdminWeb.Format.{Numbers}
use infinite_image_hosting.AdminWeb.Text.{TextOps}
use infinite_image_hosting.AdminWeb.Page.{
  AdminPage, Running, put_admin, put_stored, ensured, ◌>>=◌, ◌>>◌,
}
use infinite_image_hosting.AdminWeb.Session
use infinite_image_hosting.AdminWeb.Events.{Visitor, Console, Event}
use infinite_image_hosting.AdminWeb.Events
use infinite_image_hosting.AdminWeb.Audit.{Audited, Ends, Free}
use infinite_image_hosting.AdminWeb.Audit.Actions.{Action-Within}
use infinite_image_hosting.AdminWeb.Audit.System
use infinite_image_hosting.AdminWeb.Audit.Gate

Visitor-Within : (s : AdminPage) (p : Running) → Visitor s p → Within Audited Free p
Visitor-Within s p Events.status = Stays-run (Gate.Stays-status_effect s)
Visitor-Within s p Events.submit = Stays-run (Gate.Stays-submit_current_step s)
Visitor-Within s p (Events.email text) = Stays-run (Gate.Stays-set_email s text)
Visitor-Within s p (Events.password text) = Stays-run (Gate.Stays-set_password s text)
Visitor-Within s p (Events.totp_code text) = Stays-run (Gate.Stays-set_totp_code s text)

Within-Free : (p : Running) → Within Audited Ends p → Within Audited Free p
Within-Free p h = Within-weaken Audited Ends Free (λ s t e. tt) p h

-- What holds wherever a session is kept or ends.
module _ (P : AdminPage → Type 0) (closed : (s t : AdminPage) → Ends s t → P s → P t) where
  Keeps-Within : (p : Running) → Within Audited Ends p → Keeps P p
  Keeps-Within p h = Within-Keeps Audited Ends P closed p h

  cleared : (s : AdminPage) → Ends s (put_admin none (put_admin none (put_stored none s)))
  unfolding put_admin
  cleared s = inr (ground arith)

  Keeps-logout : Keeps P (run Session.handle_logout)
  unfolding Session.handle_logout Session.clear_admin_session ensured ◌>>=◌ ◌>>◌
  Keeps-logout s h = (
    h,
    elim [
      | ok a ↦ (λ t ht. closed t _ (cleared t) ht)
      | fail x ↦ (λ t ht. closed t _ (cleared t) ht)
    ],
  )

  pub Console-Keeps :
      (ops : TextOps) (numbers : Numbers) (s : AdminPage) (p : Running)
      → Console ops numbers s p
      → Keeps P p
  Console-Keeps ops numbers s p Events.ready =
      Keeps-Within p (Stays-run (System.Stays-api_status_effect s))
  Console-Keeps ops numbers s p Events.logout = Keeps-logout
  Console-Keeps ops numbers s p (Events.route r) =
      Keeps-Within p (Stays-run (System.Stays-open_route s r))
  Console-Keeps ops numbers s p (Events.menu shown) =
      Keeps-Within p (Stays-run (System.Stays-set_mobile_menu s shown))
  Console-Keeps ops numbers s p (Events.action {r} at a) =
      Keeps-Within p (Action-Within ops numbers s r p a)

-- The session `admin`, `token` is whole or it is gone.
record IsWhole (admin : Option AdminAccount) (token : Option String) (s : AdminPage) : Type 0 where
  pub whole : ((s.admin ≡ admin) × (s.stored ≡ token)) ⊎ ((s.admin ≡ none) × (s.stored ≡ none))

Ends-IsWhole :
    (admin : Option AdminAccount) (token : Option String) (s t : AdminPage)
    → Ends s t
    → IsWhole admin token s
    → IsWhole admin token t
Ends-IsWhole admin token s t e h = record { whole = both e h.whole }
  where
    both :
        Ends s t
        → ((s.admin ≡ admin) × (s.stored ≡ token)) ⊎ ((s.admin ≡ none) × (s.stored ≡ none))
        → ((t.admin ≡ admin) × (t.stored ≡ token)) ⊎ ((t.admin ≡ none) × (t.stored ≡ none))
    both (inr gone) h = inr gone
    both (inl (a, b)) (inl (c, d)) = inl (cc (a, c), cc (b, d))
    both (inl (a, b)) (inr (c, d)) = inr (cc (a, c), cc (b, d))

-- From a page with nothing under way, whatever the administrator does in the console and in whatever
-- order the answers arrive, as long as nobody signs in and no other tab changes what is stored: the
-- account and the token are both what they were, or both are gone.
pub session_ends_whole :
    (ops : TextOps) (numbers : Numbers) {w w' : World AdminPage Request Reply}
    → w.waiting ≡ []
    → Reach (Console ops numbers) w w'
    → ((w'.state.admin ≡ w.state.admin) × (w'.state.stored ≡ w.state.stored))
      ⊎ ((w'.state.admin ≡ none) × (w'.state.stored ≡ none))
session_ends_whole ops numbers {w} {w'} idle reach =
    (Reach-IsSafe (IsWhole w.state.admin w.state.stored) (Console ops numbers)
      (λ s p e h.
        Console-Keeps (IsWhole w.state.admin w.state.stored)
          (Ends-IsWhole w.state.admin w.state.stored) ops numbers s p e s h)
      (record { holds = record { whole = inl (refl, refl) }; waiting_keep = rw idle tt })
      reach).holds.whole

Console-Within :
    (ops : TextOps) (numbers : Numbers) (s : AdminPage) (p : Running)
    → Console ops numbers s p
    → Within Audited Free p
Console-Within ops numbers s p Events.ready =
    Within-Free p (Stays-run (System.Stays-api_status_effect s))
Console-Within ops numbers s p Events.logout = Stays-run Gate.Stays-handle_logout
Console-Within ops numbers s p (Events.route r) =
    Within-Free p (Stays-run (System.Stays-open_route s r))
Console-Within ops numbers s p (Events.menu shown) =
    Within-Free p (Stays-run (System.Stays-set_mobile_menu s shown))
Console-Within ops numbers s p (Events.action {r} at a) =
    Within-Free p (Action-Within ops numbers s r p a)

Event-Within :
    (ops : TextOps) (numbers : Numbers) (s : AdminPage) (p : Running)
    → Event ops numbers s p
    → Within Audited Free p
Event-Within ops numbers s p (Events.gate out v) = Visitor-Within s p v
Event-Within ops numbers s p (Events.console admin signed c) = Console-Within ops numbers s p c
Event-Within ops numbers s p (Events.other_tab new_value e) =
    rw e (Stays-run (Gate.Stays-other_tab_writes new_value))
Event-Within ops numbers s p (Events.storage new_value e) =
    rw e (Stays-run (Gate.Stays-handle_storage new_value))

waiting-Audited :
    {r : Request} {k : Outcome (Reply r) → Running} {ws rest : List Running}
    → Pick (call r k) ws rest
    → All (Within Audited Free) ws
    → Audited r
waiting-Audited here h = h.0.0
waiting-Audited (there pick) h = waiting-Audited pick h.1

-- From a page where nothing is under way, in every state that any order of events and answers leads
-- to, each request under way is audited: a forced end of a subscription and an action on an order
-- carry a reason that is not empty; so does the grant of the plan without limits, which also has a
-- target; an invitation has a name and a plan; and no plan that is saved is hidden and for sale.
pub requests_give_reasons :
    (ops : TextOps) (numbers : Numbers) {w w' : World AdminPage Request Reply} (r : Request)
    (k : Outcome (Reply r) → Running) (rest : List Running)
    → w.waiting ≡ []
    → Reach (Event ops numbers) w w'
    → Pick (call r k) w'.waiting rest
    → Audited r
requests_give_reasons ops numbers {w} r k rest idle reach pick =
    waiting-Audited pick
      (Reach-Within Audited Free (λ s. tt) (λ s t u h i. tt) (Event ops numbers)
        (Event-Within ops numbers) (rw idle tt) reach).1
