-- ===== src/AdminWeb/Progress.antt =====
-- The buttons that a handler disables while it runs.
use infinite_image_hosting.Prelude.{
  ℕ, ◌≡◌, ◌≢◌, ◌⊎◌, inl, inr, refl, ◌==◌, String, str_eq, Bool, true, false, ◌||◌, some, arith,
  Bool-cases, if◌then◌else◌,
}
use infinite_image_hosting.Async.Program.{Outcome, Thrown, run}
use infinite_image_hosting.Async.Exec.{exec}
use infinite_image_hosting.Async.Lands.{
  Lands, Lands-pure, Lands-throw, Lands-set_state, Lands-get_state, Lands-fetch, Lands-bind,
  Lands-then, Lands-detach, Lands-try_catch, ends_in,
}
use infinite_image_hosting.AdminWeb.Calls.{Call, Request, Reply, Answer, unauthorized, accepted}
use infinite_image_hosting.AdminWeb.Format.{Numbers}
use infinite_image_hosting.AdminWeb.Text.{TextOps, blank}
use infinite_image_hosting.AdminWeb.Cells.{Views}
use infinite_image_hosting.AdminWeb.Rows.{OrderRow}
use infinite_image_hosting.AdminWeb.Page.{
  AdminPage, Handler, Running, set_views, caught, ensured, detach, ◌>>=◌, ◌>>◌,
}
use infinite_image_hosting.AdminWeb.Session.{admin_fetch, received, clear_admin_session}
use infinite_image_hosting.AdminWeb.Views.Users
use infinite_image_hosting.AdminWeb.Views.Plans
use infinite_image_hosting.AdminWeb.Views.HiddenPlans
use infinite_image_hosting.AdminWeb.Views.Orders
use infinite_image_hosting.AdminWeb.Views.Settings

-- In the state that a handler of the view with the mount `mount` leaves, the view is another one or
-- its cell `busy` is off.
abbrev pub Idle : (mount : ℕ) → (busy : Views → Bool) → AdminPage → Type 0
Idle mount busy t = (t.view_run ≢ mount) ⊎ (busy t.views ≡ false)

-- A handler that disables its buttons while it runs, past its guards, and the cell that it sets.
pub data Task (ops : TextOps) (numbers : Numbers) (seen : AdminPage)
    : (Views → Bool) → Running → Type 0 where
  purging :
      seen.views.settings.purging ≡ false
      → str_eq seen.views.settings.purge_confirm "PURGE" ≡ true
      → Task ops numbers seen (λ v. v.settings.purging) (run (Settings.purge_expired seen))
  saving :
      seen.views.plans.saving_plan ≡ false
      → Task ops numbers seen (λ v. v.plans.saving_plan) (run (Plans.save_plan ops numbers seen))
  granting :
      (blank ops seen.views.hidden.target || blank ops seen.views.hidden.reason) ≡ false
      → Task ops numbers seen
          (λ v. v.hidden.submitting)
          (run (HiddenPlans.grant_infinite_max ops numbers seen))
  acting :
      (target : OrderRow)
      → seen.views.orders.action_target ≡ some target
      → seen.views.orders.submitting_action ≡ false
      → Task ops numbers seen
          (λ v. v.orders.submitting_action)
          (run (Orders.submit_order_action ops seen))
  expiring :
      (user_id reason : String)
      → Task ops numbers seen (λ v. v.users.expiring) (run (Users.expire_task seen user_id reason))

module _ (server : (r : Request) → Outcome (Reply r)) (meanwhile : AdminPage → AdminPage) where
  module _ (P : AdminPage → Type 0) where
    Lands-wait :
        {A B : Type 0} (m : Handler A) (f : A → Handler B)
        → Lands server meanwhile P m
        → ((a : A) → Lands server meanwhile P (f a))
        → Lands server meanwhile P (m >>= f)
    unfolding ◌>>=◌
    Lands-wait m f hm hf = Lands-bind m f hm hf

    Lands-next :
        {B : Type 0} (m : Handler (Unit {0})) (n : Handler B)
        → Lands server meanwhile P m
        → Lands server meanwhile P n
        → Lands server meanwhile P (m >> n)
    unfolding ◌>>◌
    Lands-next m n hm hn = Lands-then m n hm hn

    Lands-void : (m : Handler (Unit {0})) → Lands server meanwhile P (detach m)
    unfolding detach
    Lands-void m = Lands-detach m

    Lands-caught :
        (m : Handler (Unit {0})) (h : Thrown → Handler (Unit {0}))
        → Lands server meanwhile P m
        → ((x : Thrown) → Lands server meanwhile P (h x))
        → Lands server meanwhile P (caught m h)
    unfolding caught
    Lands-caught m h hm hh = Lands-try_catch m h hm hh

    Lands-set_views : (mount : ℕ) (f : Views → Views) → Lands server meanwhile P (set_views mount f)
    unfolding set_views
    Lands-set_views mount f = Lands-set_state _

    Lands-received : {A : Type 0} (a : Answer A) → Lands server meanwhile P (received a)
    unfolding received clear_admin_session
    Lands-received (unauthorized message) = Lands-next _ _ (Lands-set_state _) (Lands-throw _)
    Lands-received (accepted value) = Lands-pure value

    Lands-admin_fetch : (c : Call) → Lands server meanwhile P (admin_fetch c)
    unfolding admin_fetch
    Lands-admin_fetch c =
        Lands-wait _ _ Lands-get_state (λ s. Lands-wait _ _ (Lands-fetch _) (λ a. Lands-received a))

    -- A task behind two writes, the second of which comes last.
    released :
        (m : Handler (Unit {0})) (mount : ℕ) (start final : Views → Views)
        → Lands server meanwhile P m
        → ((s : AdminPage) → s.view_run ≢ mount → P s)
        → ((s : AdminPage) → P (record s { views = final s.views }))
        → (s : AdminPage)
        → P (
            exec server meanwhile
              (run (set_views mount start >> ensured m (set_views mount final)))
              s)
    unfolding set_views ensured ◌>>◌
    released m mount start final hm left done s = ends_in m _ hm (λ t. final_write t) _
      where
        final_write :
            (t : AdminPage)
            → P (if t.view_run == mount then record t { views = final t.views } else t)
        final_write t = elim (Bool-cases (t.view_run == mount)) [
          | inl same ↦ rw same (done t)
          | inr other ↦ rw other (left t (ground arith))
        ]

  ruleset landing = (
    Lands-pure, Lands-wait, Lands-next, Lands-void, Lands-caught, Lands-set_views,
    Lands-admin_fetch,
  )

  module _ (ops : TextOps) (numbers : Numbers) (seen s : AdminPage) where
    purge_ends :
        seen.views.settings.purging ≡ false
        → str_eq seen.views.settings.purge_confirm "PURGE" ≡ true
        → Idle seen.view_run
            (λ v. v.settings.purging)
            (exec server meanwhile (run (Settings.purge_expired seen)) s)
    unfolding Settings.purge_expired
    purge_ends free typed =
        rw (free, typed)
          (released (Idle seen.view_run (λ v. v.settings.purging)) _ seen.view_run _ _
            (search landing depth 14) (λ t h. inl h) (λ t. inr refl) s)

    save_ends :
        seen.views.plans.saving_plan ≡ false
        → Idle seen.view_run
            (λ v. v.plans.saving_plan)
            (exec server meanwhile (run (Plans.save_plan ops numbers seen)) s)
    unfolding Plans.save_plan
    save_ends free = rw free (
        released (Idle seen.view_run (λ v. v.plans.saving_plan)) _ seen.view_run _ _
          (search landing depth 14) (λ t h. inl h) (λ t. inr refl) s)

    grant_ends :
        (blank ops seen.views.hidden.target || blank ops seen.views.hidden.reason) ≡ false
        → Idle seen.view_run
            (λ v. v.hidden.submitting)
            (exec server meanwhile (run (HiddenPlans.grant_infinite_max ops numbers seen)) s)
    unfolding HiddenPlans.grant_infinite_max
    grant_ends given = rw given (
        released (Idle seen.view_run (λ v. v.hidden.submitting)) _ seen.view_run _ _
          (search landing depth 14) (λ t h. inl h) (λ t. inr refl) s)

    order_ends :
        (target : OrderRow)
        → seen.views.orders.action_target ≡ some target
        → seen.views.orders.submitting_action ≡ false
        → Idle seen.view_run
            (λ v. v.orders.submitting_action)
            (exec server meanwhile (run (Orders.submit_order_action ops seen)) s)
    unfolding Orders.submit_order_action
    order_ends target present free =
        rw (present, free)
          (released (Idle seen.view_run (λ v. v.orders.submitting_action)) _ seen.view_run _ _
            (search landing depth 14) (λ t h. inl h) (λ t. inr refl) s)

    expiry_ends :
        (user_id reason : String)
        → Idle seen.view_run
            (λ v. v.users.expiring)
            (exec server meanwhile (run (Users.expire_task seen user_id reason)) s)
    unfolding Users.expire_task
    expiry_ends user_id reason =
        released (Idle seen.view_run (λ v. v.users.expiring)) _ seen.view_run _ _
          (search landing depth 14) (λ t h. inl h) (λ t. inr refl) s

    -- A purge, the save of a plan, the grant of the plan without limits, an action on an order and the
    -- forced end of a subscription, each begun on a page where its guards let it through, come to their
    -- end: whatever the server answers, a refusal and a lost connection included, and whatever other
    -- handlers do to the page while they wait, in the state that such a handler leaves either its view
    -- has been left or its buttons are enabled again.
    pub busy_buttons_come_back :
        {p : Running} {busy : Views → Bool}
        → Task ops numbers seen busy p
        → Idle seen.view_run busy (exec server meanwhile p s)
    busy_buttons_come_back (purging free typed) = purge_ends free typed
    busy_buttons_come_back (saving free) = save_ends free
    busy_buttons_come_back (granting given) = grant_ends given
    busy_buttons_come_back (acting target present free) = order_ends target present free
    busy_buttons_come_back (expiring user_id reason) = expiry_ends user_id reason
