-- ===== src/UserWeb/Session/Ends.antt =====
-- How a session ends: by the user, by a failed check, and the races with what is still waiting.
use infinite_image_hosting.Prelude.{
  List, ◌≡◌, ◌≢◌, true, false, ◌==◌, ◌+◌, truthy, none, some, arith, map, get_or,
}
use infinite_image_hosting.Async.Program.{Outcome, ok, fail, Thrown, run}
use infinite_image_hosting.Async.Exec.{exec}
use infinite_image_hosting.UserWeb.Types.{docs, dashboard, ApiImage}
use infinite_image_hosting.UserWeb.Mapping.{Env, map_user, map_image}
use infinite_image_hosting.UserWeb.Http
use infinite_image_hosting.UserWeb.Http.{Request, Reply, Me}
use infinite_image_hosting.UserWeb.Page.{Page, no_usage, show_toast}
use infinite_image_hosting.UserWeb.Screen.{console, active_app_view, screen, landing_screen}
use infinite_image_hosting.UserWeb.App.Effects.{session_effect}
use infinite_image_hosting.UserWeb.App.Account.{handle_logout, refresh_account}

-- The page as a run of the session effect leaves it when it starts to wait.
abbrev pub begun : Page → Page → Page
begun seen s = record s { session_run = seen.session_run + 1 }

module _ (env : Env) (server : (r : Request) → Outcome (Reply r)) (meanwhile : Page → Page) where
  -- A session check, started with a token, whose request for the account fails removes the token that
  -- the page and the browser hold when the answer comes, whatever other handlers did while it waited, a
  -- newer sign-in included, and leaves the user and the images that they left.
  pub failed_check_ends_any_session :
      (seen s : Page) (x : Thrown)
      → truthy seen.token ≡ true
      → server (Http.get_me seen.token) ≡ fail x
      → let before = meanwhile (begun seen s) in
        let after = exec server meanwhile (run (session_effect env seen)) s in
        (after.token ≡ "")
        × (after.browser.stored_token ≡ none)
        × (after.user ≡ before.user)
        × (after.images ≡ before.images)
  unfolding session_effect
  failed_check_ends_any_session seen s x live failed = ground arith

  -- A session check, started with a token, whose run is no longer the live one changes nothing when
  -- both its requests succeed: the page is what the other handlers made of it.
  pub stale_check_changes_nothing :
      (seen s : Page) (me : Me) (image_list : List ApiImage)
      → truthy seen.token ≡ true
      → server (Http.get_me seen.token) ≡ ok me
      → server (Http.list_images seen.token) ≡ ok image_list
      → ((meanwhile (meanwhile (begun seen s))).session_run == seen.session_run + 1) ≡ false
      → exec server meanwhile (run (session_effect env seen)) s
        ≡ meanwhile (meanwhile (begun seen s))
  unfolding session_effect
  stale_check_changes_nothing seen s me image_list live me_ok list_ok newer = ground arith

  -- A session check, started with a token, whose run is still live when both its requests have
  -- succeeded, while the documents are not shown, signs its user in, with the usage and the images
  -- that the server sent, and keeps the token. The console is then on the screen: at the dashboard, if
  -- the landing or the sign-in view was the current one, and else at the current view.
  pub live_check_signs_in :
      (seen s : Page) (me : Me) (image_list : List ApiImage)
      → truthy seen.token ≡ true
      → server (Http.get_me seen.token) ≡ ok me
      → server (Http.list_images seen.token) ≡ ok image_list
      → ((meanwhile (meanwhile (begun seen s))).session_run == seen.session_run + 1) ≡ true
      → (meanwhile (meanwhile (begun seen s))).current_view ≢ docs
      → let before = meanwhile (meanwhile (begun seen s)) in
        let after = exec server meanwhile (run (session_effect env seen)) s in
        (after.user ≡ some (map_user me.user))
        × (after.usage ≡ get_or me.usage no_usage)
        × (after.images ≡ map (map_image env) image_list)
        × (after.token ≡ before.token)
        × (screen after ≡ console (map_user me.user) (active_app_view before.current_view))
  unfolding session_effect screen
  live_check_signs_in seen s me image_list live me_ok list_ok run_live shown = ground arith

module _ (server : (r : Request) → Outcome (Reply r)) (meanwhile : Page → Page) where
  -- Signing out removes the user, the usage and both tokens from the page and the browser and shows
  -- the landing view, and keeps the list of images.
  pub logout_clears_session :
      (s : Page)
      → let after = exec server meanwhile (run handle_logout) s in
        (screen after ≡ landing_screen)
        × (after.token ≡ "")
        × (after.ifpay_token ≡ "")
        × (after.browser.stored_token ≡ none)
        × (after.browser.stored_ifpay ≡ none)
        × (after.usage ≡ no_usage)
        × (after.images ≡ s.images)
  unfolding handle_logout show_toast screen
  logout_clears_session s = ground arith

  -- If a sign-out is all that happens while a refresh of the account, started with a token, waits for
  -- its answer, and the request succeeds, then the refresh signs the user in again: the console is on
  -- the screen at the dashboard, and the page holds no token.
  pub refresh_undoes_logout :
      (seen s : Page) (me : Me)
      → truthy seen.token ≡ true
      → server (Http.get_me seen.token) ≡ ok me
      → meanwhile ≡ exec server (λ t. t) (run handle_logout)
      → let after = exec server meanwhile (run (refresh_account seen)) s in
        (after.user ≡ some (map_user me.user))
        × (after.token ≡ "")
        × (screen after ≡ console (map_user me.user) dashboard)
  unfolding handle_logout show_toast screen refresh_account
  refresh_undoes_logout seen s me live me_ok signed_out = rw signed_out (ground arith)
