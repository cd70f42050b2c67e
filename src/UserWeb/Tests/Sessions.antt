-- ===== src/UserWeb/Tests/Sessions.antt =====
-- The theorems on sessions and the screen, at concrete pages.
use infinite_image_hosting.Prelude.{
  String, ◌≡◌, ◌⊎◌, ◌↔◌, refl, none, some, [], map, if_some, get_or,
}
use infinite_image_hosting.Async.Program.{error, run}
use infinite_image_hosting.Async.Exec.{exec}
use infinite_image_hosting.Async.Loop.{World, Reach, start, none_yet, turn, resume}
use infinite_image_hosting.UserWeb.Types.{landing, auth, app, gallery, upload, dashboard}
use infinite_image_hosting.UserWeb.Mapping.{map_user, map_image}
use infinite_image_hosting.UserWeb.Http
use infinite_image_hosting.UserWeb.Http.{Request, Reply, Me}
use infinite_image_hosting.UserWeb.Page.{Page, boot, no_usage}
use infinite_image_hosting.UserWeb.Screen.{
  screen, console, landing_screen, auth_screen, active_app_view,
}
use infinite_image_hosting.UserWeb.Screen.Gate.{screen-console_iff, navigate_gate}
use infinite_image_hosting.UserWeb.Events.{Event, effect, hash_changed}
use infinite_image_hosting.UserWeb.App.Effects.{session_effect, sync_hash_route}
use infinite_image_hosting.UserWeb.App.Account.{handle_logout, refresh_account, signed_in}
use infinite_image_hosting.UserWeb.App.Navigation.{navigate}
use infinite_image_hosting.UserWeb.Session.Reload
use infinite_image_hosting.UserWeb.Session.Reload.{reload_keeps_session}
use infinite_image_hosting.UserWeb.Session.Ends.{
  begun, failed_check_ends_any_session, stale_check_changes_nothing, live_check_signs_in,
  logout_clears_session, refresh_undoes_logout,
}
use infinite_image_hosting.UserWeb.Tests.Data.{
  env, ann, answer, up, down, idle, fresh, user, signed,
}

abbrev trim : String → String
trim t = t

abbrev routed : World Page Request Reply
routed = resume (run sync_hash_route) (boot fresh) []

one_turn : Reach (Event env trim) (Reload.start env trim fresh) routed
one_turn = turn none_yet (start (run sync_hash_route) (effect hash_changed) refl)

reload_keeps_session_example :
    ((boot routed.state.browser).token ≡ routed.state.token)
    × ((boot routed.state.browser).ifpay_token ≡ routed.state.ifpay_token)
reload_keeps_session_example = reload_keeps_session env trim fresh one_turn

-- Another session that begins while the check of the first one is under way.
abbrev signs_in_again : Page → Page
signs_in_again = signed_in "t2" user

abbrev failed_end : Page
failed_end = exec down signs_in_again (run (session_effect env signed)) signed

failed_check_ends_any_session_example :
    (failed_end.token ≡ "")
    × (failed_end.browser.stored_token ≡ none)
    × (failed_end.user ≡ (signs_in_again (begun signed signed)).user)
    × (failed_end.images ≡ (signs_in_again (begun signed signed)).images)
failed_check_ends_any_session_example =
    failed_check_ends_any_session env down signs_in_again signed signed (error "offline") refl refl

abbrev newer : Page → Page
newer s = record s { session_run = 7 }

stale_check_changes_nothing_example :
    exec up newer (run (session_effect env signed)) signed ≡ newer (newer (begun signed signed))
unfolding boot
stale_check_changes_nothing_example =
    stale_check_changes_nothing env up newer signed signed (answer (Http.get_me "t1"))
      (answer (Http.list_images "t1")) refl refl refl refl

abbrev live_end : Page
live_end = exec up idle (run (session_effect env signed)) signed

live_check_signs_in_example :
    (live_end.user ≡ some (map_user ann))
    × (live_end.usage ≡ get_or (answer (Http.get_me "t1")).usage no_usage)
    × (live_end.images ≡ map (map_image env) (answer (Http.list_images "t1")))
    × (live_end.token ≡ (begun signed signed).token)
    × (screen live_end
        ≡ console (map_user ann) (active_app_view (begun signed signed).current_view))
unfolding boot
live_check_signs_in_example =
    live_check_signs_in env up idle signed signed (answer (Http.get_me "t1"))
      (answer (Http.list_images "t1")) refl refl refl refl (λ e. cc)

abbrev out : Page
out = exec up idle (run handle_logout) signed

logout_clears_session_example :
    (screen out ≡ landing_screen)
    × (out.token ≡ "")
    × (out.ifpay_token ≡ "")
    × (out.browser.stored_token ≡ none)
    × (out.browser.stored_ifpay ≡ none)
    × (out.usage ≡ no_usage)
    × (out.images ≡ signed.images)
logout_clears_session_example = logout_clears_session up idle signed

abbrev leaves : Page → Page
leaves = exec up (λ t. t) (run handle_logout)

abbrev refreshed : Page
refreshed = exec up leaves (run (refresh_account signed)) signed

refresh_undoes_logout_example :
    (refreshed.user ≡ some (map_user ann))
    × (refreshed.token ≡ "")
    × (screen refreshed ≡ console (map_user ann) dashboard)
refresh_undoes_logout_example =
    refresh_undoes_logout up leaves signed signed (answer (Http.get_me "t1")) refl refl refl

screen-console_iff_example : (screen signed ≡ console user gallery) ↔ (
    (signed.user ≡ some user)
    × ((signed.current_view ≡ app gallery)
        ⊎ ((gallery ≡ dashboard)
            × ((signed.current_view ≡ landing) ⊎ (signed.current_view ≡ auth)))))
screen-console_iff_example = screen-console_iff signed user gallery

navigate_gate_example :
    screen (exec up idle (run (navigate signed upload)) signed)
    ≡ if_some signed.user auth_screen (λ u. console u upload)
navigate_gate_example = navigate_gate up idle signed upload
