-- ===== src/AdminWeb/Session.antt =====
-- The administrators' session: what adminFetch, YuexiangAdmin and AdminConsole do with it.
pub mod Expiry
pub mod Status
use infinite_image_hosting.Prelude.{
  ◌+◌, ◌==◌, String, false, if◌then◌else◌, truthy, Bool, Option, none, some, get_or,
}
use infinite_image_hosting.Async.Program.{error, pure, throw, set_state, get_state, fetch}
use infinite_image_hosting.AdminWeb.Types.{RouteId, AdminAccount}
use infinite_image_hosting.AdminWeb.Calls.{
  Call, Result, Reply, Answer, unauthorized, accepted, ready, auth_logout,
}
use infinite_image_hosting.AdminWeb.Cells.Start.{views_start}
use infinite_image_hosting.AdminWeb.Page.{
  ◌>>=◌, ◌>>◌, caught, ensured, AdminPage, Handler, ConsoleState, healthy, degraded, session_token,
  put_admin, put_stored, set_console, route_eq,
}

-- `clearAdminSession()`: the event that it dispatches reaches YuexiangAdmin at once.
unfoldable pub clear_admin_session : Handler (Unit {0})
unfolding put_admin
clear_admin_session = set_state (λ s. put_admin none (put_stored none s))

unfoldable pub received : {A : Type 0} → Answer A → Handler A
unfolding clear_admin_session
received (unauthorized message) = do clear_admin_session; throw (error "登录状态已过期，请重新登录")
received (accepted value) = pure value

-- `adminFetch` and `adminBinaryFetch`: the session token is read when the call is made.
unfoldable pub admin_fetch : (c : Call) → Handler (Result c)
unfolding received
admin_fetch c = do
  s ← get_state
  a ← fetch {Reply = Reply} (record { token = session_token s; call = c })
  received a

unfoldable pub admitted : {A : Type 0} → Answer A → Handler A
admitted (unauthorized message) = throw (error message)
admitted (accepted value) = pure value

-- `authRequest`
unfoldable pub auth_request : (c : Call) → Handler (Result c)
unfolding admitted
auth_request c = do
  s ← get_state
  a ← fetch {Reply = Reply} (record { token = session_token s; call = c })
  admitted a

unfoldable pub handle_authenticated : AdminAccount → (token : String) → Handler (Unit {0})
unfolding put_admin
handle_authenticated next_admin token = do
  if truthy token then set_state (put_stored (some token)) else pure tt
  set_state (put_admin (some next_admin))

-- `fetch` does not fail at a refusal, so no answer is looked at.
unfoldable pub handle_logout : Handler (Unit {0})
unfolding clear_admin_session put_admin
handle_logout =
    ensured
      (do
        s ← get_state
        a ← fetch {Reply = Reply} (record { token = session_token s; call = auth_logout })
        pure tt)
      (do clear_admin_session; set_state (put_admin none))

-- The event that tells of another tab's write at ADMIN_SESSION_KEY; the write itself came before it.
unfoldable pub handle_storage : (new_value : Option String) → Handler (Unit {0})
unfolding put_admin
handle_storage new_value =
    if truthy (get_or new_value "") then pure tt else set_state (put_admin none)

-- Another tab writes what is stored at ADMIN_SESSION_KEY.
abbrev pub other_tab_writes : (new_value : Option String) → Handler (Unit {0})
other_tab_writes new_value = set_state (put_stored new_value)

-- AdminConsole's effect on `/readyz`.
abbrev put_status : Bool → ConsoleState → ConsoleState
put_status up c = record c { api_status = if up then healthy else degraded }

-- `res.ok`
abbrev is_up : Answer Bool → Bool
is_up (unauthorized _) = false
is_up (accepted up) = up

unfoldable pub api_status_effect : (seen : AdminPage) → Handler (Unit {0})
unfolding set_console
api_status_effect seen =
    caught
      (do
        a ← fetch {Reply = Reply} (record { token = ""; call = ready })
        set_console seen.tree (put_status (is_up a)))
      (λ _. set_console seen.tree (put_status false))

-- A click on an entry of the menu: another route mounts its view.
unfoldable pub open_route : (seen : AdminPage) → RouteId → Handler (Unit {0})
unfolding set_console
open_route seen route = do
  set_state (λ s.
      if s.tree == seen.tree
      then (if route_eq route s.console.current_route then s else record s {
        console = record s.console { current_route = route };
        view_run = s.view_run + 1;
        views = views_start;
      })
      else s)
  set_console seen.tree (λ c. record c { is_mobile_menu_open = false })

unfoldable pub set_mobile_menu : (seen : AdminPage) → Bool → Handler (Unit {0})
unfolding set_console
set_mobile_menu seen shown = set_console seen.tree (λ c. record c { is_mobile_menu_open = shown })
