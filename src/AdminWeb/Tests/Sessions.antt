-- ===== src/AdminWeb/Tests/Sessions.antt =====
-- The theorems on the session and the requests, at concrete pages.
use infinite_image_hosting.Prelude.{
  ◌+◌, ◌≡◌, ◌⊎◌, refl, str_eq, true, false, is_some, none, some, List, [], ◌∷◌,
}
use infinite_image_hosting.Async.Program.{Outcome, ok, fail, error, other, call, stop, run}
use infinite_image_hosting.Async.Exec.{exec}
use infinite_image_hosting.Async.Loop.{
  World, Reach, here, start, answer, none_yet, turn, resume, run_sync,
}
use infinite_image_hosting.AdminWeb.Types.{AdminAccount, users, settings}
use infinite_image_hosting.AdminWeb.Calls
use infinite_image_hosting.AdminWeb.Calls.{
  Call, Result, Answer, unauthorized, accepted, Request, Reply,
}
use infinite_image_hosting.AdminWeb.Rows.{UserRow, low}
use infinite_image_hosting.AdminWeb.Format.{Numbers}
use infinite_image_hosting.AdminWeb.Text.{TextOps}
use infinite_image_hosting.AdminWeb.Page.{
  AdminPage, Running, boot, put_admin, put_stored, gate_start, set_views, caught, ensured, ◌>>=◌,
  ◌>>◌,
}
use infinite_image_hosting.AdminWeb.Session.{
  admin_fetch, handle_logout, handle_storage, other_tab_writes,
}
use infinite_image_hosting.AdminWeb.Session.Expiry.{
  refusal_ends_any_session, logout_always_ends_session,
}
use infinite_image_hosting.AdminWeb.Session.Status.{late_status_changes_nothing}
use infinite_image_hosting.AdminWeb.Gate.{status_effect}
use infinite_image_hosting.AdminWeb.Events
use infinite_image_hosting.AdminWeb.Events.{Event, Console}
use infinite_image_hosting.AdminWeb.Audit.{Audited}
use infinite_image_hosting.AdminWeb.Audit.Loop.{requests_give_reasons, session_ends_whole}
use infinite_image_hosting.AdminWeb.Progress.{Idle, Task, busy_buttons_come_back}
use infinite_image_hosting.AdminWeb.Views.Users
use infinite_image_hosting.AdminWeb.Views.Settings

abbrev ops : TextOps
ops = record { trim = λ t. t; to_lower = λ t. t; contains = λ t part. str_eq t part }

abbrev numbers : Numbers
numbers = record { scaled = λ t unit. none; is_number = λ t. false; cents = λ t. 0 }

abbrev root : AdminAccount
root = record { id = "a1"; email = "root@yuexiang.local"; name = "Root"; role = "owner" }

abbrev ann : UserRow
ann = record {
  id = "u1";
  username = "ann";
  email = "ann@example.com";
  plan = "pro";
  storage_used = "0 B";
  bandwidth_used = "0 B";
  image_requests = 0;
  api_calls = 0;
  process_events = 0;
  status = "active";
  created_at = "-";
  risk_level = low;
}

abbrev first : AdminPage
first = boot (some "t1")

-- An administrator at the users, about to end a subscription.
abbrev signed : AdminPage
signed = record first {
  admin = some root;
  console = record first.console { current_route = users };
  views = record first.views {
    users = record first.views.users { expiring_user = some ann; expire_reason = "abuse" };
  };
}

abbrev refusing : (r : Request) → Outcome (Reply r)
refusing r = ok (unauthorized "session expired")

abbrev idle : AdminPage → AdminPage
idle s = s

abbrev start_world : World AdminPage Request Reply
start_world = record { state = signed; waiting = [] }

-- The administrator confirms the end of the subscription.
abbrev expiring : World AdminPage Request Reply
expiring = resume (run (Users.expire_subscription ops signed)) signed []

one_turn : Reach (Event ops numbers) start_world expiring
unfolding boot
one_turn = turn none_yet (
    start (run (Users.expire_subscription ops signed))
      (Events.console root refl (Events.action refl Events.expire)) refl)

abbrev expiry : Request
expiry = record { token = "t1"; call = Calls.expire_subscription "u1" "abuse" }

requests_give_reasons_example : Audited expiry
unfolding boot run_sync Users.expire_subscription Users.expire_task admin_fetch set_views caught
    ensured ◌>>=◌ ◌>>◌
requests_give_reasons_example =
    requests_give_reasons ops numbers {w = start_world} {w' = expiring} expiry _ [] refl one_turn
      here

-- The first request that waits loses its connection.
abbrev losing : List Running → AdminPage → World AdminPage Request Reply
losing (call r k ∷ rest) s = resume (k (fail other)) s rest
losing ws s = record { state = s; waiting = ws }

-- The administrator signs out, and the request is lost.
abbrev leaving : World AdminPage Request Reply
leaving = resume (run handle_logout) signed []

abbrev expired : World AdminPage Request Reply
expired = losing leaving.waiting leaving.state

expires : Reach (Console ops numbers) start_world expired
unfolding boot run_sync handle_logout ensured ◌>>=◌ ◌>>◌
expires =
    turn (turn none_yet (start (run handle_logout) Events.logout refl))
      (answer (record { token = "t1"; call = Calls.auth_logout }) _ (fail other) [] here refl)

session_ends_whole_example :
    ((expired.state.admin ≡ signed.admin) × (expired.state.stored ≡ signed.stored))
    ⊎ ((expired.state.admin ≡ none) × (expired.state.stored ≡ none))
session_ends_whole_example = session_ends_whole ops numbers refl expires

-- Another tab signs out, and this page is told.
abbrev removed : World AdminPage Request Reply
removed = resume (run (other_tab_writes none)) signed []

abbrev signed_out : World AdminPage Request Reply
signed_out = resume (run (handle_storage none)) removed.state []

abbrev ignore : {A : Type 0} → A → Running
ignore a = stop

refusal_ends_any_session_example :
    (exec refusing idle (admin_fetch Calls.list_users ignore ignore) signed
      ≡ exec refusing idle
          (ignore (error "登录状态已过期，请重新登录"))
          (put_admin none (put_stored none signed)))
    × ((put_admin none (put_stored none signed)).admin ≡ none)
    × ((put_admin none (put_stored none signed)).stored ≡ none)
    × (is_some signed.admin ≡ true
        → ((put_admin none (put_stored none signed)).gate ≡ gate_start)
          × ((put_admin none (put_stored none signed)).tree ≡ signed.tree + 1))
unfolding boot
refusal_ends_any_session_example =
    refusal_ends_any_session refusing idle Calls.list_users ignore ignore signed "session expired"
      refl

logout_always_ends_session_example :
    ((exec refusing idle (run handle_logout) signed).admin ≡ none)
    × ((exec refusing idle (run handle_logout) signed).stored ≡ none)
logout_always_ends_session_example = logout_always_ends_session refusing idle signed

abbrev left : AdminPage → AdminPage
left s = record s { tree = s.tree + 1 }

abbrev at_call : (c : Call) → Outcome (Answer (Result c))
at_call Calls.auth_status = ok (accepted (record { setup_required = false; admin = some root }))
at_call _ = fail other

abbrev answering : (r : Request) → Outcome (Reply r)
answering r = at_call r.call

late_status_changes_nothing_example :
    exec answering left (run (status_effect first)) first ≡ left first
unfolding boot
late_status_changes_nothing_example =
    late_status_changes_nothing answering left first first
      (record { setup_required = false; admin = some root }) refl refl

-- An administrator at the settings who has typed the word that a purge asks for.
abbrev at_purge : AdminPage
at_purge = record first {
  admin = some root;
  console = record first.console { current_route = settings };
  views = record first.views { settings = record first.views.settings { purge_confirm = "PURGE" } };
}

busy_buttons_come_back_example :
    Idle at_purge.view_run
      (λ v. v.settings.purging)
      (exec refusing idle (run (Settings.purge_expired at_purge)) at_purge)
unfolding boot
busy_buttons_come_back_example =
    busy_buttons_come_back refusing idle ops numbers at_purge at_purge (Task.purging refl refl)
