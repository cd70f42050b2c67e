-- ===== src/AdminWeb/Session/Status.antt =====
-- The status that AdminAuthGate asks for when it is mounted.
use infinite_image_hosting.Prelude.{◌==◌, ◌≡◌, false, arith}
use infinite_image_hosting.Async.Program.{Outcome, ok, run}
use infinite_image_hosting.Async.Exec.{exec}
use infinite_image_hosting.AdminWeb.Types.{AdminAuthStatus}
use infinite_image_hosting.AdminWeb.Calls.{Request, Reply, accepted, auth_status}
use infinite_image_hosting.AdminWeb.Page.{
  AdminPage, session_token, set_gate, caught, ensured, ◌>>=◌, ◌>>◌,
}
use infinite_image_hosting.AdminWeb.Session.{auth_request, admitted}
use infinite_image_hosting.AdminWeb.Gate.{status_effect, apply_status}

module _ (server : (r : Request) → Outcome (Reply r)) (meanwhile : AdminPage → AdminPage) where
  -- A status that is answered after the form that asked for it was left, because somebody signed in
  -- or out in the meantime, changes nothing.
  pub late_status_changes_nothing :
      (seen s : AdminPage) (status : AdminAuthStatus)
      → server (record { token = session_token s; call = auth_status }) ≡ ok (accepted status)
      → ((meanwhile s).tree == seen.tree) ≡ false
      → exec server meanwhile (run (status_effect seen)) s ≡ meanwhile s
  unfolding status_effect auth_request admitted apply_status set_gate caught ensured ◌>>=◌ ◌>>◌
  late_status_changes_nothing seen s status answered left = ground arith
