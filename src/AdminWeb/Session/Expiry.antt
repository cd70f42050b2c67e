-- ===== src/AdminWeb/Session/Expiry.antt =====
-- How the administrators' session ends.
use infinite_image_hosting.Prelude.{◌+◌, ◌≡◌, refl, String, true, none, is_some, arith, inl, inr}
use infinite_image_hosting.Async.Program.{Outcome, Outcome-cases, ok, Thrown, error, run}
use infinite_image_hosting.Async.Exec.{exec}
use infinite_image_hosting.AdminWeb.Calls.{Call, Request, Reply, Result, unauthorized, auth_logout}
use infinite_image_hosting.AdminWeb.Page.{
  AdminPage, Running, session_token, put_admin, put_stored, gate_start, ensured, ◌>>=◌, ◌>>◌,
}
use infinite_image_hosting.AdminWeb.Session.{
  admin_fetch, received, clear_admin_session, handle_logout,
}

module _ (server : (r : Request) → Outcome (Reply r)) (meanwhile : AdminPage → AdminPage) where
  -- Whatever call the console makes, if the server answers that it is unauthorized, the session that
  -- is there when the answer comes ends, also one that another account began while the call was under
  -- way: the account and the stored token are gone, and if there was an account the sign-in form is
  -- mounted with fresh cells. The caller then goes on with the error, and with nothing else.
  pub refusal_ends_any_session :
      (c : Call) (k : Result c → Running) (e : Thrown → Running) (s : AdminPage) (message : String)
      → server (record { token = session_token s; call = c }) ≡ ok (unauthorized message)
      → let now = meanwhile s in
        let ended = put_admin none (put_stored none now) in
        (exec server meanwhile (admin_fetch c k e) s
          ≡ exec server meanwhile (e (error "登录状态已过期，请重新登录")) ended)
        × (ended.admin ≡ none)
        × (ended.stored ≡ none)
        × (is_some now.admin ≡ true → (ended.gate ≡ gate_start) × (ended.tree ≡ now.tree + 1))
  unfolding admin_fetch received clear_admin_session ◌>>=◌ ◌>>◌ put_admin
  refusal_ends_any_session c k e s message refused =
      (rw (refused, exec) refl, ground arith, ground arith, λ present. ground arith)

  -- Whatever the server answers to the sign-out, or if it cannot be reached, and whatever happened in
  -- the meantime, the page then has neither an account nor a stored token.
  pub logout_always_ends_session :
      (s : AdminPage)
      → let after = exec server meanwhile (run handle_logout) s in
        (after.admin ≡ none) × (after.stored ≡ none)
  unfolding handle_logout clear_admin_session ensured ◌>>=◌ ◌>>◌ put_admin
  logout_always_ends_session s =
      elim (Outcome-cases (server (record { token = session_token s; call = auth_logout }))) [
        | inl (a, reached) ↦ ground arith
        | inr (x, lost) ↦ ground arith
      ]
