-- ===== src/AdminWeb/Audit/Gate.antt =====
-- AdminAuthGate and YuexiangAdmin: their requests; they may write anything.
use infinite_image_hosting.Prelude.{ℕ, String, Option}
use infinite_image_hosting.Async.Within.{Stays}
use infinite_image_hosting.AdminWeb.Types.{AdminAccount, AdminAuthStatus, AdminAuthResult}
use infinite_image_hosting.AdminWeb.Calls.{Call, Answer, unauthorized, accepted}
use infinite_image_hosting.AdminWeb.Page.{AdminPage, Handler, GateState, set_gate}
use infinite_image_hosting.AdminWeb.Session
use infinite_image_hosting.AdminWeb.Gate
use infinite_image_hosting.AdminWeb.Audit.{Audited, AuditedCall, Free}
use infinite_image_hosting.AdminWeb.Audit.Rules.{
  shared_rules, Stays-Free, Stays-next, Stays-caught, Stays-ensured,
}

Stays-set_gate : (tree : ℕ) (f : GateState → GateState) → Stays Audited Free (set_gate tree f)
unfolding set_gate
Stays-set_gate tree f = Stays-Free _

Stays-admitted : {A : Type 0} (a : Answer A) → Stays Audited Free (Session.admitted a)
unfolding Session.admitted
Stays-admitted (unauthorized message) = search shared_rules
Stays-admitted (accepted value) = search shared_rules

Stays-auth_request : (c : Call) → AuditedCall c → Stays Audited Free (Session.auth_request c)
unfolding Session.auth_request
Stays-auth_request c audited = search (shared_rules, Stays-admitted, audited)

Stays-handle_authenticated :
    (admin : AdminAccount) (token : String)
    → Stays Audited Free (Session.handle_authenticated admin token)
unfolding Session.handle_authenticated
Stays-handle_authenticated admin token = search (shared_rules, Stays-Free)

pub Stays-handle_logout : Stays Audited Free Session.handle_logout
unfolding Session.handle_logout
Stays-handle_logout = search (shared_rules, Stays-Free) depth 14

pub Stays-handle_storage :
    (new_value : Option String) → Stays Audited Free (Session.handle_storage new_value)
unfolding Session.handle_storage
Stays-handle_storage new_value = search (shared_rules, Stays-Free) depth 14

pub Stays-other_tab_writes :
    (new_value : Option String) → Stays Audited Free (Session.other_tab_writes new_value)
Stays-other_tab_writes new_value = Stays-Free _

Stays-apply_status :
    (mount : ℕ) (status : AdminAuthStatus) (s : AdminPage)
    → Stays Audited Free (Gate.apply_status mount status s)
unfolding Gate.apply_status
Stays-apply_status mount status s =
    search (shared_rules, Stays-Free, Stays-handle_authenticated) depth 14

pub Stays-status_effect : (seen : AdminPage) → Stays Audited Free (Gate.status_effect seen)
unfolding Gate.status_effect
Stays-status_effect seen =
    search (shared_rules, Stays-set_gate, Stays-auth_request, Stays-apply_status) depth 14

Stays-submitting :
    (mount : ℕ) (fallback : String) (task : Handler (Unit {0}))
    → Stays Audited Free task
    → Stays Audited Free (Gate.submitting mount fallback task)
unfolding Gate.submitting
Stays-submitting mount fallback task h =
    Stays-ensured _ _
      (Stays-caught _ _
        (Stays-next _ _ (Stays-set_gate _ _) (Stays-next _ _ (Stays-set_gate _ _) h))
        (λ x. Stays-set_gate _ _))
      (Stays-set_gate _ _)

Stays-sign_in : (result : AdminAuthResult) → Stays Audited Free (Gate.sign_in result)
unfolding Gate.sign_in
Stays-sign_in result = search (shared_rules, Stays-Free, Stays-handle_authenticated) depth 14

Stays-start_bootstrap : (seen : AdminPage) → Stays Audited Free (Gate.start_bootstrap seen)
unfolding Gate.start_bootstrap
Stays-start_bootstrap seen =
    search (shared_rules, Stays-set_gate, Stays-auth_request, Stays-submitting) depth 14

Stays-complete_bootstrap : (seen : AdminPage) → Stays Audited Free (Gate.complete_bootstrap seen)
unfolding Gate.complete_bootstrap
Stays-complete_bootstrap seen =
    search (shared_rules, Stays-auth_request, Stays-submitting, Stays-sign_in) depth 14

Stays-login : (seen : AdminPage) → Stays Audited Free (Gate.login seen)
unfolding Gate.login
Stays-login seen =
    search (shared_rules, Stays-auth_request, Stays-submitting, Stays-sign_in) depth 14

pub Stays-submit_current_step :
    (seen : AdminPage) → Stays Audited Free (Gate.submit_current_step seen)
unfolding Gate.submit_current_step
Stays-submit_current_step seen =
    search (shared_rules, Stays-start_bootstrap, Stays-complete_bootstrap, Stays-login) depth 14

pub Stays-set_email :
    (seen : AdminPage) (text : String) → Stays Audited Free (Gate.set_email seen text)
unfolding Gate.set_email
Stays-set_email seen text = Stays-set_gate _ _

pub Stays-set_password :
    (seen : AdminPage) (text : String) → Stays Audited Free (Gate.set_password seen text)
unfolding Gate.set_password
Stays-set_password seen text = Stays-set_gate _ _

pub Stays-set_totp_code :
    (seen : AdminPage) (text : String) → Stays Audited Free (Gate.set_totp_code seen text)
unfolding Gate.set_totp_code
Stays-set_totp_code seen text = Stays-set_gate _ _
