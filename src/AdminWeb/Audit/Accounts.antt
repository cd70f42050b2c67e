-- ===== src/AdminWeb/Audit/Accounts.antt =====
-- UserManageView and HiddenPlanView.
use infinite_image_hosting.Prelude.{String, ◌≡◌, true, false, ◌||◌, truthy, Option, arith}
use infinite_image_hosting.Async.Within.{Stays}
use infinite_image_hosting.AdminWeb.Replies.{UserAction}
use infinite_image_hosting.AdminWeb.Format.{Numbers}
use infinite_image_hosting.AdminWeb.Text.{TextOps, blank}
use infinite_image_hosting.AdminWeb.Rows.{UserRow}
use infinite_image_hosting.AdminWeb.Page.{AdminPage}
use infinite_image_hosting.AdminWeb.Views.Users
use infinite_image_hosting.AdminWeb.Views.HiddenPlans
use infinite_image_hosting.AdminWeb.Audit.{Audited, Ends}
use infinite_image_hosting.AdminWeb.Audit.Rules.{console_rules, truthy-trim}

pub Stays-load_users : (seen : AdminPage) → Stays Audited Ends (Users.load_users seen)
unfolding Users.load_users
Stays-load_users seen = search (console_rules) depth 24

pub Stays-set_user_status :
    (seen : AdminPage) (user_id : String) (action : UserAction)
    → Stays Audited Ends (Users.set_user_status seen user_id action)
unfolding Users.set_user_status
Stays-set_user_status seen user_id action = search (console_rules, Stays-load_users) depth 24

pub Stays-expire_task :
    (seen : AdminPage) (user_id reason : String)
    → truthy reason ≡ true
    → Stays Audited Ends (Users.expire_task seen user_id reason)
unfolding Users.expire_task
Stays-expire_task seen user_id reason h0 = search (console_rules, Stays-load_users, h0) depth 24

pub Stays-expire_subscription :
    (ops : TextOps) (seen : AdminPage) → Stays Audited Ends (Users.expire_subscription ops seen)
unfolding Users.expire_subscription
Stays-expire_subscription ops seen = search (console_rules, Stays-expire_task, truthy-trim) depth 24

pub Stays-open_expiry :
    (seen : AdminPage) (row : UserRow) → Stays Audited Ends (Users.open_expiry seen row)
unfolding Users.open_expiry
Stays-open_expiry seen row = search (console_rules) depth 24

pub Stays-close_expiry : (seen : AdminPage) → Stays Audited Ends (Users.close_expiry seen)
unfolding Users.close_expiry
Stays-close_expiry seen = search (console_rules) depth 24

pub Stays-select_user :
    (seen : AdminPage) (row : Option UserRow) → Stays Audited Ends (Users.select_user seen row)
unfolding Users.select_user
Stays-select_user seen row = search (console_rules) depth 24

pub Stays-set_keyword :
    (seen : AdminPage) (text : String) → Stays Audited Ends (Users.set_keyword seen text)
unfolding Users.set_keyword
Stays-set_keyword seen text = search (console_rules) depth 24

pub Stays-set_expire_reason :
    (seen : AdminPage) (text : String) → Stays Audited Ends (Users.set_expire_reason seen text)
unfolding Users.set_expire_reason
Stays-set_expire_reason seen text = search (console_rules) depth 24

pub Stays-export_users :
    (ops : TextOps) (seen : AdminPage) → Stays Audited Ends (Users.export_users ops seen)
unfolding Users.export_users
Stays-export_users ops seen = search (console_rules) depth 24

pub Stays-search_users :
    (ops : TextOps) (seen : AdminPage) → Stays Audited Ends (Users.search_users ops seen)
unfolding Users.search_users
Stays-search_users ops seen = search (console_rules) depth 24

blank-both :
    (ops : TextOps) (t u : String)
    → (blank ops t || blank ops u) ≡ false
    → (truthy (ops.trim t) ≡ true) × (truthy (ops.trim u) ≡ true)
blank-both ops t u h = ground arith

pub Stays-grant_infinite_max :
    (ops : TextOps) (numbers : Numbers) (seen : AdminPage)
    → Stays Audited Ends (HiddenPlans.grant_infinite_max ops numbers seen)
unfolding HiddenPlans.grant_infinite_max
Stays-grant_infinite_max ops numbers seen = search (console_rules, blank-both) depth 24

pub Stays-open_confirm : (seen : AdminPage) → Stays Audited Ends (HiddenPlans.open_confirm seen)
unfolding HiddenPlans.open_confirm
Stays-open_confirm seen = search (console_rules) depth 24

pub Stays-close_confirm : (seen : AdminPage) → Stays Audited Ends (HiddenPlans.close_confirm seen)
unfolding HiddenPlans.close_confirm
Stays-close_confirm seen = search (console_rules) depth 24

pub Stays-set_target :
    (seen : AdminPage) (text : String) → Stays Audited Ends (HiddenPlans.set_target seen text)
unfolding HiddenPlans.set_target
Stays-set_target seen text = search (console_rules) depth 24

pub Stays-set_hidden_days :
    (seen : AdminPage) (text : String) → Stays Audited Ends (HiddenPlans.set_hidden_days seen text)
unfolding HiddenPlans.set_hidden_days
Stays-set_hidden_days seen text = search (console_rules) depth 24

pub Stays-set_reason :
    (seen : AdminPage) (text : String) → Stays Audited Ends (HiddenPlans.set_reason seen text)
unfolding HiddenPlans.set_reason
Stays-set_reason seen text = search (console_rules) depth 24
