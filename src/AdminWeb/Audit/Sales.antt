-- ===== src/AdminWeb/Audit/Sales.antt =====
-- PlanManageView, OrdersView and InviteCampaignView.
use infinite_image_hosting.Prelude.{String, ◌≡◌, true, false, not, truthy, Option, arith, Bool}
use infinite_image_hosting.Async.Within.{Stays}
use infinite_image_hosting.AdminWeb.Types.{AdminPlan}
use infinite_image_hosting.AdminWeb.Replies.{OrderAction}
use infinite_image_hosting.AdminWeb.Format.{Numbers}
use infinite_image_hosting.AdminWeb.Text.{TextOps, blank}
use infinite_image_hosting.AdminWeb.Rows.{OrderRow}
use infinite_image_hosting.AdminWeb.Cells.{PlanForm, InviteState}
use infinite_image_hosting.AdminWeb.Page.{AdminPage}
use infinite_image_hosting.AdminWeb.Views.Plans
use infinite_image_hosting.AdminWeb.Views.Plans.Form
use infinite_image_hosting.AdminWeb.Views.Orders
use infinite_image_hosting.AdminWeb.Views.Invites
use infinite_image_hosting.AdminWeb.Audit.{Audited, Ends, contradictory}
use infinite_image_hosting.AdminWeb.Audit.Rules.{console_rules, truthy-trim}

build_plan_payload_lem :
    (ops : TextOps) (numbers : Numbers) (form : PlanForm)
    → contradictory (Form.build_plan_payload ops numbers form) ≡ false
unfolding Form.build_plan_payload
build_plan_payload_lem ops numbers form = ground arith

published_lem :
    (plan : AdminPlan) (publish : Bool) → contradictory (Plans.published plan publish) ≡ false
unfolding Plans.published
published_lem plan publish = ground arith

pub Stays-load_plans : (seen : AdminPage) → Stays Audited Ends (Plans.load_plans seen)
unfolding Plans.load_plans
Stays-load_plans seen = search (console_rules) depth 24

pub Stays-open_plan_dialog :
    (seen : AdminPage) (plan : Option AdminPlan)
    → Stays Audited Ends (Plans.open_plan_dialog seen plan)
unfolding Plans.open_plan_dialog
Stays-open_plan_dialog seen plan = search (console_rules) depth 24

pub Stays-close_plan_dialog : (seen : AdminPage) → Stays Audited Ends (Plans.close_plan_dialog seen)
unfolding Plans.close_plan_dialog
Stays-close_plan_dialog seen = search (console_rules) depth 24

pub Stays-set_form :
    (seen : AdminPage) (form : PlanForm) → Stays Audited Ends (Plans.set_form seen form)
unfolding Plans.set_form
Stays-set_form seen form = search (console_rules) depth 24

pub Stays-toggle_hidden_plans :
    (seen : AdminPage) → Stays Audited Ends (Plans.toggle_hidden_plans seen)
unfolding Plans.toggle_hidden_plans
Stays-toggle_hidden_plans seen = search (console_rules) depth 24

pub Stays-save_plan :
    (ops : TextOps) (numbers : Numbers) (seen : AdminPage)
    → Stays Audited Ends (Plans.save_plan ops numbers seen)
unfolding Plans.save_plan
Stays-save_plan ops numbers seen =
    search (console_rules, Stays-load_plans, build_plan_payload_lem) depth 24

pub Stays-set_plan_publication :
    (seen : AdminPage) (plan : AdminPlan) (publish : Bool)
    → Stays Audited Ends (Plans.set_plan_publication seen plan publish)
unfolding Plans.set_plan_publication
Stays-set_plan_publication seen plan publish =
    search (console_rules, Stays-load_plans, published_lem) depth 24

pub Stays-load_orders : (seen : AdminPage) → Stays Audited Ends (Orders.load_orders seen)
unfolding Orders.load_orders
Stays-load_orders seen = search (console_rules) depth 24

pub Stays-open_order_action :
    (seen : AdminPage) (row : OrderRow) (kind : OrderAction)
    → Stays Audited Ends (Orders.open_order_action seen row kind)
unfolding Orders.open_order_action
Stays-open_order_action seen row kind = search (console_rules) depth 24

pub Stays-close_order_action :
    (seen : AdminPage) → Stays Audited Ends (Orders.close_order_action seen)
unfolding Orders.close_order_action
Stays-close_order_action seen = search (console_rules) depth 24

pub Stays-set_action_reason :
    (seen : AdminPage) (text : String) → Stays Audited Ends (Orders.set_action_reason seen text)
unfolding Orders.set_action_reason
Stays-set_action_reason seen text = search (console_rules) depth 24

pub Stays-set_order_keyword :
    (seen : AdminPage) (text : String) → Stays Audited Ends (Orders.set_order_keyword seen text)
unfolding Orders.set_order_keyword
Stays-set_order_keyword seen text = search (console_rules) depth 24

pub Stays-set_order_filter :
    (seen : AdminPage) (text : String) → Stays Audited Ends (Orders.set_order_filter seen text)
unfolding Orders.set_order_filter
Stays-set_order_filter seen text = search (console_rules) depth 24

pub Stays-submit_order_action :
    (ops : TextOps) (seen : AdminPage)
    → blank ops seen.views.orders.action_reason ≡ false
    → Stays Audited Ends (Orders.submit_order_action ops seen)
unfolding Orders.submit_order_action
Stays-submit_order_action ops seen h0 =
    search (console_rules, Stays-load_orders, truthy-trim, h0) depth 24

pub Stays-export_orders :
    (ops : TextOps) (seen : AdminPage) → Stays Audited Ends (Orders.export_orders ops seen)
unfolding Orders.export_orders
Stays-export_orders ops seen = search (console_rules) depth 24

pub Stays-set_invite :
    (seen : AdminPage) (f : InviteState → InviteState)
    → Stays Audited Ends (Invites.set_invite seen f)
unfolding Invites.set_invite
Stays-set_invite seen f = search (console_rules) depth 24

pub Stays-load_invite_plans :
    (seen : AdminPage) → Stays Audited Ends (Invites.load_invite_plans seen)
unfolding Invites.load_invite_plans
Stays-load_invite_plans seen = search (console_rules) depth 24

pub Stays-reset_invite : (seen : AdminPage) → Stays Audited Ends (Invites.reset_invite seen)
unfolding Invites.reset_invite
Stays-reset_invite seen = search (console_rules) depth 24

pub Stays-choose_plan :
    (seen : AdminPage) (slug : String) → Stays Audited Ends (Invites.choose_plan seen slug)
unfolding Invites.choose_plan
Stays-choose_plan seen slug = search (console_rules) depth 24

invite_payload-name :
    (ops : TextOps) (numbers : Numbers) (cells : InviteState)
    → blank ops cells.name ≡ false
    → truthy (Invites.invite_payload ops numbers cells).name ≡ true
unfolding Invites.invite_payload
invite_payload-name ops numbers cells h = ground arith

invite_payload-slug :
    (ops : TextOps) (numbers : Numbers) (cells : InviteState)
    → not (truthy cells.plan_slug) ≡ false
    → truthy (Invites.invite_payload ops numbers cells).plan_slug ≡ true
unfolding Invites.invite_payload
invite_payload-slug ops numbers cells h = ground arith

pub Stays-create_invite :
    (ops : TextOps) (numbers : Numbers) (seen : AdminPage)
    → Stays Audited Ends (Invites.create_invite ops numbers seen)
unfolding Invites.create_invite
Stays-create_invite ops numbers seen =
    search (console_rules, invite_payload-name, invite_payload-slug) depth 24
