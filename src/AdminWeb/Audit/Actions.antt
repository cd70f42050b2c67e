-- ===== src/AdminWeb/Audit/Actions.antt =====
-- The requests of the administrators' page, and its session, under every interleaving of handlers.
use infinite_image_hosting.Async.Within.{Within, Stays-run}
use infinite_image_hosting.AdminWeb.Types.{RouteId}
use infinite_image_hosting.AdminWeb.Format.{Numbers}
use infinite_image_hosting.AdminWeb.Text.{TextOps}
use infinite_image_hosting.AdminWeb.Page.{AdminPage, Running}
use infinite_image_hosting.AdminWeb.Events
use infinite_image_hosting.AdminWeb.Audit.{Audited, Ends}
use infinite_image_hosting.AdminWeb.Audit.Accounts
use infinite_image_hosting.AdminWeb.Audit.Sales
use infinite_image_hosting.AdminWeb.Audit.Content
use infinite_image_hosting.AdminWeb.Audit.System

module _ (ops : TextOps) (numbers : Numbers) where
  pub Action-Within :
      (s : AdminPage) (r : RouteId) (p : Running)
      → Events.Action ops numbers s r p
      → Within Audited Ends p
  Action-Within s r p Events.read_overview = Stays-run (Content.Stays-load_overview s)
  Action-Within s r p Events.read_users = Stays-run (Accounts.Stays-load_users s)
  Action-Within s r p (Events.change_status user_id action) =
      Stays-run (Accounts.Stays-set_user_status s user_id action)
  Action-Within s r p (Events.ask_expiry row) = Stays-run (Accounts.Stays-open_expiry s row)
  Action-Within s r p Events.leave_expiry = Stays-run (Accounts.Stays-close_expiry s)
  Action-Within s r p Events.expire = Stays-run (Accounts.Stays-expire_subscription ops s)
  Action-Within s r p (Events.pick_user row) = Stays-run (Accounts.Stays-select_user s row)
  Action-Within s r p (Events.user_keyword text) = Stays-run (Accounts.Stays-set_keyword s text)
  Action-Within s r p (Events.expiry_reason text) =
      Stays-run (Accounts.Stays-set_expire_reason s text)
  Action-Within s r p Events.save_users = Stays-run (Accounts.Stays-export_users ops s)
  Action-Within s r p Events.find_users = Stays-run (Accounts.Stays-search_users ops s)
  Action-Within s r p Events.read_plans = Stays-run (Sales.Stays-load_plans s)
  Action-Within s r p (Events.open_plan plan) = Stays-run (Sales.Stays-open_plan_dialog s plan)
  Action-Within s r p Events.leave_plan = Stays-run (Sales.Stays-close_plan_dialog s)
  Action-Within s r p (Events.edit_plan form) = Stays-run (Sales.Stays-set_form s form)
  Action-Within s r p Events.show_hidden = Stays-run (Sales.Stays-toggle_hidden_plans s)
  Action-Within s r p Events.keep_plan = Stays-run (Sales.Stays-save_plan ops numbers s)
  Action-Within s r p (Events.publish plan publish) =
      Stays-run (Sales.Stays-set_plan_publication s plan publish)
  Action-Within s r p Events.ask_grant = Stays-run (Accounts.Stays-open_confirm s)
  Action-Within s r p Events.leave_grant = Stays-run (Accounts.Stays-close_confirm s)
  Action-Within s r p (Events.grant_target text) = Stays-run (Accounts.Stays-set_target s text)
  Action-Within s r p (Events.grant_days text) = Stays-run (Accounts.Stays-set_hidden_days s text)
  Action-Within s r p (Events.grant_reason text) = Stays-run (Accounts.Stays-set_reason s text)
  Action-Within s r p Events.grant = Stays-run (Accounts.Stays-grant_infinite_max ops numbers s)
  Action-Within s r p Events.read_choices = Stays-run (Sales.Stays-load_invite_plans s)
  Action-Within s r p (Events.edit_invite f) = Stays-run (Sales.Stays-set_invite s f)
  Action-Within s r p Events.clear_invite = Stays-run (Sales.Stays-reset_invite s)
  Action-Within s r p (Events.choose_plan slug) = Stays-run (Sales.Stays-choose_plan s slug)
  Action-Within s r p Events.invite = Stays-run (Sales.Stays-create_invite ops numbers s)
  Action-Within s r p Events.read_images = Stays-run (Content.Stays-load_images ops s)
  Action-Within s r p (Events.image_keyword text) =
      Stays-run (Content.Stays-set_image_keyword s text)
  Action-Within s r p (Events.image_filter text) = Stays-run (Content.Stays-set_image_filter s text)
  Action-Within s r p (Events.freeze id) = Stays-run (Content.Stays-freeze_image ops s id)
  Action-Within s r p (Events.delete id) = Stays-run (Content.Stays-delete_image ops s id)
  Action-Within s r p Events.read_security = Stays-run (Content.Stays-load_security s)
  Action-Within s r p Events.download = Stays-run (System.Stays-export_backup s)
  Action-Within s r p (Events.check file) = Stays-run (System.Stays-validate_backup s file)
  Action-Within s r p Events.read_orders = Stays-run (Sales.Stays-load_orders s)
  Action-Within s r p (Events.ask_order row kind) =
      Stays-run (Sales.Stays-open_order_action s row kind)
  Action-Within s r p Events.leave_order = Stays-run (Sales.Stays-close_order_action s)
  Action-Within s r p (Events.order_reason text) = Stays-run (Sales.Stays-set_action_reason s text)
  Action-Within s r p (Events.order_keyword text) = Stays-run (Sales.Stays-set_order_keyword s text)
  Action-Within s r p (Events.order_filter text) = Stays-run (Sales.Stays-set_order_filter s text)
  Action-Within s r p (Events.act_on_order h) = Stays-run (Sales.Stays-submit_order_action ops s h)
  Action-Within s r p Events.save_orders = Stays-run (Sales.Stays-export_orders ops s)
  Action-Within s r p Events.read_records = Stays-run (Content.Stays-load_records s)
  Action-Within s r p Events.read_storage = Stays-run (Content.Stays-load_storage s)
  Action-Within s r p Events.read_hotlink = Stays-run (Content.Stays-load_hotlink s)
  Action-Within s r p (Events.allow text) = Stays-run (Content.Stays-set_allowed s text)
  Action-Within s r p (Events.block text) = Stays-run (Content.Stays-set_blocked s text)
  Action-Within s r p (Events.allow_empty checked) =
      Stays-run (Content.Stays-set_allow_empty s checked)
  Action-Within s r p Events.keep_hotlink = Stays-run (Content.Stays-save_hotlink ops s)
  Action-Within s r p Events.read_settings = Stays-run (System.Stays-load_settings s)
  Action-Within s r p Events.ask_purge = Stays-run (System.Stays-open_purge s)
  Action-Within s r p Events.leave_purge = Stays-run (System.Stays-close_purge s)
  Action-Within s r p (Events.purge_word text) = Stays-run (System.Stays-set_purge_confirm s text)
  Action-Within s r p Events.purge = Stays-run (System.Stays-purge_expired s)
  Action-Within s r p Events.read_queue = Stays-run (System.Stays-load_status s)
  Action-Within s r p (Events.requeue id) = Stays-run (System.Stays-requeue_dead_letter s id)
  Action-Within s r p Events.read_cdn = Stays-run (Content.Stays-load_cdn s)
  Action-Within s r p Events.read_platform = Stays-run (System.Stays-load_config s)
  Action-Within s r p (Events.edit_platform f) = Stays-run (System.Stays-set_field s f)
  Action-Within s r p Events.keep_platform = Stays-run (System.Stays-save_integration ops s)
  Action-Within s r p Events.read_logs = Stays-run (Content.Stays-load_logs ops s)
  Action-Within s r p (Events.log_keyword text) = Stays-run (Content.Stays-set_audit_keyword s text)
  Action-Within s r p (Events.log_filter text) = Stays-run (Content.Stays-set_action_filter s text)
