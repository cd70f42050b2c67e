-- ===== src/AdminWeb/Events.antt =====
-- What the administrators' page may start in a given state: the handlers of what is mounted, the
-- effects and the events of the window. The rendered page is the closure's page. A typed text and a
-- picked file are arguments. A button that is disabled starts nothing; a handler that tests the same
-- cell again stands here without that condition.
use infinite_image_hosting.Prelude.{String, ◌≡◌, Bool, Option, none, some, false}
use infinite_image_hosting.Async.Program.{run}
use infinite_image_hosting.UserWeb.Types.{File}
use infinite_image_hosting.AdminWeb.Types.{RouteId, AdminPlan, AdminAccount}
use infinite_image_hosting.AdminWeb.Replies.{UserAction, OrderAction, IfpayForm}
use infinite_image_hosting.AdminWeb.Format.{Numbers}
use infinite_image_hosting.AdminWeb.Text.{TextOps, blank}
use infinite_image_hosting.AdminWeb.Rows.{UserRow, OrderRow}
use infinite_image_hosting.AdminWeb.Cells.{PlanForm, InviteState}
use infinite_image_hosting.AdminWeb.Page.{AdminPage, Running}
use infinite_image_hosting.AdminWeb.Session
use infinite_image_hosting.AdminWeb.Gate
use infinite_image_hosting.AdminWeb.Views.Backup
use infinite_image_hosting.AdminWeb.Views.HiddenPlans
use infinite_image_hosting.AdminWeb.Views.Hotlink
use infinite_image_hosting.AdminWeb.Views.Invites
use infinite_image_hosting.AdminWeb.Views.Moderation
use infinite_image_hosting.AdminWeb.Views.Orders
use infinite_image_hosting.AdminWeb.Views.Plans
use infinite_image_hosting.AdminWeb.Views.Platform
use infinite_image_hosting.AdminWeb.Views.Queue
use infinite_image_hosting.AdminWeb.Views.Reads
use infinite_image_hosting.AdminWeb.Views.Settings
use infinite_image_hosting.AdminWeb.Views.Users

-- What runs in AdminAuthGate.
pub data Visitor (s : AdminPage) : Running → Type 0 where
  status : Visitor s (run (Gate.status_effect s))
  submit : Visitor s (run (Gate.submit_current_step s))
  email : (text : String) → Visitor s (run (Gate.set_email s text))
  password : (text : String) → Visitor s (run (Gate.set_password s text))
  totp_code : (text : String) → Visitor s (run (Gate.set_totp_code s text))

module _ (ops : TextOps) (numbers : Numbers) where
  -- What an administrator can do in the view of a route, and the effect of its mount.
  pub data Action (s : AdminPage) : RouteId → Running → Type 0 where
    read_overview : Action s RouteId.dashboard (run (Reads.load_overview s))
    read_users : Action s RouteId.users (run (Users.load_users s))
    change_status :
        (user_id : String) (action : UserAction)
        → Action s RouteId.users (run (Users.set_user_status s user_id action))
    ask_expiry : (row : UserRow) → Action s RouteId.users (run (Users.open_expiry s row))
    leave_expiry : Action s RouteId.users (run (Users.close_expiry s))
    expire : Action s RouteId.users (run (Users.expire_subscription ops s))
    pick_user : (row : Option UserRow) → Action s RouteId.users (run (Users.select_user s row))
    user_keyword : (text : String) → Action s RouteId.users (run (Users.set_keyword s text))
    expiry_reason : (text : String) → Action s RouteId.users (run (Users.set_expire_reason s text))
    save_users : Action s RouteId.users (run (Users.export_users ops s))
    find_users : Action s RouteId.users (run (Users.search_users ops s))
    read_plans : Action s RouteId.plans (run (Plans.load_plans s))
    open_plan :
        (plan : Option AdminPlan) → Action s RouteId.plans (run (Plans.open_plan_dialog s plan))
    leave_plan : Action s RouteId.plans (run (Plans.close_plan_dialog s))
    edit_plan : (form : PlanForm) → Action s RouteId.plans (run (Plans.set_form s form))
    show_hidden : Action s RouteId.plans (run (Plans.toggle_hidden_plans s))
    keep_plan : Action s RouteId.plans (run (Plans.save_plan ops numbers s))
    publish :
        (plan : AdminPlan) (publish : Bool)
        → Action s RouteId.plans (run (Plans.set_plan_publication s plan publish))
    ask_grant : Action s RouteId.hidden_plans (run (HiddenPlans.open_confirm s))
    leave_grant : Action s RouteId.hidden_plans (run (HiddenPlans.close_confirm s))
    grant_target :
        (text : String) → Action s RouteId.hidden_plans (run (HiddenPlans.set_target s text))
    grant_days :
        (text : String) → Action s RouteId.hidden_plans (run (HiddenPlans.set_hidden_days s text))
    grant_reason :
        (text : String) → Action s RouteId.hidden_plans (run (HiddenPlans.set_reason s text))
    grant : Action s RouteId.hidden_plans (run (HiddenPlans.grant_infinite_max ops numbers s))
    read_choices : Action s RouteId.invite_form (run (Invites.load_invite_plans s))
    edit_invite :
        (f : InviteState → InviteState)
        → Action s RouteId.invite_form (run (Invites.set_invite s f))
    clear_invite : Action s RouteId.invite_form (run (Invites.reset_invite s))
    choose_plan : (slug : String) → Action s RouteId.invite_form (run (Invites.choose_plan s slug))
    invite : Action s RouteId.invite_form (run (Invites.create_invite ops numbers s))
    read_images : Action s RouteId.moderation (run (Moderation.load_images ops s))
    image_keyword :
        (text : String) → Action s RouteId.moderation (run (Moderation.set_image_keyword s text))
    image_filter :
        (text : String) → Action s RouteId.moderation (run (Moderation.set_image_filter s text))
    freeze : (id : String) → Action s RouteId.moderation (run (Moderation.freeze_image ops s id))
    delete : (id : String) → Action s RouteId.moderation (run (Moderation.delete_image ops s id))
    read_security : Action s RouteId.security (run (Reads.load_security s))
    download : Action s RouteId.backup (run (Backup.export_backup s))
    check : (file : Option File) → Action s RouteId.backup (run (Backup.validate_backup s file))
    read_orders : Action s RouteId.orders (run (Orders.load_orders s))
    ask_order :
        (row : OrderRow) (kind : OrderAction)
        → Action s RouteId.orders (run (Orders.open_order_action s row kind))
    leave_order : Action s RouteId.orders (run (Orders.close_order_action s))
    order_reason : (text : String) → Action s RouteId.orders (run (Orders.set_action_reason s text))
    order_keyword :
        (text : String) → Action s RouteId.orders (run (Orders.set_order_keyword s text))
    order_filter : (text : String) → Action s RouteId.orders (run (Orders.set_order_filter s text))
    act_on_order :
        blank ops s.views.orders.action_reason ≡ false
        → Action s RouteId.orders (run (Orders.submit_order_action ops s))
    save_orders : Action s RouteId.orders (run (Orders.export_orders ops s))
    read_records : Action s RouteId.invite_records (run (Reads.load_records s))
    read_storage : Action s RouteId.storage (run (Reads.load_storage s))
    read_hotlink : Action s RouteId.hotlink (run (Hotlink.load_hotlink s))
    allow : (text : String) → Action s RouteId.hotlink (run (Hotlink.set_allowed s text))
    block : (text : String) → Action s RouteId.hotlink (run (Hotlink.set_blocked s text))
    allow_empty :
        (checked : Bool) → Action s RouteId.hotlink (run (Hotlink.set_allow_empty s checked))
    keep_hotlink : Action s RouteId.hotlink (run (Hotlink.save_hotlink ops s))
    read_settings : Action s RouteId.settings (run (Settings.load_settings s))
    ask_purge : Action s RouteId.settings (run (Settings.open_purge s))
    leave_purge : Action s RouteId.settings (run (Settings.close_purge s))
    purge_word :
        (text : String) → Action s RouteId.settings (run (Settings.set_purge_confirm s text))
    purge : Action s RouteId.settings (run (Settings.purge_expired s))
    read_queue : Action s RouteId.queue (run (Queue.load_status s))
    requeue : (id : String) → Action s RouteId.queue (run (Queue.requeue_dead_letter s id))
    read_cdn : Action s RouteId.cdn (run (Reads.load_cdn s))
    read_platform : Action s RouteId.api (run (Platform.load_config s))
    edit_platform :
        (f : IfpayForm → IfpayForm) → Action s RouteId.api (run (Platform.set_field s f))
    keep_platform : Action s RouteId.api (run (Platform.save_integration ops s))
    read_logs : Action s RouteId.audit (run (Reads.load_logs ops s))
    log_keyword : (text : String) → Action s RouteId.audit (run (Reads.set_audit_keyword s text))
    log_filter : (text : String) → Action s RouteId.audit (run (Reads.set_action_filter s text))

  -- What runs in AdminConsole.
  pub data Console (s : AdminPage) : Running → Type 0 where
    ready : Console s (run (Session.api_status_effect s))
    logout : Console s (run Session.handle_logout)
    route : (r : RouteId) → Console s (run (Session.open_route s r))
    menu : (shown : Bool) → Console s (run (Session.set_mobile_menu s shown))
    action : {r : RouteId} {p : Running} → s.console.current_route ≡ r → Action s r p → Console s p

  pub data Event (s : AdminPage) (p : Running) : Type 0 where
    gate : s.admin ≡ none → Visitor s p → Event s p
    console : (admin : AdminAccount) → s.admin ≡ some admin → Console s p → Event s p
    -- another tab changes what is stored, and the event of such a change arrives
    other_tab :
        (new_value : Option String) → p ≡ run (Session.other_tab_writes new_value) → Event s p
    storage : (new_value : Option String) → p ≡ run (Session.handle_storage new_value) → Event s p

  -- The console, and another tab that signs out: it removes the token, and later its event arrives.
  -- With nobody to sign in the token stays removed until then.
  pub data Shared (s : AdminPage) (p : Running) : Type 0 where
    here : Console s p → Shared s p
    signs_out : p ≡ run (Session.other_tab_writes none) → Shared s p
    signed_out : s.stored ≡ none → p ≡ run (Session.handle_storage none) → Shared s p
