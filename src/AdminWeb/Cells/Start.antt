-- ===== src/AdminWeb/Cells/Start.antt =====
-- What the cells of the administrators' views start with.
use infinite_image_hosting.Prelude.{true, false, none, []}
use infinite_image_hosting.AdminWeb.Replies.{mark_paid, IfpayForm}
use infinite_image_hosting.AdminWeb.Cells.{
  Fetched, UsersState, PlanForm, InviteState, OrdersState, Views,
}

abbrev unread : {A : Type 0} → Fetched A
unread = record { config = none; notice = "" }

abbrev pub empty_plan_form : PlanForm
empty_plan_form = record {
  slug = "";
  name = "";
  monthly = "29";
  yearly = "299";
  storage_gb = "50";
  traffic_gb = "500";
  requests = "10000000";
  api_calls = "500000";
  process_events = "20000";
  single_file_mb = "50";
  visible = true;
  purchasable = true;
}

abbrev pub invite_start : InviteState
invite_start = record {
  name = "2026 开发者增长活动";
  plan_slug = "pro";
  code = "";
  grant_days = "30";
  total_limit = "100";
  per_user_limit = "1";
  per_ip_limit = "1";
  strict_device = true;
  new_users_only = true;
  require_email_verified = true;
  require_oauth_binding = false;
  require_admin_approval = false;
  notice = none;
  submitting = false;
  plans = [];
}

abbrev empty_ifpay_form : IfpayForm
empty_ifpay_form = record {
  ifpay_base_url = "";
  ifpay_partner_app_id = "";
  ifpay_client_id = "";
  ifpay_redirect_uri = "";
  ifpay_client_secret = "";
  ifpay_private_key_pem = "";
  ifpay_public_key_pem = "";
  ifpay_webhook_public_key_pem = "";
}

abbrev pub users_start : UsersState
users_start = record {
  users = [];
  keyword = "";
  notice = none;
  expiring_user = none;
  selected_user = none;
  expire_reason = "";
  user_action_id = "";
  expiring = false;
}

abbrev pub orders_start : OrdersState
orders_start = record {
  orders = [];
  notice = none;
  action_target = none;
  action_kind = mark_paid;
  action_reason = "";
  submitting_action = false;
  keyword = "";
  status_filter = "";
}

abbrev pub views_start : Views
views_start = record {
  dashboard = unread;
  users = users_start;
  plans = record {
    plans = [];
    form = empty_plan_form;
    dialog_open = false;
    notice = none;
    saving_plan = false;
    unpublishing_slug = "";
    show_hidden_plans = false;
  };
  hidden = record {
    show_confirm = false;
    target = "";
    grant_days = "365";
    reason = "";
    notice = none;
    submitting = false;
  };
  invite = invite_start;
  moderation = record {
    images = [];
    keyword = "";
    status_filter = "";
    total = 0;
    notice = none;
    processing_id = "";
  };
  security = record { events = []; system_config = none; notice = "" };
  backup = record {
    notice = none;
    validation = none;
    file_name = "";
    exporting = false;
    validating = false;
  };
  orders = orders_start;
  records = record { records = []; notice = "" };
  storage = unread;
  hotlink = record {
    config = none;
    allowed = "";
    blocked = "";
    allow_empty = true;
    notice = none;
    saving = false;
  };
  settings = record {
    config = none;
    notice = none;
    purge_open = false;
    purge_confirm = "";
    purging = false;
  };
  queue = record { status = none; dead_letters = []; error = ""; notice = none; requeue_id = "" };
  cdn = unread;
  platform = record {
    api_config = none;
    integration = none;
    form = empty_ifpay_form;
    notice = none;
    saving = false;
  };
  audit = record { logs = []; notice = ""; keyword = ""; action_filter = ""; total = 0 };
}
