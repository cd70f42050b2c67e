-- ===== src/AdminWeb/Page.antt =====
-- The state of the administrators' page: the session, which of AdminAuthGate and AdminConsole is
-- mounted, and the cells of what is mounted. A component that is mounted starts with fresh cells, and
-- the setters of one that is no longer mounted do nothing.
use infinite_image_hosting.Prelude.{
  ℕ, ◌+◌, ◌==◌, String, Bool, true, false, if◌then◌else◌, Option, none, some, is_some, get_or, List,
  [],
}
use infinite_image_hosting.Async.Program
use infinite_image_hosting.Async.Program.{Prog, Async, Thrown, set_state, try_catch, try_finally}
use infinite_image_hosting.AdminWeb.Types.{
  RouteId, AdminAccount, AdminBootstrapStart, Notice, success, danger, dashboard, users, orders,
  plans, hidden_plans, invite_form, invite_records, moderation, security, hotlink, storage, cdn,
  api, queue, settings, backup, audit,
}
use infinite_image_hosting.AdminWeb.Calls.{Request, Reply}
use infinite_image_hosting.AdminWeb.Cells.{Views, Joined}
use infinite_image_hosting.AdminWeb.Cells.Start.{views_start}

pub record GateState : Type 0 where
  pub loading : Bool
  pub setup_required : Bool
  pub notice : String
  pub email : String
  pub password : String
  pub totp_code : String
  pub setup : Option AdminBootstrapStart
  pub submitting : Bool

pub data ApiStatus : Type 0 where
  healthy degraded checking : ApiStatus

pub record ConsoleState : Type 0 where
  pub current_route : RouteId
  pub is_mobile_menu_open : Bool
  pub api_status : ApiStatus

-- A text that the page gave the browser to save.
pub record Download : Type 0 where
  pub filename : String
  pub text : String

pub record AdminPage : Type 0 where
  pub admin : Option AdminAccount
  -- `localStorage` at ADMIN_SESSION_KEY
  pub stored : Option String
  -- the mount of the gate or the console, and its cells
  pub tree : ℕ
  pub gate : GateState
  pub console : ConsoleState
  -- the mount of the console's view, and its cells
  pub view_run : ℕ
  pub views : Views
  pub downloaded : Option Download
  -- each `Promise.all` that was started, in the order of their starts
  pub joins : List Joined

abbrev pub Handler : Type 0 → Type 0
Handler = Async AdminPage Request Reply

abbrev pub Running : Type 0
Running = Prog AdminPage Request Reply

abbrev pub gate_start : GateState
gate_start = record {
  loading = true;
  setup_required = false;
  notice = "";
  email = "admin@yuexiang.local";
  password = "";
  totp_code = "";
  setup = none;
  submitting = false;
}

abbrev pub console_start : ConsoleState
console_start = record {
  current_route = dashboard;
  is_mobile_menu_open = false;
  api_status = checking;
}

-- The first render over what the browser has stored.
unfoldable pub boot : Option String → AdminPage
boot stored = record {
  admin = none;
  stored = stored;
  tree = 0;
  gate = gate_start;
  console = console_start;
  view_run = 0;
  views = views_start;
  downloaded = none;
  joins = [];
}

-- `getAdminSessionToken()`
abbrev pub session_token : AdminPage → String
session_token s = get_or s.stored ""

abbrev bool_eq : Bool → Bool → Bool
bool_eq true b = b
bool_eq false true = false
bool_eq false false = true

-- `setAdmin(next)`: from no account to one and back, the other component is mounted.
unfoldable pub put_admin : Option AdminAccount → AdminPage → AdminPage
put_admin next s =
    if bool_eq (is_some next) (is_some s.admin) then record s { admin = next } else record s {
      admin = next;
      tree = s.tree + 1;
      gate = gate_start;
      console = console_start;
      view_run = s.view_run + 1;
      views = views_start;
    }

abbrev pub put_stored : Option String → AdminPage → AdminPage
put_stored v s = record s { stored = v }

-- The setters of the gate and the console with the mount `tree`, and of the view with the mount `run`.
unfoldable pub set_gate : (tree : ℕ) → (GateState → GateState) → Handler (Unit {0})
set_gate tree f = set_state (λ s. if s.tree == tree then record s { gate = f s.gate } else s)

unfoldable pub set_console : (tree : ℕ) → (ConsoleState → ConsoleState) → Handler (Unit {0})
set_console tree f =
    set_state (λ s. if s.tree == tree then record s { console = f s.console } else s)

unfoldable pub set_views : (mount : ℕ) → (Views → Views) → Handler (Unit {0})
set_views mount f =
    set_state (λ s. if s.view_run == mount then record s { views = f s.views } else s)

-- The steps of a handler: `await m`, one step after another, `void m`, `throw`,
-- `try { m } catch (x) { h(x) }` and `try { m } finally { f }`
infixl 5 ◌>>=◌ ◌>>◌
unfoldable pub ◌>>=◌ : {A B : Type 0} → Handler A → (A → Handler B) → Handler B
◌>>=◌ m f = Program.◌>>=◌ m f

unfoldable pub ◌>>◌ : {B : Type 0} → Handler (Unit {0}) → Handler B → Handler B
◌>>◌ m n = Program.◌>>◌ m n

unfoldable pub detach : Handler (Unit {0}) → Handler (Unit {0})
detach m = Program.detach m

unfoldable pub caught : Handler (Unit {0}) → (Thrown → Handler (Unit {0})) → Handler (Unit {0})
caught m h = try_catch m h

unfoldable pub ensured : Handler (Unit {0}) → Handler (Unit {0}) → Handler (Unit {0})
ensured m f = try_finally m f

-- `downloadText(filename, text)`
unfoldable pub download_text : String → String → Handler (Unit {0})
download_text filename text =
    set_state (λ s. record s { downloaded = some (record { filename = filename; text = text }) })

abbrev route_code : RouteId → ℕ
route_code dashboard = 0
route_code users = 1
route_code orders = 2
route_code plans = 3
route_code hidden_plans = 4
route_code invite_form = 5
route_code invite_records = 6
route_code moderation = 7
route_code security = 8
route_code hotlink = 9
route_code storage = 10
route_code cdn = 11
route_code api = 12
route_code queue = 13
route_code settings = 14
route_code backup = 15
route_code audit = 16

abbrev pub route_eq : RouteId → RouteId → Bool
route_eq r q = route_code r == route_code q

-- The notices of the views.
abbrev pub good : String → Option Notice
good text = some (record { type = success; text = text })

abbrev pub bad : String → Option Notice
bad text = some (record { type = danger; text = text })
