-- ===== src/AdminWeb/Audit/Rules.antt =====
-- The rules of Async.Within at the setters and the calls of the console.
use infinite_image_hosting.Prelude.{
  ℕ, ◌≡◌, refl, inl, inr, none, arith, String, true, false, truthy,
}
use infinite_image_hosting.Async.Program.{Thrown, set_state, fetch}
use infinite_image_hosting.Async.Within.{
  Stays, Stays-set_state, Stays-fetch, Stays-bind, Stays-detach, Stays-get_state, Stays-if,
  Stays-if_some, Stays-then, Stays-throw, Stays-pure, Stays-try_catch, Stays-try_finally,
}
use infinite_image_hosting.AdminWeb.Calls.{Call, Request, Reply, Answer, unauthorized, accepted}
use infinite_image_hosting.AdminWeb.Cells.{Views}
use infinite_image_hosting.AdminWeb.Page.{
  ◌>>=◌, ◌>>◌, detach, caught, ensured, AdminPage, Handler, ConsoleState, set_views, set_console,
  put_admin, put_stored, download_text, session_token,
}
use infinite_image_hosting.AdminWeb.Session.{clear_admin_session, received, admin_fetch}
use infinite_image_hosting.AdminWeb.Audit.{AuditedCall, Audited, Ends, Free}
use infinite_image_hosting.AdminWeb.Text.{TextOps, blank}

pub put_admin-none :
    (s : AdminPage) → (put_admin none s).admin ≡ none × (put_admin none s).stored ≡ s.stored
unfolding put_admin
put_admin-none s = ground arith

pub Stays-set_views : (mount : ℕ) (f : Views → Views) → Stays Audited Ends (set_views mount f)
unfolding set_views
Stays-set_views mount f = Stays-set_state _ (λ s. ground arith)

pub Stays-set_console :
    (tree : ℕ) (f : ConsoleState → ConsoleState) → Stays Audited Ends (set_console tree f)
unfolding set_console
Stays-set_console tree f = Stays-set_state _ (λ s. ground arith)

pub Stays-download : (filename text : String) → Stays Audited Ends (download_text filename text)
unfolding download_text
Stays-download filename text = Stays-set_state _ (λ s. inl (refl, refl))

pub Stays-clear : Stays Audited Ends clear_admin_session
unfolding clear_admin_session
Stays-clear = Stays-set_state _ (λ s. inr (put_admin-none (put_stored none s)))

pub Stays-caught :
    {R : AdminPage → AdminPage → Type 0} (m : Handler (Unit {0})) (h : Thrown → Handler (Unit {0}))
    → Stays Audited R m
    → ((x : Thrown) → Stays Audited R (h x))
    → Stays Audited R (caught m h)
unfolding caught
Stays-caught m h hm hh = Stays-try_catch m h hm hh

pub Stays-ensured :
    {R : AdminPage → AdminPage → Type 0} (m f : Handler (Unit {0}))
    → Stays Audited R m
    → Stays Audited R f
    → Stays Audited R (ensured m f)
unfolding ensured
Stays-ensured m f hm hf = Stays-try_finally m f hm hf

pub Stays-wait :
    {R : AdminPage → AdminPage → Type 0} {A B : Type 0} (m : Handler A) (f : A → Handler B)
    → Stays Audited R m
    → ((a : A) → Stays Audited R (f a))
    → Stays Audited R (m >>= f)
unfolding ◌>>=◌
Stays-wait m f hm hf = Stays-bind m f hm hf

pub Stays-next :
    {R : AdminPage → AdminPage → Type 0} {B : Type 0} (m : Handler (Unit {0})) (n : Handler B)
    → Stays Audited R m
    → Stays Audited R n
    → Stays Audited R (m >> n)
unfolding ◌>>◌
Stays-next m n hm hn = Stays-then m n hm hn

pub Stays-void :
    {R : AdminPage → AdminPage → Type 0} (m : Handler (Unit {0}))
    → Stays Audited R m
    → Stays Audited R (detach m)
unfolding detach
Stays-void m hm = Stays-detach m hm

Stays-received : {A : Type 0} (a : Answer A) → Stays Audited Ends (received a)
unfolding received
Stays-received (unauthorized message) = Stays-next _ _ Stays-clear (Stays-throw _)
Stays-received (accepted value) = Stays-pure value

pub Stays-admin_fetch : (c : Call) → AuditedCall c → Stays Audited Ends (admin_fetch c)
unfolding admin_fetch
Stays-admin_fetch c audited = Stays-wait _ _ Stays-get_state (λ s.
    Stays-wait _ _
      (Stays-fetch {Q = Audited} (record { token = session_token s; call = c }) audited)
      (λ a. Stays-received a))

pub truthy-trim : (ops : TextOps) (t : String) → blank ops t ≡ false → truthy (ops.trim t) ≡ true
truthy-trim ops t h = ground arith

-- The setter of any cell but the session's.
pub Stays-write :
    (f : AdminPage → AdminPage)
    → ((s : AdminPage) → (f s).admin ≡ s.admin)
    → ((s : AdminPage) → (f s).stored ≡ s.stored)
    → Stays Audited Ends (set_state {Request = Request} {Reply = Reply} f)
Stays-write f keeps_admin keeps_stored =
    Stays-set_state f (λ s. inl (keeps_admin s, keeps_stored s))

-- Free write at all.
pub Stays-Free :
    (f : AdminPage → AdminPage)
    → Stays Audited Free (set_state {Request = Request} {Reply = Reply} f)
Stays-Free f = Stays-set_state f (λ s. tt)

-- A request without more.
pub Stays-send :
    {R : AdminPage → AdminPage → Type 0} (r : Request)
    → AuditedCall r.call
    → Stays Audited R (fetch {S = AdminPage} {Reply = Reply} r)
Stays-send r audited = Stays-fetch r audited

pub ruleset shared_rules = (
  Stays-send, Stays-pure, Stays-throw, Stays-get_state, Stays-if, Stays-if_some, Stays-wait,
  Stays-next, Stays-void, Stays-caught, Stays-ensured,
)

pub ruleset console_rules = (
  shared_rules, Stays-set_views, Stays-set_console, Stays-download, Stays-clear, Stays-admin_fetch,
)
