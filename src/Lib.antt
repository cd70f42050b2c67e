-- ===== src/Lib.antt =====
-- The web consoles of the image hosting service: models of the user console and of the
-- administrators' console, with their theorems.
--
-- The program. The repository holds a backend in Go (yuexiang-image-backend), a console for users
-- (yuexiang-image-user-web) and one for administrators (yuexiang-image-admin-web), both single-page
-- React applications that talk to the backend over HTTP. Modelled here are both
-- consoles. In yuexiang-image-user-web/src/App.tsx the component App keeps the session, the images, the plans and
-- the usage, and passes handlers to one view per page. A handler sends requests with apiFetch, waits,
-- and writes what comes back into React state and localStorage; meanwhile other handlers run.
--
-- In yuexiang-image-admin-web/src/App.tsx the component YuexiangAdmin shows either AdminAuthGate, which
-- signs an administrator in, or AdminConsole with one of seventeen views; each view keeps its own
-- cells and calls adminFetch, which reads the stored token and ends the session when it is refused.
--
-- The files.
--   Prelude: the library's names, Boolean tests, truthiness of texts, lists.
--   Async: handlers that wait. Async/Program is an async function as a program in continuation style
--     with try/catch/finally, detached calls and timers; Async/Loop is the event loop, a relation
--     between worlds of one page and the programs that wait on it; Async/Safe and Async/Rules carry
--     invariants over all interleavings; Async/Within bounds what a handler may send and write at all,
--     Async/Lands says that every way through it comes to its end; Async/Exec runs one handler against a server, with whatever
--     other handlers do to the page while it waits as a function.
--   UserWeb/Types, Mapping, Format: the types, mapUser, mapImage, mapPlan, and the number formats.
--   UserWeb/Http: every call of apiFetch as a request with the type of its reply; Http/Wire is the
--     HTTP request that it is sent as, Http/Envelope what apiFetch makes of the response.
--   UserWeb/Page: the state, one record for the useState cells of App and of its views, with what
--     the browser keeps (localStorage, the location). UserWeb/Screen: which view is rendered.
--   UserWeb/App: the handlers and effects of App: App/Effects (session, plans, IF-Pay return, hash
--     route), App/Account (login, register, verify, reset, checkout, logout), App/Images, and
--     App/Navigation.
--   UserWeb/Views: the handlers of AuthView, UploadView, GalleryView, PricingView, ApiView,
--     BackupView, SettingsView and DocsView, one file each, with theorems below each.
--   UserWeb/Html, Render: what these views, AppLayout, DashboardView, LandingView and SecurityView show,
--     as the elements of their JSX; Render/Controls and Render/Events: what their controls may send;
--     Render/Forms and Render/Leads: the forms of a visitor, and the buttons of the landing page.
--   UserWeb/Requests: what a user must have done before the page sends what cannot be taken back.
--   UserWeb/Events: what may be started on the page in a given state.
--   UserWeb/Session: the session over all interleavings, and how it ends.
--   UserWeb/Tests: concrete pages and servers.
--   AdminWeb/Types, Replies, Rows: the types of the server's data, those that the views write out where
--     they call it, and the rows that the views keep. AdminWeb/Text, Format, Csv: texts, numbers in
--     forms and the exported files; Csv/Reader and Csv/Exports read these back.
--   AdminWeb/Calls: every call of adminFetch and authRequest with the type of its reply.
--   AdminWeb/Cells, Page: the useState cells of each view, and the page: the account, the stored token,
--     which of the gate and the console is mounted, and the mounted view.
--   AdminWeb/Session, Gate: adminFetch, YuexiangAdmin and AdminConsole; AdminAuthGate.
--     Session/Expiry and Session/Status: how a session ends, and late answers to the gate.
--   AdminWeb/Views: the handlers of the views, one file each; Views/Reads has the views that only read.
--     Views/Plans/Form, Inputs, Rounding: what a plan becomes in its form.
--   AdminWeb/Html, Render: the elements of the screen; what DashboardView, UserManageView and
--     HiddenPlanView show.
--   AdminWeb/Events: what may be started on the page in a given state. AdminWeb/Audit: what its requests
--     say and how its session ends, over all interleavings. AdminWeb/Progress: busy buttons.
--   AdminWeb/Tests: concrete pages, plans and servers.
-- A function keeps its name in snake_case: handleUploadFile is handle_upload_file, formatBytes is
-- format_bytes. A function that stands in several views has its view's module.
--
-- The modelling.
--   A handler is a closure over the render that it was made in; the argument `seen` is that render's
--   state, and what it writes goes to the state at the time of the write. `cancelled` of an effect's
--   run is the number of the live run in the page. Promise.all of two reads in the user console
--   sends them one after the other: as neither reads or writes the page before both are there, other
--   handlers can do the same in between. React may run an effect, a timer may fire and an answer may come at any time.
--   Replies are any data of the type that the code casts them to, or any thrown error.
--   Numbers are natural numbers: bytes, cents and events are never negative. Division by powers of
--   1024 and its rounding are exact on JavaScript's numbers; where they are not, its division and
--   multiplication are parameters (Floats), and IsRounding says what is used of them. Trimming,
--   lower case and substring search are parameters (TextOps), and so are the API's base URL and
--   today's date (Env). A dialog's answer, a typed text and a picked file are arguments. No
--   definition runs on fuel but the printing of numbers, which is given one more step than the
--   number's value and needs one for each digit.
--   The elements of a render leave out layout boxes, styling and decorating icons.
--   In the administrators' console a mount is a number: a component that is mounted again starts with
--   fresh cells, and setters of a mount that is gone do nothing. A 401 is an answer of its own, all else
--   that is not the data asked for is thrown. What JavaScript's Number gives at a text that is not a
--   plain numeral is a parameter (Numbers). Another tab's write to localStorage and the event that tells
--   of it are two steps. The file of a backup is left to the browser.
--
-- Not modelled: the backend (its replies are arbitrary), what the administrators' views show but for
-- the overview, the users and the hidden plan, what the documents page shows with its Markdown renderer,
-- scrolling, React's batching, the reset of a view's cells in the user console when it is mounted again,
-- build and deployment files.
pub mod Prelude
pub mod Async
pub mod UserWeb
pub mod AdminWeb
