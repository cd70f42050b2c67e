-- ===== src/UserWeb/Rules.antt =====
-- The rules of Async.Rules at the calls of this page: proof search takes `Holds-call` at a request.
use infinite_image_hosting.Async.Program.{fetch}
use infinite_image_hosting.Async.Rules.{Holds, Holds-fetch}
use infinite_image_hosting.UserWeb.Http.{Request, Reply}
use infinite_image_hosting.UserWeb.Page.{Page}

pub Holds-call : {P : Page → Type 0} (r : Request) → Holds P (fetch {S = Page} {Reply = Reply} r)
Holds-call r = Holds-fetch r
