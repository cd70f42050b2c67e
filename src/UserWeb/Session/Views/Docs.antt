-- ===== src/UserWeb/Session/Views/Docs.antt =====
-- The handlers of DocsView and the tokens of the session.
use infinite_image_hosting.Async.Rules.{Holds}
use infinite_image_hosting.UserWeb.Rules.{Holds-call}
use infinite_image_hosting.UserWeb.Types.{DocsPanel}
use infinite_image_hosting.UserWeb.Http
use infinite_image_hosting.UserWeb.Page.{Page, DocsState}
use infinite_image_hosting.UserWeb.Views.Docs
use infinite_image_hosting.UserWeb.Session.InSync.{InSync, sync_steps}

pub Holds-set_docs : (f : DocsState → DocsState) → Holds InSync (Docs.set_docs f)
unfolding Docs.set_docs
Holds-set_docs f = search sync_steps

pub Holds-open_reference_panel :
    (panel : DocsPanel) → Holds InSync (Docs.open_reference_panel panel)
unfolding Docs.open_reference_panel
Holds-open_reference_panel panel = search (sync_steps, Holds-set_docs) depth 14

pub Holds-docs_effect : (seen : Page) → Holds InSync (Docs.docs_effect seen)
unfolding Docs.docs_effect
Holds-docs_effect seen =
    search
      (sync_steps, Holds-set_docs, Holds-call Http.fetch_openapi, Holds-call Http.fetch_markdown)
      depth 14
