-- ===== src/UserWeb/Views/Docs.antt =====
-- DocsView: the two documents that the server publishes.
use infinite_image_hosting.Prelude.{◌+◌, ◌==◌, if◌then◌else◌}
use infinite_image_hosting.Async.Program.{message_or, set_state, fetch, try_catch, ◌>>=◌, ◌>>◌}
use infinite_image_hosting.UserWeb.Http
use infinite_image_hosting.UserWeb.Types.{DocsPanel}
use infinite_image_hosting.UserWeb.Page.{Page, Handler, DocsState}

unfoldable pub set_docs : (DocsState → DocsState) → Handler (Unit {0})
set_docs f = set_state (λ s. record s { docs = f s.docs })

unfoldable pub open_reference_panel : DocsPanel → Handler (Unit {0})
open_reference_panel panel = set_docs (λ d. record d { active_panel = panel })

-- The effect that reads both documents; the failure of either is the failure of both.
unfoldable pub docs_effect : (seen : Page) → Handler (Unit {0})
docs_effect seen = do
  let run = seen.docs.docs_run + 1
  set_docs (λ d. record d { docs_run = run })
  try_catch
      (do
        openapi_doc ← fetch Http.fetch_openapi
        markdown_doc ← fetch Http.fetch_markdown
        set_docs (λ d.
            if d.docs_run == run
            then record d {
              openapi_text = openapi_doc;
              markdown_text = markdown_doc;
              docs_error = "";
            }
            else d))
      (λ x.
        set_docs
          (λ d. if d.docs_run == run then record d { docs_error = message_or "技术文档读取失败" x } else d))
