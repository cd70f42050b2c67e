-- ===== src/UserWeb/Tests/Renders.antt =====
-- The theorems on what is rendered, at concrete pages.
use infinite_image_hosting.Prelude.{String, ◌≡◌, refl, ◌++◌, [], ◌∷◌, map}
use infinite_image_hosting.UserWeb.Types.{auth, gallery, success}
use infinite_image_hosting.UserWeb.Page.{Page, boot, put_view, put_toast, login}
use infinite_image_hosting.UserWeb.Screen.{docs_screen, auth_screen, landing_screen}
use infinite_image_hosting.UserWeb.Html.{gather}
use infinite_image_hosting.UserWeb.Render.Landing.{landing_view}
use infinite_image_hosting.UserWeb.Render.Screens.{console_page, auth_page}
use infinite_image_hosting.UserWeb.Render.Controls.{Offers}
use infinite_image_hosting.UserWeb.Render.Events.{console_controls}
use infinite_image_hosting.UserWeb.Render.Forms.{posts, asked_for, auth_form_posts}
use infinite_image_hosting.UserWeb.Render.Leads.{leads, landing_leads, deploy}
use infinite_image_hosting.UserWeb.Tests.Data.{env, ops, user, signed, fresh}

console_controls_example : Offers user (console_page ops env signed user gallery)
console_controls_example = console_controls ops env signed user gallery

-- A visitor with a message on the sign-in view, and one on the landing page.
abbrev greeted : Page
greeted = put_toast "已安全退出" success (put_view auth (boot fresh))

abbrev typed : String → String
typed name = name

auth_form_posts_example :
    gather (posts (λ t. t) greeted typed) (auth_page greeted) ≡ asked_for greeted typed login
unfolding boot
auth_form_posts_example = auth_form_posts (λ t. t) greeted greeted typed refl

landing_leads_example :
    gather (leads (boot fresh)) (landing_view (boot fresh))
    ≡ (("架构优势", landing_screen)
        ∷ ("安全控制", landing_screen)
        ∷ ("订阅计费", landing_screen)
        ∷ ("开放 API", docs_screen)
        ∷ ("登录控制台", auth_screen)
        ∷ ("立即开通", auth_screen)
        ∷ ("访问控制台", auth_screen)
        ∷ ("阅读技术文档", docs_screen)
        ∷ [])
      ++ map deploy (boot fresh).plans
unfolding boot
landing_leads_example = landing_leads (boot fresh) refl refl (boot fresh)
