-- ===== src/UserWeb/Render/Leads.antt =====
-- Where the buttons of the landing page lead.
use infinite_image_hosting.Prelude.{
  String, ◌<>◌, ◌≡◌, refl, ◌∙◌, if◌then◌else◌, truthy, none, List, [], ◌∷◌, ◌++◌, map, Bool-cases,
  inl, inr,
}
use mathlib.Core.List.{append-nil}
use infinite_image_hosting.Async.Loop.{run_sync}
use infinite_image_hosting.UserWeb.Types.{landing, PricingPlan}
use infinite_image_hosting.UserWeb.Page.{Page}
use infinite_image_hosting.UserWeb.App.Navigation.{to_auth, open_docs}
use infinite_image_hosting.UserWeb.Screen.{
  Screen, screen, screen_of, docs_screen, auth_screen, landing_screen,
}
use infinite_image_hosting.UserWeb.Html.{
  Element, label, button, shown_if, each, gather, gather-append, gather-parts,
}
use infinite_image_hosting.UserWeb.Render.Landing.{
  landing_view, landing_head, landing_sections, landing_plan, landing_plans,
  scroll_to_landing_section,
}

-- The caption of a button that is not disabled, and the screen that it leads to from the state `s`.

abbrev pub leads : (s : Page) → Element → List (String × Screen)
leads s (button caption disabled p) =
    if disabled then [] else (caption, screen (run_sync p s).0) ∷ []
leads s _ = []

-- The button of a plan.
abbrev pub deploy : PricingPlan → String × Screen
deploy plan = ("部署 " <> (plan.name <> " 实例"), auth_screen)

module _ (s : Page) (out : s.user ≡ none) (here : s.current_view ≡ landing) where
  head_leads :
      gather (leads s) landing_head
      ≡ ("架构优势", landing_screen)
        ∷ ("安全控制", landing_screen)
        ∷ ("订阅计费", landing_screen)
        ∷ ("开放 API", docs_screen)
        ∷ ("登录控制台", auth_screen)
        ∷ ("立即开通", auth_screen)
        ∷ ("访问控制台", auth_screen)
        ∷ ("阅读技术文档", docs_screen)
        ∷ []
  unfolding landing_head scroll_to_landing_section run_sync to_auth open_docs screen screen_of
  head_leads = rw (out, here) refl

  sections_lead : gather (leads s) landing_sections ≡ []
  unfolding landing_sections
  sections_lead = refl

  plan_leads : (plan : PricingPlan) → gather (leads s) (landing_plan plan) ≡ deploy plan ∷ []
  unfolding landing_plan run_sync to_auth screen screen_of
  plan_leads plan = elim (Bool-cases plan.popular) [
    | inl e ↦ rw (e, out) refl
    | inr e ↦ rw (e, out) refl
  ]

  plans_lead :
      (plans : List PricingPlan) → gather (leads s) (landing_plans plans) ≡ map deploy plans
  unfolding landing_plans
  plans_lead [] = refl
  plans_lead (p ∷ plans) = each_leads (p ∷ plans)
    where
      each_leads :
          (plans : List PricingPlan) → gather (leads s) (each landing_plan plans) ≡ map deploy plans
      each_leads [] = refl
      each_leads (q ∷ qs) =
          gather-append (leads s) (landing_plan q) (each landing_plan qs)
          ∙ rw (plan_leads q, each_leads qs) refl

  problem_leads :
      (problem : String) → gather (leads s) (shown_if (truthy problem) (label problem ∷ [])) ≡ []
  problem_leads problem = elim (Bool-cases (truthy problem)) [
    | inl e ↦ rw e refl
    | inr e ↦ rw e refl
  ]

  parts :
      (head sections titles problem plans end : List Element) {us vs : List (String × Screen)}
      → gather (leads s) head ≡ us
      → gather (leads s) sections ≡ []
      → gather (leads s) titles ≡ []
      → gather (leads s) problem ≡ []
      → gather (leads s) plans ≡ vs
      → gather (leads s) end ≡ []
      → gather (leads s) (head ++ (sections ++ (titles ++ (problem ++ (plans ++ end))))) ≡ us ++ vs
  parts head sections titles problem plans end {us} {vs} h₁ h₂ h₃ h₄ h₅ h₆ =
      gather-parts (leads s) head _ h₁ (
        gather-parts (leads s) sections _ h₂ (
          gather-parts (leads s) titles _ h₃ (
            gather-parts (leads s) problem _ h₄
              (gather-parts (leads s) plans end h₅ h₆ ∙ append-nil vs))))

  -- On the landing page of a visitor the buttons are, in this order: three that stay on the page; one to
  -- the documents; three to the sign-in view; one to the documents; and one for each plan, in the
  -- plans' order, that names it and leads to the sign-in view.
  pub landing_leads :
      (seen : Page)
      → gather (leads s) (landing_view seen)
        ≡ (("架构优势", landing_screen)
            ∷ ("安全控制", landing_screen)
            ∷ ("订阅计费", landing_screen)
            ∷ ("开放 API", docs_screen)
            ∷ ("登录控制台", auth_screen)
            ∷ ("立即开通", auth_screen)
            ∷ ("访问控制台", auth_screen)
            ∷ ("阅读技术文档", docs_screen)
            ∷ [])
          ++ map deploy seen.plans
  unfolding landing_view
  landing_leads seen =
      parts landing_head landing_sections
        (label "透明、可预测的计费模型" ∷ label "按照您的实际业务规模选择合适的计算与存储配额。" ∷ [])
        (shown_if (truthy seen.plans_error) (label seen.plans_error ∷ []))
        (landing_plans seen.plans)
        (label "实例到期后进入 30 天资源保留期，保留期内停止写入权限。超过 30 天将触发自动销毁脚本，数据不可恢复。" ∷ []) head_leads
        sections_lead refl (problem_leads seen.plans_error) (plans_lead seen.plans) refl
