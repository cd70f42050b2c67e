-- ===== src/AdminWeb/Audit/Tabs.antt =====
-- The session of the administrators' page beside another tab that signs out.
use infinite_image_hosting.Prelude.{String, ◌≡◌, ◌⊎◌, Option, none}
use infinite_image_hosting.AdminWeb.Types.{AdminAccount}
use infinite_image_hosting.AdminWeb.Page.{AdminPage}
use infinite_image_hosting.AdminWeb.Events

-- The session `admin`, `token`, where the token may already be gone while the account is still there.

pub record IsEnding (admin : Option AdminAccount) (token : Option String) (s : AdminPage)
    : Type 0 where
  pub ending :
      ((s.admin ≡ admin) × (s.stored ≡ token))
      ⊎ ((s.admin ≡ admin) × (s.stored ≡ none))
      ⊎ ((s.admin ≡ none) × (s.stored ≡ none))
