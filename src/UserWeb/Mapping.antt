-- ===== src/UserWeb/Mapping.antt =====
-- mapUser, mapImage and mapPlan: from what the server sends to what the page keeps.
use Prim.Native.Char.{code}
use infinite_image_hosting.Prelude.{
  ℕ, zero, suc, String, ◌<>◌, ◌==◌, str_eq, Bool, true, false, ◌||◌, ◌&&◌, if◌then◌else◌, ◌or◌,
  some, get_or,
}
use infinite_image_hosting.UserWeb.Types.{
  User, ApiUser, ImageItem, ApiImage, PricingPlan, ApiPlan, public, private,
}
use infinite_image_hosting.UserWeb.Format.{
  Floats, round_div, format_bytes, format_quota_bytes, format_quota_count,
}

-- `email.split("@")[0]`
unfoldable pub before_at : String → String
before_at String.[] = String.[]
before_at (String.◌∷◌ c s) =
    let rest = before_at s in if code c == b'@' then "" else String.◌∷◌ c rest

-- `text.endsWith(suffix)`
unfoldable pub ends_with : String → String → Bool
ends_with suffix String.[] = str_eq suffix ""
ends_with suffix (String.◌∷◌ c s) =
    let later = ends_with suffix s in str_eq suffix (String.◌∷◌ c s) || later

-- `text.startsWith(prefix)`
unfoldable pub starts_with : String → String → Bool
starts_with String.[] s = true
starts_with (String.◌∷◌ p ps) String.[] = false
starts_with (String.◌∷◌ p ps) (String.◌∷◌ c s) =
    let later = starts_with ps s in code p == code c && later

-- `text.length`, in code units: exact for the ASCII texts that it is applied to
unfoldable pub size_of : String → ℕ
size_of String.[] = 0
size_of (String.◌∷◌ c s) = suc (size_of s)

-- `text.replace(/suffix$/, replacement)`
unfoldable pub replace_end : String → String → String → String
replace_end suffix replacement String.[] = String.[]
replace_end suffix replacement (String.◌∷◌ c s) =
    let rest = replace_end suffix replacement s in
    if str_eq (String.◌∷◌ c s) suffix then replacement else String.◌∷◌ c rest

-- `text.slice(0, n)`
unfoldable pub slice_to : ℕ → String → String
slice_to zero s = ""
slice_to (suc n) String.[] = ""
slice_to (suc n) (String.◌∷◌ c s) = String.◌∷◌ c (slice_to n s)

unfoldable pub map_user : ApiUser → User
unfolding before_at
map_user u = record {
  id = u.id;
  name = u.nickname or before_at u.email;
  email = u.email;
  plan = u.plan_slug or "go";
  email_verified = u.email_verified;
  avatar_url = some (get_or u.avatar_url "" or "");
}

-- The page's surroundings: the base URL of the API, today's date (`new Date().toISOString()`, its
-- first ten characters), and the rounding of inexact quotients.
pub record Env : Type 0 where
  pub api_base : String
  pub today : String
  pub floats : Floats

module _ (env : Env) where
  unfoldable pub map_image : ApiImage → ImageItem
  unfolding replace_end slice_to
  map_image image = record {
    id = image.public_id;
    url = replace_end "/api/v1" "" env.api_base <> ("/i/" <> image.public_id);
    name = image.filename;
    size = format_bytes image.bytes;
    date = slice_to 10 image.created_at or env.today;
    privacy = if image.private then private else public;
  }

  unfoldable pub map_plan : ApiPlan → PricingPlan
  map_plan plan = record {
    id = plan.slug;
    name = plan.name;
    price_mo = round_div plan.monthly_price_cent 100;
    price_yr = round_div plan.yearly_price_cent 100;
    storage = format_quota_bytes plan.quota.storage_bytes;
    traffic = format_quota_bytes plan.quota.bandwidth_bytes;
    requests = format_quota_count env.floats plan.quota.image_requests;
    api = format_quota_count env.floats plan.quota.api_calls;
    process = format_quota_count env.floats plan.quota.image_process_events;
    color =
        if str_eq plan.slug "plus"
        then "bg-blue-50 border-blue-200"
        else if str_eq plan.slug "ultra"
        then "bg-slate-800 text-white"
        else "bg-slate-50 border-slate-200";
    popular = str_eq plan.slug "plus";
    storage_bytes = plan.quota.storage_bytes;
    bandwidth_bytes = plan.quota.bandwidth_bytes;
    image_requests = plan.quota.image_requests;
    api_calls = plan.quota.api_calls;
    image_process_events = plan.quota.image_process_events;
  }
