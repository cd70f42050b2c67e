-- ===== src/AdminWeb/Audit/Content.antt =====
-- The views that only read, ImageModView and HotlinkConfigView.
use infinite_image_hosting.Prelude.{String, Bool}
use infinite_image_hosting.Async.Within.{Stays}
use infinite_image_hosting.AdminWeb.Text.{TextOps}
use infinite_image_hosting.AdminWeb.Page.{AdminPage}
use infinite_image_hosting.AdminWeb.Views.Reads
use infinite_image_hosting.AdminWeb.Views.Moderation
use infinite_image_hosting.AdminWeb.Views.Hotlink
use infinite_image_hosting.AdminWeb.Audit.{Audited, Ends}
use infinite_image_hosting.AdminWeb.Audit.Rules.{console_rules}

pub Stays-load_overview : (seen : AdminPage) → Stays Audited Ends (Reads.load_overview seen)
unfolding Reads.load_overview
Stays-load_overview seen = search (console_rules) depth 24

pub Stays-load_storage : (seen : AdminPage) → Stays Audited Ends (Reads.load_storage seen)
unfolding Reads.load_storage
Stays-load_storage seen = search (console_rules) depth 24

pub Stays-load_cdn : (seen : AdminPage) → Stays Audited Ends (Reads.load_cdn seen)
unfolding Reads.load_cdn
Stays-load_cdn seen = search (console_rules) depth 24

pub Stays-load_records : (seen : AdminPage) → Stays Audited Ends (Reads.load_records seen)
unfolding Reads.load_records
Stays-load_records seen = search (console_rules) depth 24

pub Stays-load_security : (seen : AdminPage) → Stays Audited Ends (Reads.load_security seen)
unfolding Reads.load_security
Stays-load_security seen = search (console_rules) depth 24

pub Stays-load_logs :
    (ops : TextOps) (seen : AdminPage) → Stays Audited Ends (Reads.load_logs ops seen)
unfolding Reads.load_logs
Stays-load_logs ops seen = search (console_rules) depth 24

pub Stays-set_audit_keyword :
    (seen : AdminPage) (text : String) → Stays Audited Ends (Reads.set_audit_keyword seen text)
unfolding Reads.set_audit_keyword
Stays-set_audit_keyword seen text = search (console_rules) depth 24

pub Stays-set_action_filter :
    (seen : AdminPage) (text : String) → Stays Audited Ends (Reads.set_action_filter seen text)
unfolding Reads.set_action_filter
Stays-set_action_filter seen text = search (console_rules) depth 24

pub Stays-set_image_keyword :
    (seen : AdminPage) (text : String) → Stays Audited Ends (Moderation.set_image_keyword seen text)
unfolding Moderation.set_image_keyword
Stays-set_image_keyword seen text = search (console_rules) depth 24

pub Stays-set_image_filter :
    (seen : AdminPage) (text : String) → Stays Audited Ends (Moderation.set_image_filter seen text)
unfolding Moderation.set_image_filter
Stays-set_image_filter seen text = search (console_rules) depth 24

pub Stays-load_images :
    (ops : TextOps) (seen : AdminPage) → Stays Audited Ends (Moderation.load_images ops seen)
unfolding Moderation.load_images
Stays-load_images ops seen = search (console_rules) depth 24

pub Stays-freeze_image :
    (ops : TextOps) (seen : AdminPage) (id : String)
    → Stays Audited Ends (Moderation.freeze_image ops seen id)
unfolding Moderation.freeze_image
Stays-freeze_image ops seen id = search (console_rules, Stays-load_images) depth 24

pub Stays-delete_image :
    (ops : TextOps) (seen : AdminPage) (id : String)
    → Stays Audited Ends (Moderation.delete_image ops seen id)
unfolding Moderation.delete_image
Stays-delete_image ops seen id = search (console_rules, Stays-load_images) depth 24

pub Stays-load_hotlink : (seen : AdminPage) → Stays Audited Ends (Hotlink.load_hotlink seen)
unfolding Hotlink.load_hotlink
Stays-load_hotlink seen = search (console_rules) depth 24

pub Stays-set_allowed :
    (seen : AdminPage) (text : String) → Stays Audited Ends (Hotlink.set_allowed seen text)
unfolding Hotlink.set_allowed
Stays-set_allowed seen text = search (console_rules) depth 24

pub Stays-set_blocked :
    (seen : AdminPage) (text : String) → Stays Audited Ends (Hotlink.set_blocked seen text)
unfolding Hotlink.set_blocked
Stays-set_blocked seen text = search (console_rules) depth 24

pub Stays-set_allow_empty :
    (seen : AdminPage) (checked : Bool) → Stays Audited Ends (Hotlink.set_allow_empty seen checked)
unfolding Hotlink.set_allow_empty
Stays-set_allow_empty seen checked = search (console_rules) depth 24

pub Stays-save_hotlink :
    (ops : TextOps) (seen : AdminPage) → Stays Audited Ends (Hotlink.save_hotlink ops seen)
unfolding Hotlink.save_hotlink
Stays-save_hotlink ops seen = search (console_rules) depth 24
