-- ===== src/UserWeb/Render/Controls/Gallery.antt =====
-- The controls of the gallery.
use infinite_image_hosting.Prelude.{Option, none, some, List, [], ◌∷◌}
use infinite_image_hosting.UserWeb.Types.{User, ImageItem}
use infinite_image_hosting.UserWeb.Mapping.{Env}
use infinite_image_hosting.UserWeb.Page.{Page}
use infinite_image_hosting.UserWeb.Views.Gallery.{TextOps, LinkFormat}
use infinite_image_hosting.UserWeb.Render.Controls.{Offers, offers_rules}
use infinite_image_hosting.UserWeb.Requests.Starts.{starts}
use infinite_image_hosting.UserWeb.Render.Gallery.{
  link_row, image_detail_view, image_card, image_grid, image_list, gallery_of, gallery_view,
}

module _ (ops : TextOps) (env : Env) (seen : Page) (u : User) where
  link_row-Offers : (img : ImageItem) (type : LinkFormat) → Offers u (link_row ops env img type)
  unfolding link_row
  link_row-Offers img type = search (offers_rules, starts) depth 10

  image_detail_view-Offers : (img : ImageItem) → Offers u (image_detail_view ops env seen img)
  unfolding image_detail_view
  image_detail_view-Offers img = search (offers_rules, link_row-Offers, starts) depth 40

  image_card-Offers : (img : ImageItem) → Offers u (image_card ops env img)
  unfolding image_card
  image_card-Offers img = search (offers_rules, starts) depth 20

  image_grid-Offers :
      (images filtered : List ImageItem) → Offers u (image_grid ops env images filtered)
  unfolding image_grid
  image_grid-Offers [] filtered = search (offers_rules) depth 10
  image_grid-Offers (i ∷ images) [] = search (offers_rules) depth 10
  image_grid-Offers (i ∷ images) (f ∷ filtered) = search (offers_rules, image_card-Offers) depth 10

  image_list-Offers : Offers u (image_list ops env seen)
  unfolding image_list
  image_list-Offers = search (offers_rules, image_grid-Offers, starts) depth 20

  gallery_of-Offers : (o : Option ImageItem) → Offers u (gallery_of ops env seen o)
  unfolding gallery_of
  gallery_of-Offers none = image_list-Offers
  gallery_of-Offers (some img) = image_detail_view-Offers img

  pub gallery_view-Offers : Offers u (gallery_view ops env seen)
  unfolding gallery_view
  gallery_view-Offers = gallery_of-Offers seen.gallery.selected
