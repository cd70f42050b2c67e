-- ===== src/UserWeb/Views/Gallery/Filter.antt =====
-- The gallery's filter.
use infinite_image_hosting.Prelude.{
  refl, ap, ◌∙◌, String, ◌≡◌, ◌⊎◌, inl, inr, ◌↔◌, Bool, true, false, Bool-cases, filter, truthy,
  List, [], ◌∷◌, ◌++◌, arith,
}
use infinite_image_hosting.UserWeb.Types.{ImageItem, public, private, ImagePrivacy}
use infinite_image_hosting.UserWeb.Page.{GalleryState, PrivacyFilter, all, only}
use infinite_image_hosting.UserWeb.Views.Gallery.{
  TextOps, filtered_images, same_privacy, matches_privacy, matches_keyword,
}

-- The query, trimmed and in lower case, is empty, or the text of a field has it, lower case too.

abbrev pub Asked : TextOps → (query : String) → ImageItem → Type 0
Asked ops query image =
    let keyword = ops.to_lower (ops.trim query) in
    (truthy keyword ≡ false)
    ⊎ (ops.contains (ops.to_lower image.id) keyword ≡ true)
    ⊎ (ops.contains (ops.to_lower image.name) keyword ≡ true)
    ⊎ (ops.contains (ops.to_lower image.date) keyword ≡ true)

-- The filter lets everything through, or it is the image's own privacy.
abbrev pub Let : PrivacyFilter → ImageItem → Type 0
Let wanted image = (wanted ≡ all) ⊎ (wanted ≡ only image.privacy)

privacy_iff :
    (wanted : PrivacyFilter) (image : ImageItem)
    → (matches_privacy wanted image ≡ true) ↔ Let wanted image
privacy_iff all image = ((λ h. inl refl), λ h. refl)
privacy_iff (only p) image = same_iff p image.privacy image
  where
    same_iff :
        (p q : ImagePrivacy) (image : ImageItem)
        → (same_privacy q p ≡ true) ↔ ((only p ≡ all) ⊎ (only p ≡ only q))
    same_iff public public image = ((λ h. inr refl), λ h. refl)
    same_iff private private image = ((λ h. inr refl), λ h. refl)
    same_iff public private image = ((λ h. cc), λ h. elim h [ inl e ↦ cc | inr e ↦ cc ])
    same_iff private public image = ((λ h. cc), λ h. elim h [ inl e ↦ cc | inr e ↦ cc ])

keyword_iff :
    (ops : TextOps) (query : String) (image : ImageItem)
    → (matches_keyword ops query image ≡ true) ↔ Asked ops query image
keyword_iff ops query image = ((λ h. ground arith), λ h. ground arith)

filter-append :
    (test : ImageItem → Bool) (xs ys : List ImageItem)
    → filter test (xs ++ ys) ≡ filter test xs ++ filter test ys
filter-append test [] ys = refl
filter-append test (x ∷ xs) ys = elim (Bool-cases (test x)) [
  | inl fits ↦ rw fits (ap (λ r. x ∷ r) (filter-append test xs ys))
  | inr fails ↦ rw fails (filter-append test xs ys)
]

module _ (ops : TextOps) (g : GalleryState) where
  filtered-append :
      (xs ys : List ImageItem)
      → filtered_images ops g (xs ++ ys) ≡ filtered_images ops g xs ++ filtered_images ops g ys
  unfolding filtered_images
  filtered-append xs ys = filter-append _ xs ys

  filtered-cons :
      (image : ImageItem) (ys : List ImageItem)
      → ((Asked ops g.query image × Let g.privacy_filter image)
          × (filtered_images ops g (image ∷ ys) ≡ image ∷ filtered_images ops g ys))
        ⊎ ((¬ (Asked ops g.query image × Let g.privacy_filter image))
            × (filtered_images ops g (image ∷ ys) ≡ filtered_images ops g ys))
  unfolding filtered_images
  filtered-cons image ys = elim (Bool-cases (matches_keyword ops g.query image)) [
    | inl asked ↦ elim (Bool-cases (matches_privacy g.privacy_filter image)) [
      | inl through ↦ inl (
        ((keyword_iff ops g.query image).0 asked, (privacy_iff g.privacy_filter image).0 through),
        rw (asked, through) refl,
      )
      | inr kept ↦
          inr ((λ h. cc (kept, (privacy_iff g.privacy_filter image).1 h.1)), rw (asked, kept) refl)
    ]
    | inr other ↦ inr ((λ h. cc (other, (keyword_iff ops g.query image).1 h.0)), rw other refl)
  ]

  -- An image in the list is shown, in its place between those before and those after it, if the
  -- query, trimmed and in lower case, is empty or occurs in its id, its name or its date, and the
  -- filter is off or is the image's own privacy. Otherwise just the others are shown.
  pub filter_selects :
      (image : ImageItem) (xs ys : List ImageItem)
      → ((Asked ops g.query image × Let g.privacy_filter image)
          × (filtered_images ops g (xs ++ (image ∷ ys))
              ≡ filtered_images ops g xs ++ (image ∷ filtered_images ops g ys)))
        ⊎ ((¬ (Asked ops g.query image × Let g.privacy_filter image))
            × (filtered_images ops g (xs ++ (image ∷ ys))
                ≡ filtered_images ops g xs ++ filtered_images ops g ys))
  filter_selects image xs ys = elim (filtered-cons image ys) [
    | inl (fits, shown) ↦
        inl (fits, filtered-append xs (image ∷ ys) ∙ ap (λ r. filtered_images ops g xs ++ r) shown)
    | inr (fails, left) ↦
        inr (fails, filtered-append xs (image ∷ ys) ∙ ap (λ r. filtered_images ops g xs ++ r) left)
  ]
