-- ===== src/Mime/Html/Attributes.antt =====
-- The attributes that an element keeps.
use tmpmail_fyi.Common.{
  Bool-cases, All, All-append, Bytes, codes, eq_bytes, to_lower, has_prefix, trim_space,
  trim_space_idem, ◌≡◌, refl, inl, inr, Bool, true, false, ◌&&◌, List, [], ◌∷◌, ◌++◌, arith,
}
use tmpmail_fyi.Mime.Html.{
  Attribute, HtmlLibrary, safe_link, has_link, opens_outside, safe_image_source, is_image, is_kept,
  filter_attributes, clean_attributes,
}

module _ (lib : HtmlLibrary) (load_images : Bool) (tag : Bytes) where
  -- No event handler, no source but that of a remote image on request, no link but a safe one of an
  -- `a`, and no say on where a link opens but that it opens outside.
  pub record IsSafeAttribute (a : Attribute) : Type 0 where
    pub no_handler : has_prefix (to_lower a.key) (codes "on") ≡ false
    pub no_srcset : eq_bytes (to_lower a.key) (codes "srcset") ≡ false
    pub source :
        eq_bytes (to_lower a.key) (codes "src") ≡ true
        → (load_images ≡ true)
          × (eq_bytes tag (codes "img") ≡ true)
          × (safe_image_source lib load_images a.val ≡ true)
    pub link :
        eq_bytes (to_lower a.key) (codes "href") ≡ true
        → (eq_bytes tag (codes "a") ≡ true) × (safe_link a.val ≡ true)
    pub target : eq_bytes (to_lower a.key) (codes "target") ≡ true → a.val ≡ codes "_blank"
    pub rel : eq_bytes (to_lower a.key) (codes "rel") ≡ true → a.val ≡ codes "noopener noreferrer"

  kept-IsSafeAttribute : (a : Attribute) → is_kept lib load_images tag a ≡ true → IsSafeAttribute a
  kept-IsSafeAttribute a h = record {
    no_handler = ground arith;
    no_srcset = ground arith;
    source = λ e. ground arith;
    link = λ e. ground arith;
    target = λ e. ground arith;
    rel = λ e. ground arith;
  }

  safe_image_source-trim_space :
      (value : Bytes)
      → safe_image_source lib load_images (trim_space value)
        ≡ safe_image_source lib load_images value
  unfolding safe_image_source
  safe_image_source-trim_space value = rw (trim_space_idem value) refl

  abbrev trimmed_source : Attribute → Attribute
  trimmed_source a = record { key = codes "src"; val = trim_space a.val }

  image-IsSafeAttribute :
      (a : Attribute) → is_image lib load_images tag a ≡ true → IsSafeAttribute (trimmed_source a)
  unfolding has_prefix eq_bytes
  image-IsSafeAttribute a h = record {
    no_handler = refl;
    no_srcset = refl;
    source = λ e. ground (arith, safe_image_source-trim_space a.val);
    link = λ e. ground arith;
    target = λ e. ground arith;
    rel = λ e. ground arith;
  }

  filter_attributes-IsSafe :
      (attrs : List Attribute) → All IsSafeAttribute (filter_attributes lib load_images tag attrs)
  unfolding filter_attributes
  filter_attributes-IsSafe [] = tt
  filter_attributes-IsSafe (a ∷ attrs) = elim (Bool-cases (is_image lib load_images tag a)) [
    | inl e ↦ rw e (image-IsSafeAttribute a e, filter_attributes-IsSafe attrs)
    | inr e ↦ elim (Bool-cases (is_kept lib load_images tag a)) [
      | inl f ↦ rw (e, f) (kept-IsSafeAttribute a f, filter_attributes-IsSafe attrs)
      | inr f ↦ rw (e, f) (filter_attributes-IsSafe attrs)
    ]
  ]

  opens_outside-IsSafe : All IsSafeAttribute opens_outside
  unfolding has_prefix eq_bytes
  opens_outside-IsSafe = (
    record {
      no_handler = refl;
      no_srcset = refl;
      source = λ e. cc;
      link = λ e. cc;
      target = λ e. refl;
      rel = λ e. cc;
    },
    (
      record {
        no_handler = refl;
        no_srcset = refl;
        source = λ e. cc;
        link = λ e. cc;
        target = λ e. cc;
        rel = λ e. refl;
      },
      tt,
    ),
  )

  -- A link that leaves the page opens outside.
  abbrev pub LinksOutside : List Attribute → Type 0
  LinksOutside attrs =
      (eq_bytes tag (codes "a") && has_link attrs) ≡ true
      → (kept : List Attribute) × (attrs ≡ kept ++ opens_outside)

  pub clean_attributes-IsSafe :
      (attrs : List Attribute)
      → All IsSafeAttribute (clean_attributes lib load_images tag attrs)
        × LinksOutside (clean_attributes lib load_images tag attrs)
  unfolding clean_attributes
  clean_attributes-IsSafe attrs =
      let kept = filter_attributes lib load_images tag attrs in
      elim (Bool-cases (eq_bytes tag (codes "a") && has_link kept)) [
        | inl e ↦ rw e (
          All-append IsSafeAttribute kept opens_outside (filter_attributes-IsSafe attrs)
              opens_outside-IsSafe,
          λ h. (kept, refl),
        )
        | inr e ↦ rw e (filter_attributes-IsSafe attrs, λ h. absurd (ground arith))
      ]

  trimmed_source-is_image :
      (a : Attribute)
      → is_image lib load_images tag a ≡ true
      → is_image lib load_images tag (trimmed_source a) ≡ true
  unfolding eq_bytes
  trimmed_source-is_image a h = ground (arith, safe_image_source-trim_space a.val)

  filter_attributes_idem :
      (attrs : List Attribute)
      → filter_attributes lib load_images tag (filter_attributes lib load_images tag attrs)
        ≡ filter_attributes lib load_images tag attrs
  unfolding filter_attributes
  filter_attributes_idem [] = refl
  filter_attributes_idem (a ∷ attrs) = elim (Bool-cases (is_image lib load_images tag a)) [
    | inl e ↦
        rw
          (
            e,
            filter_attributes,
            trimmed_source-is_image a e,
            filter_attributes_idem attrs,
            trim_space_idem a.val,
          )
          refl
    | inr e ↦ elim (Bool-cases (is_kept lib load_images tag a)) [
      | inl f ↦ rw (e, f, filter_attributes, e, f, filter_attributes_idem attrs) refl
      | inr f ↦ rw (e, f) (filter_attributes_idem attrs)
    ]
  ]

  filter_attributes-opens_outside :
      (attrs : List Attribute)
      → filter_attributes lib load_images tag (attrs ++ opens_outside)
        ≡ filter_attributes lib load_images tag attrs
  unfolding filter_attributes eq_bytes has_prefix
  filter_attributes-opens_outside [] = ground arith
  filter_attributes-opens_outside (a ∷ attrs) = rw (filter_attributes-opens_outside attrs) refl

  pub clean_attributes_idem :
      (attrs : List Attribute)
      → clean_attributes lib load_images tag (clean_attributes lib load_images tag attrs)
        ≡ clean_attributes lib load_images tag attrs
  unfolding clean_attributes
  clean_attributes_idem attrs =
      let kept = filter_attributes lib load_images tag attrs in
      elim (Bool-cases (eq_bytes tag (codes "a") && has_link kept)) [
        | inl e ↦
            rw
              (
                e,
                clean_attributes,
                filter_attributes-opens_outside kept,
                filter_attributes_idem attrs,
                e,
              )
              refl
        | inr e ↦ rw (e, clean_attributes, filter_attributes_idem attrs, e) refl
      ]
