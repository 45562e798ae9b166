-- ===== src/Mime/Html/Clean.antt =====
-- Trees without unsafe elements and attributes.
use tmpmail_fyi.Common.{
  if◌then◌else◌, Bool-cases, All, Bytes, codes, eq_bytes, ◌≡◌, refl, ap, ◌∙◌, inl, inr, Bool, true,
  false, ◌&&◌, List, arith,
}
use tmpmail_fyi.Mime.Html.{
  NodeType, Attribute, Node, Nodes, HtmlLibrary, is_element, is_unsafe_element, clean_attributes,
  is_removed, clean_node, clean_nodes, remove_unsafe_html, node, nil, cons,
}
use tmpmail_fyi.Mime.Html.Attributes.{
  IsSafeAttribute, LinksOutside, clean_attributes-IsSafe, clean_attributes_idem,
}

module _ (lib : HtmlLibrary) (load_images : Bool) where
  -- An element has none of these eight names, its attributes are safe, and its links open outside.
  pub record IsSafeElement (name : Bytes) (attrs : List Attribute) : Type 0 where
    pub no_script : eq_bytes name (codes "script") ≡ false
    pub no_iframe : eq_bytes name (codes "iframe") ≡ false
    pub no_object : eq_bytes name (codes "object") ≡ false
    pub no_embed : eq_bytes name (codes "embed") ≡ false
    pub no_link : eq_bytes name (codes "link") ≡ false
    pub no_form : eq_bytes name (codes "form") ≡ false
    pub no_meta : eq_bytes name (codes "meta") ≡ false
    pub no_base : eq_bytes name (codes "base") ≡ false
    pub attributes : All (IsSafeAttribute lib load_images name) attrs
    pub links : LinksOutside lib load_images name attrs

  -- At every depth.
  unfoldable mutual
    pub IsSafe : Node → Type 0
    IsSafe (node kind name attrs children) =
        (is_element kind ≡ true → IsSafeElement name attrs) × AreSafe children

    pub AreSafe : Nodes → Type 0
    AreSafe nil = Unit
    AreSafe (cons n rest) = IsSafe n × AreSafe rest

  allowed-IsSafeElement :
      (name : Bytes) (attrs : List Attribute)
      → is_unsafe_element name ≡ false
      → All (IsSafeAttribute lib load_images name) attrs
      → LinksOutside lib load_images name attrs
      → IsSafeElement name attrs
  unfolding is_unsafe_element
  allowed-IsSafeElement name attrs allowed safe outside = record {
    no_script = ground (arith, allowed);
    no_iframe = ground (arith, allowed);
    no_object = ground (arith, allowed);
    no_embed = ground (arith, allowed);
    no_link = ground (arith, allowed);
    no_form = ground (arith, allowed);
    no_meta = ground (arith, allowed);
    no_base = ground (arith, allowed);
    attributes = safe;
    links = outside;
  }

  clean_element :
      (kind : NodeType) (name : Bytes) (attrs : List Attribute)
      → (is_element kind && is_unsafe_element name) ≡ false
      → is_element kind ≡ true
      → IsSafeElement name
          (if is_element kind then clean_attributes lib load_images name attrs else attrs)
  clean_element kind name attrs kept element =
      let safe = clean_attributes-IsSafe lib load_images name attrs in
      rw element (allowed-IsSafeElement name _ (ground arith) safe.0 safe.1)

  mutual
    unfolding IsSafe clean_node

    clean_node-IsSafe :
        (n : Node) → is_removed lib load_images n ≡ false → IsSafe (clean_node lib load_images n)
    clean_node-IsSafe (node kind name attrs children) kept =
        (clean_element kind name attrs kept, clean_nodes-AreSafe children)

    clean_nodes-AreSafe : (nodes : Nodes) → AreSafe (clean_nodes lib load_images nodes)
    clean_nodes-AreSafe nil = tt
    clean_nodes-AreSafe (cons child rest) = elim (Bool-cases (is_removed lib load_images child)) [
      | inl e ↦ rw e (clean_nodes-AreSafe rest)
      | inr e ↦ rw e (clean_node-IsSafe child e, clean_nodes-AreSafe rest)
    ]

  pub clean_nodes-Safe : (nodes : Nodes) → AreSafe (clean_nodes lib load_images nodes)
  clean_nodes-Safe nodes = clean_nodes-AreSafe nodes

  abbrev if_attributes : NodeType → Bytes → List Attribute → List Attribute
  if_attributes kind name attrs =
      if is_element kind then clean_attributes lib load_images name attrs else attrs

  if_attributes_idem :
      (kind : NodeType) (name : Bytes) (attrs : List Attribute)
      → if_attributes kind name (if_attributes kind name attrs) ≡ if_attributes kind name attrs
  if_attributes_idem kind name attrs = elim (Bool-cases (is_element kind)) [
    | inl e ↦ rw e (clean_attributes_idem lib load_images name attrs)
    | inr e ↦ rw e refl
  ]

  removed-clean_node :
      (n : Node)
      → is_removed lib load_images (clean_node lib load_images n) ≡ is_removed lib load_images n
  unfolding clean_node
  removed-clean_node (node kind name attrs children) = refl

  mutual
    unfolding clean_node

    clean_node_twice :
        (n : Node)
        → clean_node lib load_images (clean_node lib load_images n) ≡ clean_node lib load_images n
    clean_node_twice (node kind name attrs children) =
        rw (if_attributes_idem kind name attrs, clean_nodes_twice children) refl

    clean_nodes_twice :
        (nodes : Nodes)
        → clean_nodes lib load_images (clean_nodes lib load_images nodes)
          ≡ clean_nodes lib load_images nodes
    clean_nodes_twice nil = refl
    clean_nodes_twice (cons child rest) = elim (Bool-cases (is_removed lib load_images child)) [
      | inl e ↦ rw e (clean_nodes_twice rest)
      | inr e ↦
          rw
            (
              e,
              clean_nodes,
              removed-clean_node child ∙ e,
              clean_node_twice child,
              clean_nodes_twice rest,
            )
            refl
    ]

  -- Below the root of any tree removeUnsafeHTML leaves no unsafe element and no unsafe attribute.
  pub remove_unsafe_html-IsSafe :
      (kind : NodeType) (name : Bytes) (attrs : List Attribute) (children : Nodes)
      → (safe : Nodes) × (remove_unsafe_html lib load_images (node kind name attrs children)
          ≡ node kind name attrs safe)
        × AreSafe safe
  unfolding remove_unsafe_html
  remove_unsafe_html-IsSafe kind name attrs children =
      (clean_nodes lib load_images children, refl, clean_nodes-AreSafe children)

  -- What was sanitized once is left as it is.
  pub remove_unsafe_html_idem :
      (doc : Node)
      → remove_unsafe_html lib load_images (remove_unsafe_html lib load_images doc)
        ≡ remove_unsafe_html lib load_images doc
  unfolding remove_unsafe_html
  remove_unsafe_html_idem (node kind name attrs children) =
      ap (node kind name attrs) (clean_nodes_twice children)
