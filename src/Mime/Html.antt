-- ===== src/Mime/Html.antt =====
-- The sanitizer of HTML: removeUnsafeHTML, safeImageSource, safeLink and hasLink of
-- internal/app/mime.go. The parser and the printer of golang.org/x/net/html
-- and net/url are parameters. A tree is a value: RemoveChild and the assignment of attributes give
-- a new one.
pub mod Attributes
pub mod Clean
use tmpmail_fyi.Common.{
  if◌then◌else◌, Bytes, codes, eq_bytes, to_lower, equal_fold, has_prefix, trim_space, Bool, true,
  false, not, ◌&&◌, ◌||◌, Option, none, some, List, [], ◌∷◌, ◌++◌,
}

pub data NodeType : Type 0 where
  error_node text_node document_node element_node comment_node doctype_node raw_node : NodeType

pub record Attribute : Type 0 where
  pub key : Bytes
  pub val : Bytes

mutual
  pub data Node : Type 0 where
    node : NodeType → Bytes → List Attribute → Nodes → Node

  pub data Nodes : Type 0 where
    nil : Nodes
    cons : Node → Nodes → Nodes

pub record Url : Type 0 where
  pub scheme : Bytes
  pub hostname : Bytes

-- html.Parse, html.Render and url.Parse.
pub record HtmlLibrary : Type 0 where
  pub parse : Bytes → Option Node
  pub render : Node → Bytes
  pub parse_url : Bytes → Option Url

abbrev pub is_element : NodeType → Bool
is_element element_node = true
is_element _ = false

abbrev pub is_text : NodeType → Bool
is_text text_node = true
is_text _ = false

abbrev pub is_one_of : Bytes → List Bytes → Bool
is_one_of s [] = false
is_one_of s (t ∷ ts) = eq_bytes s t || is_one_of s ts

abbrev unsafe_elements : List Bytes
unsafe_elements =
    codes "script"
    ∷ codes "iframe"
    ∷ codes "object"
    ∷ codes "embed"
    ∷ codes "link"
    ∷ codes "form"
    ∷ codes "meta"
    ∷ codes "base"
    ∷ []

unfoldable pub is_unsafe_element : Bytes → Bool
is_unsafe_element name = is_one_of name unsafe_elements

unfoldable pub safe_link : Bytes → Bool
unfolding trim_space has_prefix
safe_link value =
    let trimmed = trim_space value in
    let lower = to_lower trimmed in
    has_prefix trimmed (codes "#")
    || has_prefix lower (codes "https://")
    || has_prefix lower (codes "http://")
    || has_prefix lower (codes "mailto:")

unfoldable pub has_link : List Attribute → Bool
unfolding equal_fold has_prefix trim_space
has_link [] = false
has_link (a ∷ attrs) =
    if equal_fold a.key (codes "href") && not (has_prefix (trim_space a.val) (codes "#"))
    then true
    else has_link attrs

abbrev pub opens_outside : List Attribute
opens_outside =
    record { key = codes "target"; val = codes "_blank" }
    ∷ record { key = codes "rel"; val = codes "noopener noreferrer" }
    ∷ []

module _ (lib : HtmlLibrary) (load_images : Bool) where
  abbrev is_remote : Option Url → Bool
  is_remote none = false
  is_remote (some source) =
      (eq_bytes source.scheme (codes "https") || eq_bytes source.scheme (codes "http"))
      && not (eq_bytes source.hostname [])

  unfoldable pub safe_image_source : Bytes → Bool
  unfolding trim_space
  safe_image_source value = is_remote (lib.parse_url (trim_space value))

  abbrev pub is_image : Bytes → Attribute → Bool
  is_image tag a =
      load_images
      && eq_bytes tag (codes "img")
      && eq_bytes (to_lower a.key) (codes "src")
      && safe_image_source a.val

  abbrev pub is_kept : Bytes → Attribute → Bool
  is_kept tag a =
      let name = to_lower a.key in
      not (has_prefix name (codes "on"))
      && not (eq_bytes name (codes "src"))
      && not (eq_bytes name (codes "srcset"))
      && not (eq_bytes name (codes "target"))
      && not (eq_bytes name (codes "rel"))
      && (not (eq_bytes name (codes "href")) || (eq_bytes tag (codes "a") && safe_link a.val))

  -- The loop over the attributes of an element.
  unfoldable pub filter_attributes : Bytes → List Attribute → List Attribute
  unfolding safe_image_source has_prefix eq_bytes safe_link trim_space
  filter_attributes tag [] = []
  filter_attributes tag (a ∷ attrs) =
      let rest = filter_attributes tag attrs in
      if is_image tag a
      then record { key = codes "src"; val = trim_space a.val } ∷ rest
      else if is_kept tag a
      then a ∷ rest
      else rest

  -- A link to another page opens outside.
  unfoldable pub clean_attributes : Bytes → List Attribute → List Attribute
  unfolding filter_attributes has_link
  clean_attributes tag attrs =
      let kept = filter_attributes tag attrs in
      if eq_bytes tag (codes "a") && has_link kept then kept ++ opens_outside else kept

  abbrev pub is_removed : Node → Bool
  is_removed (node kind name attrs children) = is_element kind && is_unsafe_element name

  unfoldable mutual
    unfolding clean_attributes is_unsafe_element

    pub clean_node : Node → Node
    clean_node (node kind name attrs children) =
        node kind name (if is_element kind then clean_attributes name attrs else attrs)
          (clean_nodes children)

    pub clean_nodes : Nodes → Nodes
    clean_nodes nil = nil
    clean_nodes (cons child rest) =
        let cleaned = clean_node child in
        let next = clean_nodes rest in if is_removed child then next else cons cleaned next

  -- The root keeps its own attributes.
  unfoldable pub remove_unsafe_html : Node → Node
  unfolding clean_nodes
  remove_unsafe_html (node kind name attrs children) = node kind name attrs (clean_nodes children)
