-- ===== src/Mime/Render.antt =====
-- What of a tree is shown: findElement, sanitizeHTMLWithImages and htmlText of internal/app/mime.go.
pub mod Sanitized
use tmpmail_fyi.Common.{
  if◌then◌else◌, keep_if, Bytes, codes, eq_bytes, trim_space, Bool, ◌&&◌, Option, none, some, List,
  [], ◌∷◌, ◌++◌,
}
use tmpmail_fyi.Mime.Html.{
  NodeType, Node, Nodes, HtmlLibrary, is_element, is_text, remove_unsafe_html, node, nil, cons,
}

abbrev pub is_named : Bytes → NodeType → Bytes → Bool
is_named name kind data_name = is_element kind && eq_bytes data_name name

unfoldable pub first_of : Option Node → Option Node → Option Node
first_of (some n) rest = some n
first_of none rest = rest

-- The first element of a name, in document order.
unfoldable mutual
  unfolding eq_bytes first_of

  pub find_element : Bytes → Node → Option Node
  find_element name (node kind data_name attrs children) =
      let below = find_in name children in
      if is_named name kind data_name then some (node kind data_name attrs children) else below

  pub find_in : Bytes → Nodes → Option Node
  find_in name nil = none
  find_in name (cons child rest) = first_of (find_element name child) (find_in name rest)

abbrev pub child_nodes : Option Node → Nodes
child_nodes none = nil
child_nodes (some (node kind name attrs children)) = children

abbrev pub is_style : Node → Bool
is_style (node kind name attrs children) = is_named (codes "style") kind name

unfoldable pub to_list : Nodes → List Node
to_list nil = []
to_list (cons n rest) = n ∷ to_list rest

-- The styles of the head, and the content of the body.
unfoldable pub shown_nodes : Node → List Node
unfolding find_element to_list
shown_nodes doc =
    keep_if is_style (to_list (child_nodes (find_element (codes "head") doc)))
    ++ to_list (child_nodes (find_element (codes "body") doc))

module _ (lib : HtmlLibrary) where
  unfoldable pub render_all : List Node → Bytes
  render_all [] = []
  render_all (n ∷ nodes) = lib.render n ++ render_all nodes

  abbrev sanitize_parsed : Bool → Option Node → Bytes
  sanitize_parsed load_images none = []
  sanitize_parsed load_images (some doc) =
      render_all (shown_nodes (remove_unsafe_html lib load_images doc))

  unfoldable pub sanitize_html : Bool → Bytes → Bytes
  unfolding render_all shown_nodes remove_unsafe_html
  sanitize_html load_images [] = []
  sanitize_html load_images (c ∷ source) = sanitize_parsed load_images (lib.parse (c ∷ source))

-- The texts outside styles, a blank after each.
unfoldable mutual
  unfolding eq_bytes

  pub walk_text : Node → Bytes
  walk_text (node kind name attrs children) =
      let below = walk_texts children in
      if is_named (codes "style") kind name
      then []
      else (if is_text kind then name ++ b' ' ∷ below else below)

  pub walk_texts : Nodes → Bytes
  walk_texts nil = []
  walk_texts (cons n rest) = walk_text n ++ walk_texts rest

abbrev text_of_parsed : Option Node → Bytes
text_of_parsed none = []
text_of_parsed (some doc) = trim_space (walk_text doc)

unfoldable pub html_text : HtmlLibrary → Bytes → Bytes
unfolding trim_space walk_text
html_text lib source = text_of_parsed (lib.parse source)
