-- ===== src/Mime/Render/Sanitized.antt =====
-- What sanitizeHTMLWithImages puts out.
use tmpmail_fyi.Common.{Bool-cases, Bytes, inl, inr, Bool, Option, none, some}
use tmpmail_fyi.Mime.Html.{Node, Nodes, HtmlLibrary, node, nil, cons}
use tmpmail_fyi.Mime.Html.Clean.{IsSafe, AreSafe}
use tmpmail_fyi.Mime.Render.{is_named, first_of, find_element, find_in, child_nodes}

module _ (lib : HtmlLibrary) (load_images : Bool) where
  abbrev AreSafeBelow : Option Node → Type 0
  AreSafeBelow o = AreSafe lib load_images (child_nodes o)

  first_of-AreSafeBelow :
      (o p : Option Node) → AreSafeBelow o → AreSafeBelow p → AreSafeBelow (first_of o p)
  unfolding first_of
  first_of-AreSafeBelow none p h k = k
  first_of-AreSafeBelow (some n) p h k = h

  IsSafe-below : (n : Node) → IsSafe lib load_images n → AreSafeBelow (some n)
  unfolding IsSafe
  IsSafe-below (node kind own attrs children) (here, below) = below

  mutual
    unfolding find_element AreSafe

    find_element-AreSafeBelow :
        (name : Bytes) (n : Node) → AreSafeBelow (some n) → AreSafeBelow (find_element name n)
    find_element-AreSafeBelow name (node kind own attrs children) h =
        elim (Bool-cases (is_named name kind own)) [
          | inl e ↦ rw e h
          | inr e ↦ rw e (find_in-AreSafeBelow name children h)
        ]

    find_in-AreSafeBelow :
        (name : Bytes) (nodes : Nodes)
        → AreSafe lib load_images nodes
        → AreSafeBelow (find_in name nodes)
    find_in-AreSafeBelow name nil h = tt
    find_in-AreSafeBelow name (cons child rest) (p, h) =
        first_of-AreSafeBelow (find_element name child) (find_in name rest)
          (find_element-AreSafeBelow name child (IsSafe-below child p))
          (find_in-AreSafeBelow name rest h)
