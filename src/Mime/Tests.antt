-- ===== src/Mime/Tests.antt =====
-- Rendering at concrete messages.
use mathlib.Core.Option
use tmpmail_fyi.Common.{
  ◌==◌, if◌then◌else◌, length, get_elem?, Bytes, codes, eq_bytes, equal_fold, has_prefix,
  trim_space, ◌+◌, ◌≡◌, refl, false, none, some, List, [], ◌∷◌, arith,
}
use tmpmail_fyi.Mime.Html.{
  Attribute, Node, Nodes, HtmlLibrary, is_unsafe_element, safe_link, has_link, opens_outside,
  remove_unsafe_html, text_node, document_node, element_node, node, nil, cons,
}
use tmpmail_fyi.Mime.Html.Clean.{remove_unsafe_html_idem}
use tmpmail_fyi.Mime.Render.{first_of, find_element, sanitize_html, walk_text}
use tmpmail_fyi.Mime.Parts.{
  Part, MimeLibrary, AttachmentPart, no_parts, attachment_filename, keep_part, walk_all, media_of,
  is_multipart, parts_of, attachment_content, parse_email,
}
use tmpmail_fyi.Mime.Parts.Fuel.{ShorterParts, walk, walk_lem}
use tmpmail_fyi.Mime.Parts.Attachments.{attachment_of, attachment_content-listed}

abbrev attr : Bytes → Bytes → Attribute
attr key val = record { key = key; val = val }

abbrev element : Bytes → List Attribute → Nodes → Node
element name attrs children = node element_node name attrs children

abbrev text : Bytes → Node
text s = node text_node s [] nil

-- A script, a handler, and a link to another page.
abbrev page : Node
page = node document_node [] [] (
    cons
      (element (codes "body") [] (
        cons (element (codes "script") [] (cons (text (codes "x()")) nil)) (
          cons
            (element (codes "a")
              (attr (codes "href") (codes " HTTPS://x.test")
                ∷ attr (codes "onClick") (codes "y()")
                ∷ [])
              (cons (text (codes "go")) nil))
            nil)))
      nil)

abbrev clean_page : Node
clean_page = node document_node [] [] (
    cons
      (element (codes "body") [] (
        cons
          (element (codes "a") (attr (codes "href") (codes " HTTPS://x.test") ∷ opens_outside)
            (cons (text (codes "go")) nil))
          nil))
      nil)

abbrev pages : HtmlLibrary
pages = record {
  parse = λ source. some page;
  render = walk_text;
  parse_url = λ source. some (record { scheme = codes "https"; hostname = codes "x.test" });
}

page_cleaned : remove_unsafe_html pages false page ≡ clean_page
unfolding remove_unsafe_html is_unsafe_element eq_bytes has_prefix trim_space safe_link has_link
    equal_fold
page_cleaned = refl

page_shown : sanitize_html pages false (codes "<body>") ≡ codes "go "
unfolding sanitize_html remove_unsafe_html is_unsafe_element eq_bytes first_of walk_text
    find_element has_prefix trim_space
page_shown = refl

remove_unsafe_html_idem_example :
    remove_unsafe_html pages false (remove_unsafe_html pages false page)
    ≡ remove_unsafe_html pages false page
remove_unsafe_html_idem_example = remove_unsafe_html_idem pages false page

-- A body that begins with `m` has one part, the rest of it; its first byte tells the type.
abbrev type_by_first : Bytes → Bytes
type_by_first [] = codes "text/plain"
type_by_first (c ∷ s) =
    if c == b'm'
    then codes "multipart/mixed"
    else if c == b'a'
    then codes "application/pdf"
    else codes "text/plain"

abbrev part_with : Bytes → Part
part_with body = record {
  header = λ name. if eq_bytes name (codes "Content-Type") then type_by_first body else [];
  body = body;
}

abbrev one_part : Bytes → List Part
one_part [] = []
one_part (c ∷ s) = part_with s ∷ []

abbrev first_bytes : MimeLibrary
first_bytes = record {
  read_message = λ raw. some (part_with raw);
  parse_media_type = λ value. some (record { name = value; params = λ name. [] });
  multipart = λ body boundary. one_part body;
  decode_header = λ value. some value;
  read_all = λ body. some body;
  base64 = λ body. none;
  quoted_printable = λ body. none;
  charset = λ label. none;
  to_valid_utf8 = λ s. s;
  format_number = λ n. (n + 48) ∷ [];
}

one_part-ShorterParts : ShorterParts first_bytes
one_part-ShorterParts [] boundary = tt
one_part-ShorterParts (c ∷ s) boundary = (omega arith, tt)

walk_lem_example : walk first_bytes one_part-ShorterParts (part_with (codes "mmapdf")) no_parts ≡ (
    if is_multipart first_bytes (part_with (codes "mmapdf"))
    then walk_all first_bytes
        (walk first_bytes one_part-ShorterParts)
        (parts_of first_bytes (part_with (codes "mmapdf")))
        no_parts
    else keep_part first_bytes
        (part_with (codes "mmapdf"))
        (media_of first_bytes (part_with (codes "mmapdf")))
        no_parts)
walk_lem_example = walk_lem first_bytes one_part-ShorterParts (part_with (codes "mmapdf")) no_parts

pdf_found :
    Option.map attachment_of (attachment_content first_bytes (codes "mmapdf") 0)
    ≡ some (record {
      index = 0;
      filename = codes "attachment-0";
      content_type = codes "application/pdf";
      size = 4;
    })
unfolding attachment_content has_prefix keep_part attachment_filename eq_bytes trim_space walk_all
    equal_fold
pdf_found = refl

attachment_content-listed_example :
    (Option.map attachment_of (attachment_content first_bytes (codes "mmapdf") 0)
      ≡ get_elem? (parse_email first_bytes pages false (codes "mmapdf")).attachments 0)
    × ((p : AttachmentPart)
        → attachment_content first_bytes (codes "mmapdf") 0 ≡ some p
        → p.attachment.size ≡ length p.content)
attachment_content-listed_example =
    attachment_content-listed first_bytes pages false (codes "mmapdf") 0
