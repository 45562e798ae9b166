-- ===== src/Mime/Parts.antt =====
-- The parts of a message: parseEmailWithImages, AttachmentContent, walkMIMEParts, attachmentFilename,
-- decodeTransferBytes and decodeText of internal/app/mime.go. The packages net/mail, mime,
-- mime/multipart, encoding/base64, mime/quotedprintable and html/charset are a parameter. A part is
-- walked when its body is there in full; the code reads it from the stream of the parts around it.
pub mod Fuel
pub mod Attachments
use tmpmail_fyi.Common.{
  ◌==◌, if◌then◌else◌, length, Bytes, codes, eq_bytes, to_lower, equal_fold, has_prefix, trim_space,
  ℕ, zero, suc, ◌+◌, Bool, true, false, not, ◌&&◌, ◌||◌, Option, none, some, List, [], ◌∷◌, ◌++◌,
  map,
}
use tmpmail_fyi.Http.Raw.{split_raw_message}
use tmpmail_fyi.Mime.Html.{HtmlLibrary}
use tmpmail_fyi.Mime.Render.{sanitize_html, html_text}

-- A header by its names, and a media type with its parameters.
abbrev pub Header : Type 0
Header = Bytes → Bytes

pub record MediaType : Type 0 where
  pub name : Bytes
  pub params : Bytes → Bytes

pub record Part : Type 0 where
  pub header : Header
  pub body : Bytes

pub record MimeLibrary : Type 0 where
  pub read_message : Bytes → Option Part
  pub parse_media_type : Bytes → Option MediaType
  -- multipart.NewReader, and NextPart until it fails
  pub multipart : Bytes → Bytes → List Part
  pub decode_header : Bytes → Option Bytes
  pub read_all : Bytes → Option Bytes
  pub base64 : Bytes → Option Bytes
  pub quoted_printable : Bytes → Option Bytes
  pub charset : Bytes → Option (Bytes → Option Bytes)
  pub to_valid_utf8 : Bytes → Bytes
  pub format_number : ℕ → Bytes

pub record Attachment : Type 0 where
  pub index : ℕ
  pub filename : Bytes
  pub content_type : Bytes
  pub size : ℕ

pub record AttachmentPart : Type 0 where
  pub attachment : Attachment
  pub content : Bytes

-- The parts so far, with the index of the next attachment.
pub record MimeParts : Type 0 where
  pub plain : Bytes
  pub html : Bytes
  pub attachments : List AttachmentPart
  pub index : ℕ

abbrev pub no_parts : MimeParts
no_parts = record { plain = []; html = []; attachments = []; index = 0 }

abbrev no_params : Bytes → Bytes
no_params name = []

abbrev or_else : Bytes → Bytes → Bytes
or_else [] other = other
or_else (c ∷ s) other = c ∷ s

abbrev pub is_nil : Bytes → Bool
is_nil [] = true
is_nil (c ∷ s) = false

-- The loop of AttachmentContent.
abbrev pub content_at : ℕ → List AttachmentPart → Option AttachmentPart
content_at index [] = none
content_at index (part ∷ parts) =
    if part.attachment.index == index then some part else content_at index parts

module _ (lib : MimeLibrary) where
  unfoldable pub decode_transfer_bytes : Bytes → Bytes → Option Bytes
  unfolding trim_space eq_bytes
  decode_transfer_bytes body encoding =
      let name = to_lower (trim_space encoding) in
      if eq_bytes name (codes "base64")
      then lib.base64 body
      else if eq_bytes name (codes "quoted-printable")
      then lib.quoted_printable body
      else lib.read_all body

  abbrev decode_charset : Option (Bytes → Option Bytes) → Bytes → Option Bytes
  decode_charset none content = some content
  decode_charset (some decoder) content = decoder content

  unfoldable pub decode_text : Bytes → Bytes → Bytes → Option Bytes
  unfolding decode_transfer_bytes trim_space
  decode_text body encoding label = elim (decode_transfer_bytes body encoding) [
    | none ↦ none
    | some content ↦ elim (decode_charset (lib.charset (trim_space label)) content) [
      | none ↦ none
      | some text ↦ some (lib.to_valid_utf8 text)
    ]
  ]

  abbrev decoded : Bytes → Option Bytes → Bytes
  decoded value none = value
  decoded value (some text) = or_else text value

  -- The name by the parameter of Content-Type.
  abbrev name_by_type : Bytes → Bool → Bytes × Bool
  name_by_type [] is_attachment = ([], is_attachment)
  name_by_type (c ∷ name) is_attachment = (decoded (c ∷ name) (lib.decode_header (c ∷ name)), true)

  abbrev name_by_disposition : Bytes → Bytes → Bool → Bytes × Bool
  name_by_disposition [] by_type is_attachment = name_by_type by_type is_attachment
  name_by_disposition (c ∷ name) by_type is_attachment =
      (decoded (c ∷ name) (lib.decode_header (c ∷ name)), true)

  unfoldable pub attachment_filename : Header → (Bytes → Bytes) → Bytes × Bool
  unfolding equal_fold
  attachment_filename header params =
      elim (lib.parse_media_type (header (codes "Content-Disposition"))) [
        | none ↦ name_by_type (params (codes "name")) false
        | some disposition ↦
            name_by_disposition (disposition.params (codes "filename")) (params (codes "name"))
              (equal_fold disposition.name (codes "attachment"))
      ]

  abbrev pub media_type_of : Option MediaType → MediaType
  media_type_of none = record { name = codes "text/plain"; params = no_params }
  media_type_of (some media) = media

  -- The first text and the first HTML are the body; the rest of the texts is dropped.
  unfoldable pub keep_text : Bytes → Option Bytes → MimeParts → MimeParts
  unfolding eq_bytes
  keep_text media none parts = parts
  keep_text media (some content) parts =
      let lower = to_lower media in
      if eq_bytes lower (codes "text/html")
      then (if is_nil parts.html then record parts { html = content } else parts)
      else if eq_bytes lower (codes "text/plain") || is_nil lower
      then (if is_nil parts.plain then record parts { plain = content } else parts)
      else parts

  unfoldable pub keep_attachment : Bytes → Bytes → Option Bytes → MimeParts → MimeParts
  keep_attachment filename media none parts = parts
  keep_attachment filename media (some content) parts = record parts {
    attachments =
        parts.attachments
        ++ record {
          attachment = record {
            index = parts.index;
            filename = or_else filename (codes "attachment-" ++ lib.format_number parts.index);
            content_type = media;
            size = length content;
          };
          content = content;
        }
          ∷ [];
    index = parts.index + 1;
  }

  unfoldable pub keep_part : Part → MediaType → MimeParts → MimeParts
  unfolding attachment_filename has_prefix decode_text keep_text decode_transfer_bytes
      keep_attachment
  keep_part part media parts =
      let (filename, marked) = attachment_filename part.header media.params in
      let encoding = part.header (codes "Content-Transfer-Encoding") in
      if marked || (not (has_prefix media.name (codes "text/")) && not (is_nil media.name))
      then keep_attachment filename media.name (decode_transfer_bytes part.body encoding) parts
      else keep_text media.name (decode_text part.body encoding (media.params (codes "charset")))
          parts

  unfoldable pub walk_all : (Part → MimeParts → MimeParts) → List Part → MimeParts → MimeParts
  walk_all walk [] parts = parts
  walk_all walk (part ∷ rest) parts = walk_all walk rest (walk part parts)

  abbrev pub media_of : Part → MediaType
  media_of part = media_type_of (lib.parse_media_type (part.header (codes "Content-Type")))

  abbrev pub is_multipart : Part → Bool
  is_multipart part = has_prefix (media_of part).name (codes "multipart/")

  abbrev pub parts_of : Part → List Part
  parts_of part = lib.multipart part.body ((media_of part).params (codes "boundary"))

  -- A multipart body is walked part by part.
  unfoldable pub walk_mime_parts : ℕ → Part → MimeParts → MimeParts
  unfolding has_prefix keep_part walk_all
  walk_mime_parts zero part parts = parts
  walk_mime_parts (suc fuel) part parts = elim (is_multipart part) [
    | true ↦ walk_all (walk_mime_parts fuel) (parts_of part) parts
    | false ↦ keep_part part (media_of part) parts
  ]

  -- The parts of a part are shorter than it, so this fuel is enough.
  unfoldable pub parts_of_message : Part → MimeParts
  unfolding walk_mime_parts
  parts_of_message message = walk_mime_parts (suc (length message.body)) message no_parts

  abbrev pub attachment_in : Option Part → ℕ → Option AttachmentPart
  attachment_in none index = none
  attachment_in (some message) index = content_at index (parts_of_message message).attachments

  unfoldable pub attachment_content : Bytes → ℕ → Option AttachmentPart
  unfolding parts_of_message
  attachment_content raw index = attachment_in (lib.read_message raw) index

-- The message as it is shown.
pub record ParsedEmail : Type 0 where
  pub headers : Bytes
  pub text : Bytes
  pub html : Bytes
  pub attachments : List Attachment

abbrev shown_text : HtmlLibrary → Bytes → Bytes → Bytes → Bytes
shown_text html_lib fallback [] [] = fallback
shown_text html_lib fallback [] (c ∷ html) = html_text html_lib (c ∷ html)
shown_text html_lib fallback (c ∷ plain) html = c ∷ plain

module _ (lib : MimeLibrary) (html_lib : HtmlLibrary) (load_images : Bool) where
  abbrev pub parse_parts : Bytes × Bytes → Option Part → ParsedEmail
  parse_parts (headers, fallback) none = record {
    headers = headers;
    text = fallback;
    html = [];
    attachments = [];
  }
  parse_parts (headers, fallback) (some message) =
      let parts = parts_of_message lib message in
      let html = sanitize_html html_lib load_images parts.html in
      record {
        headers = headers;
        text = shown_text html_lib fallback parts.plain html;
        html = html;
        attachments = map (λ p. p.attachment) parts.attachments;
      }

  unfoldable pub parse_email : Bytes → ParsedEmail
  unfolding parts_of_message split_raw_message sanitize_html html_text
  parse_email raw = parse_parts (split_raw_message raw) (lib.read_message raw)
