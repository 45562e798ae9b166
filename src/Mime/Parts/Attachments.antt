-- ===== src/Mime/Parts/Attachments.antt =====
-- The attachments of a message by their index.
use mathlib.Core.Option
use tmpmail_fyi.Common.{
  ◌==◌, if◌then◌else◌, Bool-cases, length, length-append, get_elem?, Bytes, codes, eq_bytes,
  to_lower, has_prefix, ℕ, zero, suc, ◌+◌, ◌≡◌, refl, ap, ◌∙◌, inl, inr, Bool, true, false, not,
  ◌&&◌, ◌||◌, Option, none, some, List, [], ◌∷◌, ◌++◌, map, arith,
}
use tmpmail_fyi.Http.Raw.{split_raw_message}
use tmpmail_fyi.Mime.Html.{HtmlLibrary}
use tmpmail_fyi.Mime.Parts.{
  MediaType, Part, MimeLibrary, Attachment, AttachmentPart, MimeParts, no_parts, is_nil, content_at,
  attachment_filename, keep_text, keep_attachment, keep_part, walk_all, media_of, is_multipart,
  parts_of, walk_mime_parts, parts_of_message, attachment_in, attachment_content, parse_parts,
  parse_email,
}

-- Each attachment has the next index, and the size of its content.
abbrev Numbered : ℕ → List AttachmentPart → Type 0
Numbered n [] = Unit
Numbered n (p ∷ parts) =
    (p.attachment.index ≡ n) × (p.attachment.size ≡ length p.content) × Numbered (suc n) parts

record IsNumbered (parts : MimeParts) : Type 0 where
  numbered : Numbered 0 parts.attachments
  next : parts.index ≡ length parts.attachments

Numbered-append :
    (n : ℕ) (parts : List AttachmentPart) (p : AttachmentPart)
    → Numbered n parts
    → p.attachment.index ≡ n + length parts
    → p.attachment.size ≡ length p.content
    → Numbered n (parts ++ p ∷ [])
Numbered-append n [] p h i s = (omega (arith, i), s, tt)
Numbered-append n (q ∷ parts) p (j, t, h) i s =
    (j, t, Numbered-append (suc n) parts p h (omega (arith, i)) s)

module _ (lib : MimeLibrary) where
  keep_attachment-IsNumbered :
      (filename media : Bytes) (content : Option Bytes) (parts : MimeParts)
      → IsNumbered parts
      → IsNumbered (keep_attachment lib filename media content parts)
  unfolding keep_attachment
  keep_attachment-IsNumbered filename media none parts v = v
  keep_attachment-IsNumbered filename media (some content) parts v = record {
    numbered = Numbered-append 0 parts.attachments _ v.numbered (omega (arith, v.next)) refl;
    next = omega (arith, v.next, length-append parts.attachments (_ ∷ []));
  }

  if-IsNumbered :
      (b : Bool) (p q : MimeParts) → IsNumbered p → IsNumbered q → IsNumbered (if b then p else q)
  if-IsNumbered true p q h k = h
  if-IsNumbered false p q h k = k

  keep_text-IsNumbered :
      (media : Bytes) (content : Option Bytes) (parts : MimeParts)
      → IsNumbered parts
      → IsNumbered (keep_text lib media content parts)
  unfolding keep_text
  keep_text-IsNumbered media none parts v = v
  keep_text-IsNumbered media (some content) parts v =
      let with_html : IsNumbered (record parts { html = content }) = record {
        numbered = v.numbered;
        next = v.next;
      } in
      let with_plain : IsNumbered (record parts { plain = content }) = record {
        numbered = v.numbered;
        next = v.next;
      } in
      if-IsNumbered (eq_bytes (to_lower media) (codes "text/html")) _ _
        (if-IsNumbered (is_nil parts.html) _ _ with_html v)
        (if-IsNumbered (eq_bytes (to_lower media) (codes "text/plain") || is_nil (to_lower media)) _
          _ (if-IsNumbered (is_nil parts.plain) _ _ with_plain v) v)

  keep_part-IsNumbered :
      (part : Part) (media : MediaType) (parts : MimeParts)
      → IsNumbered parts
      → IsNumbered (keep_part lib part media parts)
  unfolding keep_part
  keep_part-IsNumbered part media parts v =
      let (filename, marked) = attachment_filename lib part.header media.params in
      if-IsNumbered
        (marked || (not (has_prefix media.name (codes "text/")) && not (is_nil media.name))) _ _
        (keep_attachment-IsNumbered filename media.name _ parts v)
        (keep_text-IsNumbered media.name _ parts v)

  walk_all-IsNumbered :
      (f : Part → MimeParts → MimeParts) (rest : List Part) (parts : MimeParts)
      → ((p : Part) (q : MimeParts) → IsNumbered q → IsNumbered (f p q))
      → IsNumbered parts
      → IsNumbered (walk_all lib f rest parts)
  unfolding walk_all
  walk_all-IsNumbered f [] parts keeps v = v
  walk_all-IsNumbered f (p ∷ rest) parts keeps v =
      walk_all-IsNumbered f rest (f p parts) keeps (keeps p parts v)

  walk-IsNumbered :
      (fuel : ℕ) (part : Part) (parts : MimeParts)
      → IsNumbered parts
      → IsNumbered (walk_mime_parts lib fuel part parts)
  unfolding walk_mime_parts
  walk-IsNumbered zero part parts v = v
  walk-IsNumbered (suc fuel) part parts v = elim (Bool-cases (is_multipart lib part)) [
    | inr e ↦ rw (e, walk_mime_parts) (keep_part-IsNumbered part (media_of lib part) parts v)
    | inl e ↦
        rw (e, walk_mime_parts)
          (walk_all-IsNumbered (walk_mime_parts lib fuel) (parts_of lib part) parts
            (λ p q k. walk-IsNumbered fuel p q k) v)
  ]

  parts_of_message-IsNumbered : (message : Part) → IsNumbered (parts_of_message lib message)
  unfolding parts_of_message
  parts_of_message-IsNumbered message =
      walk-IsNumbered (suc (length message.body)) message no_parts
        (record { numbered = tt; next = refl })

abbrev pub attachment_of : AttachmentPart → Attachment
attachment_of p = p.attachment

content_at-listed :
    (n i : ℕ) (parts : List AttachmentPart)
    → Numbered n parts
    → Option.map attachment_of (content_at (n + i) parts) ≡ get_elem? (map attachment_of parts) i
content_at-listed n i [] h = refl
content_at-listed n zero (p ∷ parts) (j, s, h) =
    let same : p.attachment.index == (n + 0) ≡ true = ground arith in rw same refl
content_at-listed n (suc i) (p ∷ parts) (j, s, h) =
    let other : p.attachment.index == (n + suc i) ≡ false = ground arith in
    let shifted : n + suc i ≡ suc n + i = omega arith in
    rw other (
      ap (λ k. Option.map attachment_of (content_at k parts)) shifted
      ∙ content_at-listed (suc n) i parts h)

content_at-size :
    (n i : ℕ) (parts : List AttachmentPart) (p : AttachmentPart)
    → Numbered n parts
    → content_at i parts ≡ some p
    → p.attachment.size ≡ length p.content
content_at-size n i [] p h e = cc
content_at-size n i (q ∷ parts) p (j, s, h) e = ground (arith, content_at-size (suc n) i parts p h)

abbrev Listed : Option AttachmentPart → List Attachment → ℕ → Type 0
Listed found attachments i =
    (Option.map attachment_of found ≡ get_elem? attachments i)
    × ((p : AttachmentPart) → found ≡ some p → p.attachment.size ≡ length p.content)

attachment_in-Listed :
    (lib : MimeLibrary) (html_lib : HtmlLibrary) (load_images : Bool) (texts : Bytes × Bytes)
    (message : Option Part) (i : ℕ)
    → Listed
        (attachment_in lib message i)
        (parse_parts lib html_lib load_images texts message).attachments
        i
attachment_in-Listed lib html_lib load_images texts none i = (refl, λ p h. cc)
attachment_in-Listed lib html_lib load_images texts (some message) i =
    let v = parts_of_message-IsNumbered lib message in
    let parts = (parts_of_message lib message).attachments in
    let from_start : i ≡ 0 + i = omega arith in
    (
      ap (λ k. Option.map attachment_of (content_at k parts)) from_start
          ∙ content_at-listed 0 i parts v.numbered,
      λ p h. content_at-size 0 i parts p v.numbered h,
    )

-- For any message and index: AttachmentContent finds exactly the attachment that parseEmail lists at
-- that place, and nothing beyond the list; its content has the size that the list says.
pub attachment_content-listed :
    (lib : MimeLibrary) (html_lib : HtmlLibrary) (load_images : Bool) (raw : Bytes) (i : ℕ)
    → (Option.map attachment_of (attachment_content lib raw i)
        ≡ get_elem? (parse_email lib html_lib load_images raw).attachments i)
      × ((p : AttachmentPart)
          → attachment_content lib raw i ≡ some p
          → p.attachment.size ≡ length p.content)
unfolding attachment_content parse_email
attachment_content-listed lib html_lib load_images raw i =
    attachment_in-Listed lib html_lib load_images (split_raw_message raw) (lib.read_message raw) i
