-- ===== src/Http/Mail.antt =====
-- (s *apiServer) GetMessage and GetMessageAttachment of internal/app/http.go, on the store and the
-- MIME parser. strconv.Quote is a parameter; writing the JSON is left out.
use mathlib.Core.Option
use tmpmail_fyi.Common.{
  length, get_elem?, Bytes, codes, ℤ, pos, negsuc, ℕ, ◌≡◌, refl, sym, subst, Bool, true, false,
  Option, none, some, List, ◌++◌,
}
use tmpmail_fyi.Store.State.{
  Store, Error, Schedule, Outcome, M, ◌>>=◌, pure, Try, tried, try, no_rows, done, failed, good,
  bad,
}
use tmpmail_fyi.Store.Save.{Message}
use tmpmail_fyi.Store.Read.{get_message}
use tmpmail_fyi.Http.Raw.{split_raw_message}
use tmpmail_fyi.Mime.Html.{HtmlLibrary}
use tmpmail_fyi.Mime.Parts.{
  MimeLibrary, Attachment, AttachmentPart, attachment_content, parse_email,
}
use tmpmail_fyi.Mime.Parts.Attachments.{attachment_of, attachment_content-listed}

pub record ApiMessage : Type 0 where
  pub attachments : List Attachment
  pub body : Bytes
  pub expires_at : ℕ
  pub from : Bytes
  pub headers : Bytes
  pub id : Bytes
  pub received : ℕ
  pub recipient : Bytes
  pub size : ℕ
  pub subject : Bytes

pub record ApiFile : Type 0 where
  pub content_type : Bytes
  pub disposition : Bytes
  pub content : Bytes

-- Status 200, 404 or 500.
pub data Reply (A : Type 0) : Type 0 where
  shown : A → Reply A
  not_found : Reply A
  storage_error : Reply A

-- err == sql.ErrNoRows
abbrev is_missing : Error → Bool
is_missing no_rows = true
is_missing _ = false

abbrev pub error_status : {A : Type 0} → Bool → Reply A
error_status true = not_found
error_status false = storage_error

abbrev error_reply : {A : Type 0} → Error → Reply A
error_reply e = error_status (is_missing e)

-- The answer of a handler.
abbrev pub replied : {A : Type 0} → Outcome (Reply A) → Reply A
replied (done r s w) = r
replied (failed e s w) = storage_error

module _ (lib : MimeLibrary) (html_lib : HtmlLibrary) (quote : Bytes → Bytes) where
  unfoldable pub message_reply : Try Message → Reply ApiMessage
  unfolding split_raw_message parse_email
  message_reply (bad e) = error_reply e
  message_reply (good m) =
      let (headers, body) = split_raw_message m.body in
      shown (record {
        attachments = (parse_email lib html_lib false m.body).attachments;
        body = body;
        expires_at = m.expires_at;
        from = m.from;
        headers = headers;
        id = m.id;
        received = m.received;
        recipient = m.recipient;
        size = m.size;
        subject = m.subject;
      })

  unfoldable pub get_api_message : ℕ → Bytes → M (Reply ApiMessage)
  unfolding get_message try message_reply
  get_api_message now id = do m ← try (get_message now id); pure (message_reply m)

  abbrev pub file_of : AttachmentPart → ApiFile
  file_of part = record {
    content_type = part.attachment.content_type;
    disposition = codes "attachment; filename=" ++ quote part.attachment.filename;
    content = part.content;
  }

  abbrev pub file_reply : Option AttachmentPart → Reply ApiFile
  file_reply none = not_found
  file_reply (some part) = shown (file_of part)

  -- No attachment has an index below zero.
  unfoldable pub attachment_reply : ℤ → Try Message → Reply ApiFile
  unfolding attachment_content
  attachment_reply index (bad e) = error_reply e
  attachment_reply (pos i) (good m) = file_reply (attachment_content lib m.body i)
  attachment_reply (negsuc i) (good m) = not_found

  unfoldable pub get_api_attachment : ℕ → Bytes → ℤ → M (Reply ApiFile)
  unfolding get_message try attachment_reply
  get_api_attachment now id index = do m ← try (get_message now id); pure (attachment_reply index m)

  -- A file for an attachment that is listed.
  abbrev pub IsFileOf : Option Attachment → Reply ApiFile → Type 0
  IsFileOf none reply = reply ≡ not_found
  IsFileOf (some a) reply =
      (f : ApiFile) × (reply ≡ shown f)
      × (f.content_type ≡ a.content_type)
      × (f.disposition ≡ codes "attachment; filename=" ++ quote a.filename)
      × (length f.content ≡ a.size)

  -- The files that are served beside a message.
  abbrev pub Serves : Reply ApiMessage → (ℤ → Reply ApiFile) → Type 0
  Serves (shown m) file =
      ((i : ℕ) → IsFileOf (get_elem? m.attachments i) (file (pos i)))
      × ((i : ℕ) → file (negsuc i) ≡ not_found)
  Serves not_found file = (index : ℤ) → file index ≡ not_found
  Serves storage_error file = (index : ℤ) → file index ≡ storage_error

  file_reply-IsFileOf :
      (found : Option AttachmentPart) (listed : Option Attachment)
      → Option.map attachment_of found ≡ listed
      → ((p : AttachmentPart) → found ≡ some p → p.attachment.size ≡ length p.content)
      → IsFileOf listed (file_reply found)
  file_reply-IsFileOf found listed e sizes =
      subst (λ l. IsFileOf l (file_reply found)) e (own found sizes)
    where
      own :
          (o : Option AttachmentPart)
          → ((p : AttachmentPart) → o ≡ some p → p.attachment.size ≡ length p.content)
          → IsFileOf (Option.map attachment_of o) (file_reply o)
      own none h = refl
      own (some p) h = (file_of p, refl, refl, refl, sym (h p refl))

  by_status : (missing : Bool) → Serves (error_status missing) (λ index. error_status missing)
  by_status true = λ index. refl
  by_status false = λ index. refl

  replies-Serves : (m : Try Message) → Serves (message_reply m) (λ index. attachment_reply index m)
  unfolding message_reply attachment_reply
  replies-Serves (bad e) = by_status (is_missing e)
  replies-Serves (good m) = (
    λ i.
        let (listed, sizes) = attachment_content-listed lib html_lib false m.body i in
        file_reply-IsFileOf (attachment_content lib m.body i) _ listed sizes,
    λ i. refl,
  )

  -- For every store, schedule and message: when GetMessage shows a message, GetMessageAttachment gives
  -- for each index that it lists a file of the listed type, name and size, and for any other index
  -- not found; and when GetMessage has not found the message or has a storage error, so has it.
  pub get_api_message-Serves :
      (now : ℕ) (id : Bytes) (s : Store) (w : Schedule)
      → Serves
          (replied (get_api_message now id s w))
          (λ index. replied (get_api_attachment now id index s w))
  unfolding get_api_message get_api_attachment try tried
  get_api_message-Serves now id s w = by_outcome (get_message now id s w)
    where
      by_outcome :
          (o : Outcome Message)
          → Serves
              (replied (elim (tried o) [
                | done m t v ↦ done (message_reply m) t v
                | failed e t v ↦ failed e t v
              ]))
              (λ index. replied (elim (tried o) [
                | done m t v ↦ done (attachment_reply index m) t v
                | failed e t v ↦ failed e t v
              ]))
      by_outcome (done m t v) = replies-Serves (good m)
      by_outcome (failed e t v) = replies-Serves (bad e)
