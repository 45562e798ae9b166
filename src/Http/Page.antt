-- ===== src/Http/Page.antt =====
-- The page of an inbox: renderInbox and messageCountLabel of internal/app/http.go. The template, the
-- names of senders, the links and the count of blocked images are left out; a request may be given
-- up at each place where the code asks its context, which the parameter `gone` says.
pub mod Selected
use tmpmail_fyi.Common.{
  ◌==◌, if◌then◌else◌, length, any, Bytes, codes, eq_bytes, contains_any, ℕ, ◌+◌, ◌-◌, ◌/◌, Bool,
  true, false, not, Option, none, some, List, [], ◌∷◌, ◌++◌,
}
use tmpmail_fyi.Store.State.{Error, M, ◌>>=◌, ◌>>◌, pure, Try, try, no_rows, good, bad}
use tmpmail_fyi.Store.Save.{Message}
use tmpmail_fyi.Store.Read.{list_page, get_message}
use tmpmail_fyi.Http.Inbox.{default_page_size}
use tmpmail_fyi.Mime.Html.{HtmlLibrary}
use tmpmail_fyi.Mime.Parts.{MimeLibrary, Attachment, is_nil, parse_email}

pub record InboxItem : Type 0 where
  pub message : Message
  pub loaded : Bool
  pub headers : Bytes
  pub body : Bytes
  pub has_html : Bool
  pub attachments : List Attachment

pub record InboxData : Type 0 where
  pub inbox_name : Bytes
  pub address : Bytes
  pub selected : Bytes
  pub items : List InboxItem
  pub offset : ℕ
  pub has_more : Bool
  pub newer_offset : ℕ
  pub page : ℕ
  pub older_offset : ℕ
  pub count_label : Bytes

-- The places where the context is asked.
pub data Check : Type 0 where
  after_list : Check
  before_row : Bytes → Check
  after_body : Bytes → Check
  at_end : Check

-- The response; `abandoned` when the client has gone.
pub data Shown : Type 0 where
  start_page : Shown
  bad_inbox : Shown
  inbox_page : InboxData → Shown
  inbox_error : Shown
  abandoned : Shown

pub data Loading : Type 0 where
  loaded_items : List InboxItem → Loading
  given_up : Loading
  broken : Loading

unfoldable pub message_count_label : (ℕ → Bytes) → ℕ → ℕ → Bool → Bytes
message_count_label itoa count offset has_more =
    let total = offset + count in
    if has_more
    then itoa total ++ codes "+ messages"
    else if total == 1
    then codes "1 message"
    else itoa total ++ codes " messages"

abbrev pub has_message : Bytes → List Message → Bool
has_message id messages = any (λ m. eq_bytes m.id id) messages

-- The message of the request if the page has it, or else its first.
abbrev pub select_message : Bytes → List Message → Bytes
select_message id [] = []
select_message id (m ∷ messages) = if has_message id (m ∷ messages) then id else m.id

abbrev pub plain_item : Message → InboxItem
plain_item m = record {
  message = m;
  loaded = false;
  headers = [];
  body = [];
  has_html = false;
  attachments = [];
}

abbrev pub with_item : InboxItem → Loading → Loading
with_item item (loaded_items items) = loaded_items (item ∷ items)
with_item item given_up = given_up
with_item item broken = broken

abbrev pub is_no_rows : Error → Bool
is_no_rows no_rows = true
is_no_rows _ = false

module _ (lib : MimeLibrary) (html_lib : HtmlLibrary) (itoa : ℕ → Bytes) (gone : Check → Bool) where
  abbrev pub full_item : Message → Message → InboxItem
  full_item m full =
      let parsed = parse_email lib html_lib false full.body in
      record {
        message = m;
        loaded = true;
        headers = parsed.headers;
        body = parsed.text;
        has_html = not (is_nil parsed.html);
        attachments = parsed.attachments;
      }

  -- The item of the selected message: one that has gone since is shown without its body.
  abbrev pub selected_item : Message → Try Message → Option InboxItem
  selected_item m (good full) = some (full_item m full)
  selected_item m (bad e) = if is_no_rows e then some (plain_item m) else none

  abbrev pub before_items : Option InboxItem → M Loading → M Loading
  before_items none rest = pure broken
  before_items (some item) rest = do loading ← rest; pure (with_item item loading)

  -- The loop over the messages of the page.
  unfoldable pub load_items : ℕ → Bytes → List Message → M Loading
  unfolding get_message try parse_email eq_bytes
  load_items now selected [] = pure (loaded_items [])
  load_items now selected (m ∷ messages) = elim (gone (before_row m.id)) [
    | true ↦ pure given_up
    | false ↦ elim (eq_bytes m.id selected) [
      | false ↦ before_items (some (plain_item m)) (load_items now selected messages)
      | true ↦ do
        full ← try (get_message now m.id)
        elim (gone (after_body m.id)) [
          | true ↦ pure given_up
          | false ↦ before_items (selected_item m full) (load_items now selected messages)
        ]
    ]
  ]

  abbrev pub page_of : Bytes → Bytes → ℕ → Bytes → Bool → List InboxItem → InboxData
  page_of inbox_name address offset selected has_more items = record {
    inbox_name = inbox_name;
    address = address;
    selected = selected;
    items = items;
    offset = offset;
    has_more = has_more;
    newer_offset = offset - default_page_size;
    page = (offset + default_page_size - 1) / default_page_size + 1;
    older_offset = offset + default_page_size;
    count_label = message_count_label itoa (length items) offset has_more;
  }

  abbrev pub finished : Bytes → Bytes → ℕ → Bytes → Bool → Loading → Shown
  finished inbox_name address offset selected has_more given_up = abandoned
  finished inbox_name address offset selected has_more broken = inbox_error
  finished inbox_name address offset selected has_more (loaded_items items) =
      if gone at_end
      then abandoned
      else inbox_page (page_of inbox_name address offset selected has_more items)

  abbrev pub show_page : ℕ → Bytes → Bytes → ℕ → Bytes → Try (List Message × Bool) → M Shown
  show_page now inbox_name address offset selected_id (bad e) = pure inbox_error
  show_page now inbox_name address offset selected_id (good (messages, has_more)) = do
    let selected = select_message selected_id messages
    loading ← load_items now selected messages
    pure (finished inbox_name address offset selected has_more loading)

  unfoldable pub render_inbox : ℕ → Bytes → Bytes → ℕ → Bytes → M Shown
  unfolding list_page try load_items message_count_label
  render_inbox now domain [] offset selected_id =
      pure (if gone at_end then abandoned else start_page)
  render_inbox now domain (c ∷ name) offset selected_id =
      elim (contains_any (c ∷ name) (codes "@/\\")) [
        | true ↦ pure bad_inbox
        | false ↦ do
          let address = (c ∷ name) ++ codes "@" ++ domain
          listed ← try (list_page now address default_page_size offset)
          elim (gone after_list) [
            | true ↦ pure abandoned
            | false ↦ show_page now (c ∷ name) address offset selected_id listed
          ]
      ]
