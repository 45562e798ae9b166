-- ===== src/Http/Inbox.antt =====
-- (s *apiServer) ListInboxMessages, toAPISummary and pageOffset of internal/app/http.go. An int of the
-- query is an integer; writing the JSON is left out.
use tmpmail_fyi.Common.{
  length, length-map, Bytes, ℤ, pos, negsuc, ℕ, ◌≤◌, min, max, ◌≡◌, refl, Bool, Option, none, some,
  List, map, arith,
}
use tmpmail_fyi.Store.State.{Row, Store, Schedule, M, ◌>>=◌, pure, Try, try, good, bad}
use tmpmail_fyi.Store.Post.{Post, try-Post}
use tmpmail_fyi.Store.Pending.Drain.{Never}
use tmpmail_fyi.Store.Save.{Message}
use tmpmail_fyi.Store.Read.{list_page}
use tmpmail_fyi.Store.Read.Pages.{IsPage, list_page-IsPage}

abbrev pub default_page_size : ℕ
default_page_size = 25

abbrev pub max_page_size : ℕ
max_page_size = 100

-- max(value, low)
abbrev pub at_least : ℕ → ℤ → ℕ
at_least low (pos n) = max n low
at_least low (negsuc n) = low

unfoldable pub page_limit : Option ℤ → ℕ
page_limit none = default_page_size
page_limit (some limit) = min (at_least 1 limit) max_page_size

unfoldable pub page_start : Option ℤ → ℕ
page_start none = 0
page_start (some offset) = at_least 0 offset

-- strconv.Atoi is a parameter.
unfoldable pub page_offset : (Bytes → Option ℤ) → Bytes → ℕ
page_offset atoi value = elim (atoi value) [
  | none ↦ 0
  | some offset ↦ elim offset [ pos n ↦ n | negsuc n ↦ 0 ]
]

pub record MessageSummary : Type 0 where
  pub expires_at : ℕ
  pub from : Bytes
  pub id : Bytes
  pub received : ℕ
  pub recipient : Bytes
  pub size : ℕ
  pub subject : Bytes

unfoldable pub to_api_summary : Message → MessageSummary
to_api_summary m = record {
  expires_at = m.expires_at;
  from = m.from;
  id = m.id;
  received = m.received;
  recipient = m.recipient;
  size = m.size;
  subject = m.subject;
}

pub record InboxPage : Type 0 where
  pub has_more : Bool
  pub limit : ℕ
  pub messages : List MessageSummary
  pub offset : ℕ

-- The page, or status 500.
pub data Response : Type 0 where
  page : InboxPage → Response
  server_error : Response

unfoldable pub page_response : ℕ → ℕ → Try (List Message × Bool) → Response
unfolding to_api_summary
page_response limit offset (good (messages, has_more)) = page (record {
  has_more = has_more;
  limit = limit;
  messages = map to_api_summary messages;
  offset = offset;
})
page_response limit offset (bad e) = server_error

unfoldable pub list_inbox_messages : ℕ → Bytes → Option ℤ → Option ℤ → M Response
unfolding page_limit page_start try list_page page_response
list_inbox_messages now inbox limit offset = do
  listed ← try (list_page now inbox (page_limit limit) (page_start offset))
  pure (page_response (page_limit limit) (page_start offset) listed)

page_limit-bounds : (limit : Option ℤ) → (1 ≤ page_limit limit) × (page_limit limit ≤ max_page_size)
unfolding page_limit
page_limit-bounds none = (omega arith, omega arith)
page_limit-bounds (some (pos n)) = (omega arith, omega arith)
page_limit-bounds (some (negsuc n)) = (omega arith, omega arith)

-- The response shows a page of the inbox.
abbrev pub Shows : ℕ → Bytes → List Row → Response → Type 0
Shows now inbox rows server_error = Unit
Shows now inbox rows (page p) =
    (1 ≤ p.limit)
    × (p.limit ≤ max_page_size)
    × (length p.messages ≤ p.limit)
    × (messages : List Message) × (p.messages ≡ map to_api_summary messages)
    × IsPage now inbox p.limit p.offset rows (messages, p.has_more)

page_response-Shows :
    (now : ℕ) (inbox : Bytes) (limit : Option ℤ) (offset : ℕ) (rows : List Row)
    (result : List Message × Bool)
    → IsPage now inbox (page_limit limit) offset rows result
    → Shows now inbox rows (page_response (page_limit limit) offset (good result))
unfolding page_response
page_response-Shows now inbox limit offset rows (messages, more) h =
    let bounds = page_limit-bounds limit in
    (
      bounds.0,
      bounds.1,
      omega (arith, length-map to_api_summary messages, h.size),
      messages,
      refl,
      h,
    )

-- Whatever limit and offset a request has: the handler answers and changes nothing; a page that it
-- shows has between 1 and 100 as its limit, at most that many messages, and the limit and offset
-- that it names are those of the page of the inbox that it shows.
pub list_inbox_messages-Shows :
    (now : ℕ) (inbox : Bytes) (limit offset : Option ℤ) (s : Store) (w : Schedule)
    → Post
        (λ response t. Shows now inbox s.db.messages response × (t ≡ s))
        Never
        (list_inbox_messages now inbox limit offset s w)
unfolding list_inbox_messages
list_inbox_messages-Shows now inbox limit offset s w =
    let R : Response → Store → Type 0 =
      λ response t. Shows now inbox s.db.messages response × (t ≡ s) in
    let Q : List Message × Bool → Store → Type 0 = λ result t.
      IsPage now inbox (page_limit limit) (page_start offset) s.db.messages result × (t ≡ s) in
    try-Post Q (λ e t. t ≡ s) Never R _ (list_page now inbox (page_limit limit) (page_start offset))
      s w (list_page-IsPage now inbox (page_limit limit) (page_start offset) s w)
      (λ result t w₁ (h, same).
        (page_response-Shows now inbox limit (page_start offset) s.db.messages result h, same))
      (λ e t w₁ same. (tt, same))
