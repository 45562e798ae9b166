-- ===== src/Http/Page/Selected.antt =====
-- What the page of an inbox shows: renderInbox of internal/app/http.go.
use tmpmail_fyi.Common.{
  if◌then◌else◌, Bool-cases, All, Bytes, codes, eq_bytes, eq_bytes→eq, eq_bytes_refl, contains_any,
  ℕ, ◌≡◌, refl, ap, ◌∙◌, ◌≢◌, ◌⊎◌, inl, inr, Bool, true, false, none, some, List, [], ◌∷◌, ◌++◌,
  map, arith,
}
use tmpmail_fyi.Store.State.{Row, Store, Schedule, Outcome, M, pure, Try, done, failed, good, bad}
use tmpmail_fyi.Store.Save.{Message}
use tmpmail_fyi.Store.Post.{Post, bind-Post, try-Post}
use tmpmail_fyi.Store.Pending.Drain.{Never}
use tmpmail_fyi.Store.Read.{list_page, get_message}
use tmpmail_fyi.Store.Read.Pages.{IsPage, list_page-IsPage}
use tmpmail_fyi.Http.Inbox.{default_page_size}
use tmpmail_fyi.Mime.Html.{HtmlLibrary}
use tmpmail_fyi.Mime.Parts.{MimeLibrary}
use tmpmail_fyi.Http.Page.{
  InboxItem, Check, Shown, Loading, has_message, select_message, plain_item, with_item, is_no_rows,
  full_item, selected_item, before_items, load_items, page_of, finished, show_page, render_inbox,
  after_list, before_row, after_body, at_end, start_page, bad_inbox, inbox_page, abandoned,
  loaded_items, given_up, broken,
}

-- The items of the messages, in order; only the selected one may have its body.
abbrev pub ItemsOf : Bytes → List Message → List InboxItem → Type 0
ItemsOf selected messages items =
    (map (λ i. i.message) items ≡ messages)
    × All (λ i. i.loaded ≡ true → i.message.id ≡ selected) items

abbrev Loads : Bytes → List Message → Loading → Type 0
Loads selected messages (loaded_items items) = ItemsOf selected messages items
Loads selected messages given_up = Unit
Loads selected messages broken = Unit

with_item-Loads :
    (selected : Bytes) (m : Message) (messages : List Message) (item : InboxItem)
    (loading : Loading)
    → item.message ≡ m
    → (item.loaded ≡ true → m.id ≡ selected)
    → Loads selected messages loading
    → Loads selected (m ∷ messages) (with_item item loading)
with_item-Loads selected m messages item (loaded_items items) e h (same, only) = (
  ap (λ x. x ∷ map (λ i. i.message) items) e ∙ ap (◌∷◌ m) same,
  (λ l. ap Message.id e ∙ h l, only),
)
with_item-Loads selected m messages item given_up e h k = tt
with_item-Loads selected m messages item broken e h k = tt

any-Post : {A : Type 0} (o : Outcome A) → Post (λ a t. Unit {0}) (λ e t. Unit {0}) o
any-Post (done a t v) = tt
any-Post (failed e t v) = tt

module _ (lib : MimeLibrary) (html_lib : HtmlLibrary) (itoa : ℕ → Bytes) (gone : Check → Bool) where
  abbrev LoadsAll : Bytes → List Message → M Loading → Type 0
  LoadsAll selected messages m =
      (s : Store) (w : Schedule) → Post (λ loading t. Loads selected messages loading) Never (m s w)

  before_items-Loads :
      (selected : Bytes) (m : Message) (messages : List Message) (item : InboxItem)
      (rest : M Loading)
      → item.message ≡ m
      → (item.loaded ≡ true → m.id ≡ selected)
      → LoadsAll selected messages rest
      → LoadsAll selected (m ∷ messages) (before_items lib html_lib itoa gone (some item) rest)
  before_items-Loads selected m messages item rest e h k s w =
      bind-Post (λ loading t. Loads selected messages loading) Never Never
        (λ loading t. Loads selected (m ∷ messages) loading) rest _ s w (k s w) (λ x t f. f)
        λ loading t v l. with_item-Loads selected m messages item loading e h l

  elim-Loads :
      (selected : Bytes) (messages : List Message) (b : Bool) (m n : M Loading)
      → (b ≡ true → LoadsAll selected messages m)
      → (b ≡ false → LoadsAll selected messages n)
      → LoadsAll selected messages (elim b [ true ↦ m | false ↦ n ])
  elim-Loads selected messages true m n h k = h refl
  elim-Loads selected messages false m n h k = k refl

  selected_item-Loads :
      (selected : Bytes) (m : Message) (messages : List Message) (full : Try Message)
      (rest : M Loading)
      → m.id ≡ selected
      → LoadsAll selected messages rest
      → LoadsAll selected
          (m ∷ messages)
          (before_items lib html_lib itoa gone (selected_item lib html_lib itoa gone m full) rest)
  selected_item-Loads selected m messages (good full) rest e k =
      before_items-Loads selected m messages (full_item lib html_lib itoa gone m full) rest refl
        (λ _. e) k
  selected_item-Loads selected m messages (bad x) rest e k = by_error (is_no_rows x)
    where
      by_error :
          (b : Bool)
          → LoadsAll selected
              (m ∷ messages)
              (before_items lib html_lib itoa gone (if b then some (plain_item m) else none) rest)
      by_error true =
          before_items-Loads selected m messages (plain_item m) rest refl (λ l. absurd cc) k
      by_error false = λ s w. tt

  load_items-Loads :
      (now : ℕ) (selected : Bytes) (messages : List Message)
      → LoadsAll selected messages (load_items lib html_lib itoa gone now selected messages)
  unfolding load_items
  load_items-Loads now selected [] s w = (refl, tt)
  load_items-Loads now selected (m ∷ messages) s w =
      let rest = load_items-Loads now selected messages in
      elim-Loads selected (m ∷ messages) (gone (before_row m.id)) _ _ (λ _ s w. tt)
        (λ _.
          elim-Loads selected (m ∷ messages) (eq_bytes m.id selected) _ _
            (λ e s w.
              try-Post (λ a t. Unit {0}) (λ x t. Unit {0}) Never
                (λ loading t. Loads selected (m ∷ messages) loading) _ (get_message now m.id) s w
                (any-Post (get_message now m.id s w))
                (λ full t v _.
                  elim-Loads selected (m ∷ messages) (gone (after_body m.id)) _ _ (λ _ s w. tt)
                    (λ _.
                      selected_item-Loads selected m messages (good full) _
                        (eq_bytes→eq m.id selected e) rest)
                    t v)
                (λ x t v _.
                  elim-Loads selected (m ∷ messages) (gone (after_body m.id)) _ _ (λ _ s w. tt)
                    (λ _.
                      selected_item-Loads selected m messages (bad x) _
                        (eq_bytes→eq m.id selected e) rest)
                    t v))
            (λ _.
              before_items-Loads selected m messages (plain_item m) _ refl (λ l. absurd cc) rest))
        s w

abbrev pub Lists : Bytes → List Message → Type 0
Lists id [] = ⊥
Lists id (m ∷ messages) = (m.id ≡ id) ⊎ Lists id messages

-- The selected message is the wanted one if the page has it, and else its first.
abbrev pub IsChosen : Bytes → Bytes → List Message → Type 0
IsChosen wanted selected [] = Unit
IsChosen wanted selected (m ∷ messages) =
    (Lists wanted (m ∷ messages) × (selected ≡ wanted))
    ⊎ (All (λ x. x.id ≢ wanted) (m ∷ messages) × (selected ≡ m.id))

has_message-Lists :
    (id : Bytes) (messages : List Message) → has_message id messages ≡ true → Lists id messages
has_message-Lists id [] h = cc
has_message-Lists id (m ∷ messages) h = elim (Bool-cases (eq_bytes m.id id)) [
  | inl e ↦ inl (eq_bytes→eq m.id id e)
  | inr e ↦ inr (has_message-Lists id messages (rw e at h))
]

has_message-All :
    (id : Bytes) (messages : List Message)
    → has_message id messages ≡ false
    → All (λ x. x.id ≢ id) messages
has_message-All id [] h = tt
has_message-All id (m ∷ messages) h = elim (Bool-cases (eq_bytes m.id id)) [
  | inl e ↦ absurd (ground (arith, e))
  | inr e ↦ (λ same. other same e, has_message-All id messages (rw e at h))
]
  where
    other : m.id ≡ id → eq_bytes m.id id ≡ false → ⊥
    other same e = let found = eq_bytes_refl id in absurd (ground (arith, same, found))

select_message-IsChosen :
    (id : Bytes) (messages : List Message) → IsChosen id (select_message id messages) messages
select_message-IsChosen id [] = tt
select_message-IsChosen id (m ∷ messages) = elim (Bool-cases (has_message id (m ∷ messages))) [
  | inl e ↦ inl (has_message-Lists id (m ∷ messages) e, rw e refl)
  | inr e ↦ inr (has_message-All id (m ∷ messages) e, rw e refl)
]

-- A page that is shown is the page of the inbox from the offset on.
abbrev pub ShowsInbox : ℕ → Bytes → Bytes → ℕ → Bytes → List Row → Shown → Type 0
ShowsInbox now domain inbox_name offset wanted rows (inbox_page p) =
    (p.inbox_name ≡ inbox_name)
    × (p.address ≡ inbox_name ++ codes "@" ++ domain)
    × (p.offset ≡ offset)
    × (messages : List Message) × IsPage now p.address default_page_size offset rows
        (messages, p.has_more)
    × ItemsOf p.selected messages p.items
    × IsChosen wanted p.selected messages
ShowsInbox now domain inbox_name offset wanted rows _ = Unit

module _ (lib : MimeLibrary) (html_lib : HtmlLibrary) (itoa : ℕ → Bytes) (gone : Check → Bool) where
  finished-ShowsInbox :
      (now offset : ℕ) (rows : List Row) (domain inbox_name wanted selected : Bytes)
      (messages : List Message) (more : Bool) (loading : Loading)
      → let address = inbox_name ++ codes "@" ++ domain in
        IsPage now address default_page_size offset rows (messages, more)
        → IsChosen wanted selected messages
        → Loads selected messages loading
        → ShowsInbox now domain inbox_name offset wanted rows
            (finished lib html_lib itoa gone inbox_name address offset selected more loading)
  finished-ShowsInbox now offset rows domain inbox_name wanted selected messages more given_up h k
        l =
      tt
  finished-ShowsInbox now offset rows domain inbox_name wanted selected messages more broken h k l =
      tt
  finished-ShowsInbox now offset rows domain inbox_name wanted selected messages more
        (loaded_items items) h k l =
      by_end (gone at_end)
    where
      by_end :
          (b : Bool)
          → ShowsInbox now domain inbox_name offset wanted rows (
              if b
              then abandoned
              else inbox_page (
                  page_of lib html_lib itoa gone inbox_name
                    (inbox_name ++ codes "@" ++ domain)
                    offset
                    selected
                    more
                    items))
      by_end true = tt
      by_end false = (refl, refl, refl, messages, h, l, k)

  -- For every inbox, store, schedule and moment at which the client goes: the handler ends, and a page
  -- that it shows has the inbox's name, its address at the domain and the offset, and lists 25 at most of
  -- the messages of that address from the offset on, in order; the selected message is the wanted one
  -- if it is listed, and else the first, and no other has its body loaded.
  pub render_inbox-ShowsInbox :
      (now : ℕ) (domain inbox_name : Bytes) (offset : ℕ) (selected_id : Bytes) (s : Store)
      (w : Schedule)
      → Post
          (λ shown t. ShowsInbox now domain inbox_name offset selected_id s.db.messages shown)
          Never
          (render_inbox lib html_lib itoa gone now domain inbox_name offset selected_id s w)
  unfolding render_inbox
  render_inbox-ShowsInbox now domain [] offset selected_id s w = by_end (gone at_end)
    where
      by_end :
          (b : Bool)
          → ShowsInbox now domain [] offset selected_id s.db.messages
              (if b then abandoned else start_page)
      by_end true = tt
      by_end false = tt
  render_inbox-ShowsInbox now domain (c ∷ name) offset selected_id s w =
      elim-Shows (contains_any (c ∷ name) (codes "@/\\")) (pure bad_inbox) _ s w tt (
        try-Post
          (λ result t. IsPage now address default_page_size offset s.db.messages result × (t ≡ s))
          (λ e t. t ≡ s) Never R _ (list_page now address default_page_size offset) s w
          (list_page-IsPage now address default_page_size offset s w)
          (λ (messages, more) t v (h, _).
            elim-Shows (gone after_list) (pure abandoned) _ t v tt (loaded messages more h t v))
          (λ e t v _. elim-Shows (gone after_list) (pure abandoned) _ t v tt tt))
    where
      address : Bytes
      address = (c ∷ name) ++ codes "@" ++ domain

      R : Shown → Store → Type 0
      R shown t = ShowsInbox now domain (c ∷ name) offset selected_id s.db.messages shown

      elim-Shows :
          (b : Bool) (m n : M Shown) (t : Store) (v : Schedule)
          → Post R Never (m t v)
          → Post R Never (n t v)
          → let chosen : M Shown = elim b [ true ↦ m | false ↦ n ] in Post R Never (chosen t v)
      elim-Shows true m n t v h k = h
      elim-Shows false m n t v h k = k

      loaded :
          (messages : List Message) (more : Bool)
          → IsPage now address default_page_size offset s.db.messages (messages, more)
          → (t : Store) (v : Schedule)
          → Post R Never (
              show_page lib html_lib itoa gone now
                (c ∷ name)
                address
                offset
                selected_id
                (good (messages, more))
                t
                v)
      loaded messages more h t v =
          let selected = select_message selected_id messages in
          bind-Post (λ loading u. Loads selected messages loading) Never Never R
            (load_items lib html_lib itoa gone now selected messages) _ t v
            (load_items-Loads lib html_lib itoa gone now selected messages t v) (λ x u f. f)
            λ loading u x l.
              finished-ShowsInbox now offset s.db.messages domain (c ∷ name) selected_id selected
                messages more loading h (select_message-IsChosen selected_id messages) l
