-- ===== src/Store/Read/Pages.antt =====
-- The pages of an inbox against its whole list.
use tmpmail_fyi.Common.{
  ltb, leb, if◌then◌else◌, leb→le, Bool-cases, length, take, drop, keep_if, All, length-map,
  length-take, length-drop, Bytes, ℕ, zero, suc, ◌+◌, ◌≤◌, ◌≡◌, refl, sym, subst, inl, inr, Bool,
  List, [], ◌∷◌, map, arith,
}
use tmpmail_fyi.Address.{normalize_recipient}
use tmpmail_fyi.Store.State.{Row, Store, Schedule}
use tmpmail_fyi.Store.Post.{Post, attempt-Post}
use tmpmail_fyi.Store.Save.{Message}
use tmpmail_fyi.Store.Read.{
  scan_message, is_visible, insert_newest, newest_first, select_page, list_page,
}

-- Later arrivals first.
abbrev pub NewestFirst : List Row → Type 0
NewestFirst [] = Unit
NewestFirst (r ∷ rows) = All (λ q. q.received_at ≤ r.received_at) rows × NewestFirst rows

-- The same rows, each as often.
abbrev pub SameRows : List Row → List Row → Type 0
SameRows rows rows' = (p : Row → Bool) → length (keep_if p rows) ≡ length (keep_if p rows')

All-insert_newest :
    (P : Row → Type 0) (r : Row) (rows : List Row) → P r → All P rows → All P (insert_newest r rows)
unfolding insert_newest
All-insert_newest P r [] p h = (p, tt)
All-insert_newest P r (q ∷ rows) p (k, h) = elim (Bool-cases (leb q.received_at r.received_at)) [
  | inl e ↦ rw e (p, (k, h))
  | inr e ↦ rw e (k, All-insert_newest P r rows p h)
]

All-implies :
    (P Q : Row → Type 0) (rows : List Row) → ((r : Row) → P r → Q r) → All P rows → All Q rows
All-implies P Q [] f h = tt
All-implies P Q (r ∷ rows) f (p, h) = (f r p, All-implies P Q rows f h)

insert_newest-NewestFirst :
    (r : Row) (rows : List Row) → NewestFirst rows → NewestFirst (insert_newest r rows)
unfolding insert_newest
insert_newest-NewestFirst r [] h = (tt, tt)
insert_newest-NewestFirst r (q ∷ rows) (p, h) =
    elim (Bool-cases (leb q.received_at r.received_at)) [
      | inl e ↦
          let le = leb→le q.received_at r.received_at e in
          rw e (
            (
              le,
              All-implies (λ x. x.received_at ≤ q.received_at) (λ x. x.received_at ≤ r.received_at)
                  rows (λ x k. omega (arith, le, k)) p,
            ),
            (p, h),
          )
      | inr e ↦ rw e (
        All-insert_newest (λ x. x.received_at ≤ q.received_at) r rows (ground arith) p,
        insert_newest-NewestFirst r rows h,
      )
    ]

insert_newest-SameRows : (r : Row) (rows : List Row) → SameRows (insert_newest r rows) (r ∷ rows)
unfolding insert_newest
insert_newest-SameRows r [] p = refl
insert_newest-SameRows r (q ∷ rows) p = ground (arith, insert_newest-SameRows r rows p)

newest_first-NewestFirst :
    (sorted rows : List Row) → NewestFirst sorted → NewestFirst (newest_first sorted rows)
unfolding newest_first
newest_first-NewestFirst sorted [] h = h
newest_first-NewestFirst sorted (r ∷ rows) h =
    newest_first-NewestFirst (insert_newest r sorted) rows (insert_newest-NewestFirst r sorted h)

newest_first-SameRows :
    (sorted rows : List Row) (p : Row → Bool)
    → length (keep_if p (newest_first sorted rows))
      ≡ length (keep_if p sorted) + length (keep_if p rows)
unfolding newest_first
newest_first-SameRows sorted [] p = omega arith
newest_first-SameRows sorted (r ∷ rows) p = ground (
  arith,
  newest_first-SameRows (insert_newest r sorted) rows p,
  insert_newest-SameRows r sorted p,
)

-- A page of the whole list, which has the visible rows of the recipient, later arrivals first.
pub record IsPage (now : ℕ) (recipient : Bytes) (limit offset : ℕ) (rows : List Row)
    (result : List Message × Bool) : Type 0 where
  pub inbox : List Row
  pub ordered : NewestFirst inbox
  pub complete : SameRows inbox (keep_if (is_visible (normalize_recipient recipient) now) rows)
  pub page : result.0 ≡ map scan_message (take limit (drop offset inbox))
  pub more : result.1 ≡ ltb (offset + limit) (length inbox)
  pub size : length result.0 ≤ limit

take-map_one_more :
    (limit : ℕ) (rows : List Row)
    → (if ltb limit (length (map scan_message (take (suc limit) rows)))
        then take limit (map scan_message (take (suc limit) rows))
        else map scan_message (take (suc limit) rows))
      ≡ map scan_message (take limit rows)
take-map_one_more zero [] = refl
take-map_one_more zero (r ∷ rows) = refl
take-map_one_more (suc limit) [] = ground arith
take-map_one_more (suc limit) (r ∷ rows) = ground (arith, take-map_one_more limit rows)

one_more :
    (limit offset : ℕ) (inbox : List Row)
    → ltb limit (length (map scan_message (take (suc limit) (drop offset inbox))))
      ≡ ltb (offset + limit) (length inbox)
one_more limit offset inbox = ground (
  arith,
  length-map scan_message (take (suc limit) (drop offset inbox)),
  length-take (suc limit) (drop offset inbox),
  length-drop offset inbox,
)

page_size : (limit : ℕ) (rows : List Row) → length (map scan_message (take limit rows)) ≤ limit
page_size limit rows =
    omega (arith, length-map scan_message (take limit rows), length-take limit rows)

pub list_page-IsPage :
    (now : ℕ) (recipient : Bytes) (limit offset : ℕ) (s : Store) (w : Schedule)
    → Post
        (λ result t. IsPage now recipient limit offset s.db.messages result × (t ≡ s))
        (λ e t. t ≡ s)
        (list_page now recipient limit offset s w)
unfolding list_page select_page
list_page-IsPage now recipient limit offset s w =
    let Q : List Message × Bool → Store → Type 0 =
      λ result t. IsPage now recipient limit offset s.db.messages result × (t ≡ s) in
    let visible : List Row =
      keep_if (is_visible (normalize_recipient recipient) now) s.db.messages in
    let inbox : List Row = newest_first [] visible in
    attempt-Post Q (λ e t. t ≡ s) _ s w refl
      λ w₁.
        attempt-Post Q (λ e t. t ≡ s) _ s w₁ refl
          λ w₂. (
            record {
              inbox = inbox;
              ordered = newest_first-NewestFirst [] visible tt;
              complete = λ p. omega (arith, newest_first-SameRows [] visible p);
              page = take-map_one_more limit (drop offset inbox);
              more = one_more limit offset inbox;
              size =
                  subst (λ ms. length ms ≤ limit)
                    (sym (take-map_one_more limit (drop offset inbox)))
                    (page_size limit (drop offset inbox));
            },
            refl,
          )
