-- ===== src/Wishlist/Creation.antt =====
-- Which ideas are accepted, and what the list shows of them.
use psycho_space.Prelude.{
  Text, refl, List, ◌++◌, none, ℕ, ◌+◌, ◌≡◌, inl, inr, ◌⊎◌, Bool, true, false, ◌&&◌, not, [], ◌∷◌,
  if◌then◌else◌, count_by, arith, leb, length,
}
use psycho_space.Wishlist.Defs.{Sort, Tables, Item, ItemRow, WishError, item_views}
use psycho_space.Wishlist.Service.{create_item, list_items, is_empty, max_title, max_body, new_item}
use psycho_space.Wishlist.Order.{count_by-list_items, shown, shown_row}

abbrev pub is_acceptable : Text → Text → Bool
is_acceptable title body =
    not (is_empty title) && leb (length title) max_title && leb (length body) max_body

abbrev pub is_item : WishError ⊎ Item → Bool
is_item (inl e) = false
is_item (inr i) = true

views-append :
    (viewer : ℕ) (p : Item → Bool) (t t' : Tables) (rows : List ItemRow) (r : ItemRow)
    → t'.votes ≡ t.votes
    → t'.comments ≡ t.comments
    → r.deleted_at ≡ none
    → count_by p (item_views viewer t' (rows ++ r ∷ []))
      ≡ count_by p (item_views viewer t rows) + (if p (shown_row viewer t r) then 1 else 0)
unfolding item_views count_by
views-append viewer p t t' [] r v m live = rw (v, m, live) (ground arith)
views-append viewer p t t' (x ∷ rows) r v m live =
    rw (v, m) (ground (arith, views-append viewer p t t' rows r v m live))

create_item_views :
    (trim : Text → Text) (author : ℕ) (title body : Text) (id now viewer : ℕ) (p : Item → Bool)
    (t : Tables)
    → let t' = (create_item trim author title body id now t).0 in
      count_by p (item_views viewer t' t'.items)
      ≡ count_by p (item_views viewer t t.items)
        + (if is_acceptable (trim title) (trim body)
              && p (shown viewer t id author (trim title) (trim body) now)
            then 1
            else 0)
unfolding create_item
create_item_views trim author title body id now viewer p t =
    let row = new_item id author (trim title) (trim body) now in
    ground (
      arith,
      views-append viewer p t (record t { items = t.items ++ row ∷ [] }) t.items row refl refl refl,
    )

create_item-is_item :
    (trim : Text → Text) (author : ℕ) (title body : Text) (id now : ℕ) (t : Tables)
    → is_item (create_item trim author title body id now t).1
      ≡ is_acceptable (trim title) (trim body)
unfolding create_item
create_item-is_item trim author title body id now t = ground arith

create_item_refused :
    (trim : Text → Text) (author : ℕ) (title body : Text) (id now : ℕ) (t : Tables)
    → is_acceptable (trim title) (trim body) ≡ false
    → (create_item trim author title body id now t).0 ≡ t
unfolding create_item
create_item_refused trim author title body id now t h = ground (arith, h)

-- An idea is accepted exactly if its trimmed title is not empty and has at most 200 bytes and its
-- trimmed body at most 4000. Right after, every list holds one idea more, with the given id, author
-- and time, the trimmed title and body, and the votes and comments that stand under the id, and all
-- others as before: any test passes once more if it passes on that idea, and else as often. A refused
-- idea changes nothing.
pub create_item_lem :
    (trim : Text → Text) (author : ℕ) (title body : Text) (id now viewer : ℕ) (sort : Sort)
    (p : Item → Bool) (t : Tables)
    → let result = create_item trim author title body id now t in
      let good = is_acceptable (trim title) (trim body) in
      (is_item result.1 ≡ good)
      × (count_by p (list_items viewer sort result.0)
          ≡ count_by p (list_items viewer sort t)
            + (if good && p (shown viewer t id author (trim title) (trim body) now) then 1 else 0))
      × (good ≡ false → result.0 ≡ t)
create_item_lem trim author title body id now viewer sort p t =
    let t' = (create_item trim author title body id now t).0 in
    (
      create_item-is_item trim author title body id now t,
      ground (
        arith,
        create_item_views trim author title body id now viewer p t,
        count_by-list_items viewer sort p t,
        count_by-list_items viewer sort p t',
      ),
      create_item_refused trim author title body id now t,
    )
