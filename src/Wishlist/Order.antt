-- ===== src/Wishlist/Order.antt =====
-- The list of ideas: in order, and with every live row once, as it stands.
use psycho_space.Prelude.{
  Text, order_by, Pairwise, IsOrdered-Pairwise, order_by-IsOrdered, count_by-order_by, ℕ, ◌≤◌, ◌<◌,
  ◌⊎◌, ◌≡◌, refl, ◌∙◌, Bool, ◌&&◌, List, [], ◌∷◌, count_by, arith,
}
use psycho_space.Account.Rows.{is_null}
use psycho_space.Wishlist.Defs.{
  Sort, sort_top, sort_new, Tables, Item, ItemRow, item_views, after_top, after_new, is_on,
  has_vote, is_comment_of,
}
use psycho_space.Wishlist.Service.{list_items}

-- The order that is meant: more votes first and of two with as many the younger, or the younger first.
abbrev pub StandsFirst : Sort → Item → Item → Type 0
StandsFirst sort_top x y =
    (y.votes < x.votes) ⊎ ((x.votes ≡ y.votes) × (y.created_at ≤ x.created_at))
StandsFirst sort_new x y = y.created_at ≤ x.created_at

-- What a list shows of an idea: its text, author and time, and its votes and live comments.
abbrev pub shown : ℕ → Tables → ℕ → ℕ → Text → Text → ℕ → Item
shown viewer t id author title body now = record {
  id = id;
  author_id = author;
  title = title;
  body = body;
  votes = count_by (is_on id) t.votes;
  voted_by_me = has_vote id viewer t.votes;
  comment_count = count_by (is_comment_of id) t.comments;
  created_at = now;
}

abbrev pub shown_row : ℕ → Tables → ItemRow → Item
shown_row viewer t r = shown viewer t r.id r.account_id r.title r.body r.created_at

count_by-item_views :
    (viewer : ℕ) (p : Item → Bool) (t : Tables) (rows : List ItemRow)
    → count_by p (item_views viewer t rows)
      ≡ count_by (λ r. is_null r.deleted_at && p (shown_row viewer t r)) rows
unfolding item_views count_by
count_by-item_views viewer p t [] = refl
count_by-item_views viewer p t (r ∷ rows) = ground (arith, count_by-item_views viewer p t rows)

pub count_by-list_items :
    (viewer : ℕ) (sort : Sort) (p : Item → Bool) (t : Tables)
    → count_by p (list_items viewer sort t) ≡ count_by p (item_views viewer t t.items)
unfolding list_items
count_by-list_items viewer sort_top p t =
    count_by-order_by after_top p (item_views viewer t t.items)
count_by-list_items viewer sort_new p t =
    count_by-order_by after_new p (item_views viewer t t.items)

list_items-Pairwise :
    (viewer : ℕ) (sort : Sort) (t : Tables) → Pairwise (StandsFirst sort) (list_items viewer sort t)
unfolding list_items
list_items-Pairwise viewer sort_top t =
    IsOrdered-Pairwise after_top (StandsFirst sort_top)
      (order_by after_top (item_views viewer t t.items)) (λ x y h. ground (arith, h))
      (order_by-IsOrdered after_top (λ x y h. ground (arith, h)) (λ x y z h g. ground (arith, h, g))
        (item_views viewer t t.items))
list_items-Pairwise viewer sort_new t =
    IsOrdered-Pairwise after_new (StandsFirst sort_new)
      (order_by after_new (item_views viewer t t.items)) (λ x y h. ground (arith, h))
      (order_by-IsOrdered after_new (λ x y h. ground (arith, h)) (λ x y z h g. ground (arith, h, g))
        (item_views viewer t t.items))

-- In the top list every idea has more votes than each after it, or as many and is not older; in the
-- list by time it is not older than each after it. The list holds the ideas that are not deleted and
-- nothing else, each with its id, author, text and time, the votes on it, whether the viewer's is
-- among them, and how many comments on it are not deleted: any test passes in the list as often as on
-- those.
pub list_items_lem :
    (viewer : ℕ) (p : Item → Bool) (sort : Sort) (t : Tables)
    → Pairwise (StandsFirst sort) (list_items viewer sort t)
      × (count_by p (list_items viewer sort t)
          ≡ count_by (λ r. is_null r.deleted_at && p (shown_row viewer t r)) t.items)
list_items_lem viewer p sort t = (
  list_items-Pairwise viewer sort t,
  count_by-list_items viewer sort p t ∙ count_by-item_views viewer p t t.items,
)
