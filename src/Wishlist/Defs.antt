-- ===== src/Wishlist/Defs.antt =====
-- internal/wishlist/wishlist.go, postgres_repository.go: the tables and the statements on them.
use psycho_space.Prelude.{
  Text, ℕ, Bool, true, false, ◌&&◌, ◌||◌, List, [], ◌∷◌, ◌++◌, Option, none, some, if◌then◌else◌,
  ◌==◌, ltb, count_by, ◌⊎◌, inl, inr,
}
use psycho_space.Account.Rows.{is_null}

pub data Sort : Type 0 where
  sort_top sort_new : Sort

pub data WishError : Type 0 where
  item_missing comment_missing empty_title empty_comment too_long not_yours : WishError

-- A row of wishlist_items, of wishlist_comments, and of either table of votes.
pub record ItemRow : Type 0 where
  pub id : ℕ
  pub account_id : ℕ
  pub title : Text
  pub body : Text
  pub created_at : ℕ
  pub deleted_at : Option ℕ

pub record CommentRow : Type 0 where
  pub id : ℕ
  pub item_id : ℕ
  pub account_id : ℕ
  pub body : Text
  pub created_at : ℕ
  pub deleted_at : Option ℕ

pub record Vote : Type 0 where
  pub on_ : ℕ
  pub voter : ℕ

pub record Tables : Type 0 where
  pub items : List ItemRow
  pub comments : List CommentRow
  pub votes : List Vote
  pub comment_votes : List Vote

pub record Item : Type 0 where
  pub id : ℕ
  pub author_id : ℕ
  pub title : Text
  pub body : Text
  pub votes : ℕ
  pub voted_by_me : Bool
  pub comment_count : ℕ
  pub created_at : ℕ

pub record Comment : Type 0 where
  pub id : ℕ
  pub item_id : ℕ
  pub author_id : ℕ
  pub body : Text
  pub votes : ℕ
  pub voted_by_me : Bool
  pub created_at : ℕ

-- `SELECT count(*)` and `EXISTS` on a table of votes.
abbrev pub is_on : ℕ → Vote → Bool
is_on id v = v.on_ == id

abbrev pub is_by : ℕ → ℕ → Vote → Bool
is_by id account v = v.on_ == id && v.voter == account

unfoldable pub has_vote : ℕ → ℕ → List Vote → Bool
has_vote id account [] = false
has_vote id account (v ∷ votes) = is_by id account v || has_vote id account votes

-- `INSERT … ON CONFLICT DO NOTHING` and `DELETE`: AddVote, RemoveVote and their kin for comments.
unfoldable pub add_vote : ℕ → ℕ → List Vote → List Vote
add_vote id account votes =
    if has_vote id account votes then votes else votes ++ record { on_ = id; voter = account } ∷ []

unfoldable pub remove_vote : ℕ → ℕ → List Vote → List Vote
remove_vote id account [] = []
remove_vote id account (v ∷ votes) =
    let rest = remove_vote id account votes in if is_by id account v then rest else v ∷ rest

abbrev pub is_live_item : ℕ → ItemRow → Bool
is_live_item id r = r.id == id && is_null r.deleted_at

abbrev pub is_live_comment : ℕ → CommentRow → Bool
is_live_comment id r = r.id == id && is_null r.deleted_at

-- The first row that passes, `UPDATE … SET change WHERE test`, and the live comments of an item.
unfoldable pub first {ℓ} : {A : Type ℓ} → (A → Bool) → List A → Option A
first test [] = none
first test (r ∷ rows) = if test r then some r else first test rows

unfoldable pub change_where {ℓ} : {A : Type ℓ} → (A → Bool) → (A → A) → List A → List A
change_where test change [] = []
change_where test change (r ∷ rows) =
    (if test r then change r else r) ∷ change_where test change rows

abbrev pub is_comment_of : ℕ → CommentRow → Bool
is_comment_of item r = r.item_id == item && is_null r.deleted_at

-- `Exists`, `CommentExists`, `ItemAuthor`, `CommentAuthor`
abbrev pub is_there {ℓ} : {A : Type ℓ} → Option A → Bool
is_there none = false
is_there (some a) = true

unfoldable pub item_exists : ℕ → Tables → Bool
item_exists id t = is_there (first (is_live_item id) t.items)

unfoldable pub comment_exists : ℕ → Tables → Bool
comment_exists id t = is_there (first (is_live_comment id) t.comments)

unfoldable pub item_author : ℕ → Tables → WishError ⊎ ℕ
item_author id t = elim (first (is_live_item id) t.items) [
  | none ↦ inl item_missing
  | some r ↦ inr r.account_id
]

unfoldable pub comment_author : ℕ → Tables → WishError ⊎ ℕ
comment_author id t = elim (first (is_live_comment id) t.comments) [
  | none ↦ inl comment_missing
  | some r ↦ inr r.account_id
]

-- `SoftDeleteItem`, `SoftDeleteComment`
unfoldable pub soft_delete_item : ℕ → ℕ → Tables → Tables
soft_delete_item id now t = record t {
  items = change_where (is_live_item id) (λ r. record r { deleted_at = some now }) t.items;
}

unfoldable pub soft_delete_comment : ℕ → ℕ → Tables → Tables
soft_delete_comment id now t = record t {
  comments = change_where (is_live_comment id) (λ r. record r { deleted_at = some now }) t.comments;
}

-- What the lists show of a row.
abbrev pub item_view : ℕ → Tables → ItemRow → Item
item_view viewer t r = record {
  id = r.id;
  author_id = r.account_id;
  title = r.title;
  body = r.body;
  votes = count_by (is_on r.id) t.votes;
  voted_by_me = has_vote r.id viewer t.votes;
  comment_count = count_by (is_comment_of r.id) t.comments;
  created_at = r.created_at;
}

abbrev pub comment_view : ℕ → Tables → CommentRow → Comment
comment_view viewer t r = record {
  id = r.id;
  item_id = r.item_id;
  author_id = r.account_id;
  body = r.body;
  votes = count_by (is_on r.id) t.comment_votes;
  voted_by_me = has_vote r.id viewer t.comment_votes;
  created_at = r.created_at;
}

unfoldable pub item_views : ℕ → Tables → List ItemRow → List Item
item_views viewer t [] = []
item_views viewer t (r ∷ rows) =
    let rest = item_views viewer t rows in
    if is_null r.deleted_at then item_view viewer t r ∷ rest else rest

unfoldable pub comment_views : ℕ → ℕ → Tables → List CommentRow → List Comment
comment_views item viewer t [] = []
comment_views item viewer t (r ∷ rows) =
    let rest = comment_views item viewer t rows in
    if is_comment_of item r then comment_view viewer t r ∷ rest else rest

-- `votes DESC, created_at DESC`; `created_at DESC`; `votes DESC, created_at ASC`
abbrev pub after_top : Item → Item → Bool
after_top x y = ltb x.votes y.votes || x.votes == y.votes && ltb x.created_at y.created_at

abbrev pub after_new : Item → Item → Bool
after_new x y = ltb x.created_at y.created_at

abbrev pub after_comment : Comment → Comment → Bool
after_comment x y = ltb x.votes y.votes || x.votes == y.votes && ltb y.created_at x.created_at
