-- ===== src/Wishlist/Service.antt =====
-- internal/wishlist/service.go: the operations, with their checks in the code's order.
use psycho_space.Prelude.{
  Text, order_by, ℕ, Bool, true, false, ◌&&◌, ◌||◌, not, List, [], ◌∷◌, ◌++◌, Option, none, some,
  if◌then◌else◌, ◌==◌, ltb, length, ◌⊎◌, inl, inr,
}
use psycho_space.Wishlist.Defs.{
  Sort, sort_top, sort_new, WishError, item_missing, comment_missing, empty_title, empty_comment,
  too_long, not_yours, ItemRow, CommentRow, Tables, Item, Comment, add_vote, remove_vote,
  item_exists, comment_exists, item_author, comment_author, soft_delete_item, soft_delete_comment,
  item_views, comment_views, after_top, after_new, after_comment,
}

abbrev pub max_title : ℕ
max_title = 200

abbrev pub max_body : ℕ
max_body = 4000

abbrev pub max_comment_body : ℕ
max_comment_body = 2000

abbrev pub is_empty : Text → Bool
is_empty [] = true
is_empty (b ∷ bs) = false

abbrev pub new_item : ℕ → ℕ → Text → Text → ℕ → ItemRow
new_item id author title body now = record {
  id = id;
  account_id = author;
  title = title;
  body = body;
  created_at = now;
  deleted_at = none;
}

abbrev pub new_comment : ℕ → ℕ → ℕ → Text → ℕ → CommentRow
new_comment id item author body now = record {
  id = id;
  item_id = item;
  account_id = author;
  body = body;
  created_at = now;
  deleted_at = none;
}

-- `Create` answers with no votes and no comments: the statement returns the row alone.
abbrev pub created : ItemRow → Item
created r = record {
  id = r.id;
  author_id = r.account_id;
  title = r.title;
  body = r.body;
  votes = 0;
  voted_by_me = false;
  comment_count = 0;
  created_at = r.created_at;
}

abbrev pub commented : CommentRow → Comment
commented r = record {
  id = r.id;
  item_id = r.item_id;
  author_id = r.account_id;
  body = r.body;
  votes = 0;
  voted_by_me = false;
  created_at = r.created_at;
}

module _ (trim : Text → Text) where
  -- `Create`
  unfoldable pub create_item : ℕ → Text → Text → ℕ → ℕ → Tables → Tables × (WishError ⊎ Item)
  create_item author title body id now t =
      if is_empty (trim title)
      then (t, inl empty_title)
      else if ltb max_title (length (trim title)) || ltb max_body (length (trim body))
      then (t, inl too_long)
      else (
        record t { items = t.items ++ new_item id author (trim title) (trim body) now ∷ [] },
        inr (created (new_item id author (trim title) (trim body) now)),
      )

  -- `AddComment`
  unfoldable pub add_comment : ℕ → ℕ → Text → ℕ → ℕ → Tables → Tables × (WishError ⊎ Comment)
  add_comment item author body id now t =
      if is_empty (trim body)
      then (t, inl empty_comment)
      else if ltb max_comment_body (length (trim body))
      then (t, inl too_long)
      else if not (item_exists item t)
      then (t, inl item_missing)
      else (
        record t { comments = t.comments ++ new_comment id item author (trim body) now ∷ [] },
        inr (commented (new_comment id item author (trim body) now)),
      )

-- `List`; any text but `new` stands for the top order.
unfoldable pub list_items : ℕ → Sort → Tables → List Item
list_items viewer sort_top t = order_by after_top (item_views viewer t t.items)
list_items viewer sort_new t = order_by after_new (item_views viewer t t.items)

-- `ListComments`
unfoldable pub list_comments : ℕ → ℕ → Tables → List Comment
list_comments item viewer t = order_by after_comment (comment_views item viewer t t.comments)

-- `Vote`, `Unvote`
unfoldable pub vote : ℕ → ℕ → Tables → Tables × Option WishError
vote item account t =
    if item_exists item t
    then (record t { votes = add_vote item account t.votes }, none)
    else (t, some item_missing)

unfoldable pub unvote : ℕ → ℕ → Tables → Tables
unvote item account t = record t { votes = remove_vote item account t.votes }

-- `VoteComment`, `UnvoteComment`
unfoldable pub vote_comment : ℕ → ℕ → Tables → Tables × Option WishError
vote_comment comment account t =
    if comment_exists comment t
    then (record t { comment_votes = add_vote comment account t.comment_votes }, none)
    else (t, some comment_missing)

unfoldable pub unvote_comment : ℕ → ℕ → Tables → Tables
unvote_comment comment account t = record t {
  comment_votes = remove_vote comment account t.comment_votes;
}

-- The rule of both deletions: the author, or an admin.
abbrev pub may_delete : WishError ⊎ ℕ → ℕ → Bool → Option WishError
may_delete (inl e) actor is_admin = some e
may_delete (inr author) actor is_admin =
    if not (author == actor) && not is_admin then some not_yours else none

-- `DeleteItem`
unfoldable pub delete_item : ℕ → ℕ → Bool → ℕ → Tables → Tables × Option WishError
delete_item item actor is_admin now t = elim (may_delete (item_author item t) actor is_admin) [
  | some e ↦ (t, some e)
  | none ↦ (soft_delete_item item now t, none)
]

-- `DeleteComment`
unfoldable pub delete_comment : ℕ → ℕ → Bool → ℕ → Tables → Tables × Option WishError
delete_comment comment actor is_admin now t =
    elim (may_delete (comment_author comment t) actor is_admin) [
      | some e ↦ (t, some e)
      | none ↦ (soft_delete_comment comment now t, none)
    ]
