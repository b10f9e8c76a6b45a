-- ===== src/Wishlist/History.antt =====
-- Every request keeps the four tables sound.
use psycho_space.Prelude.{
  Text, ℕ, ◌≡◌, refl, sym, subst, inl, inr, ◌⊎◌, ◌∙◌, Bool, true, List, [], ◌∷◌, ◌++◌, some, ◌==◌,
  arith,
}
use psycho_space.Wishlist.Defs.{
  Tables, CommentRow, is_live_item, is_live_comment, change_where, soft_delete_item,
  soft_delete_comment, item_exists, comment_exists, add_vote,
}
use psycho_space.Wishlist.Service.{
  create_item, add_comment, vote, unvote, vote_comment, unvote_comment, delete_item, delete_comment,
  new_item, new_comment,
}
use psycho_space.Wishlist.Votes.{add_vote-IsOneEach, remove_vote-IsOneEach}
use psycho_space.Wishlist.References.{
  Change, creates, comments_on, votes_for, unvotes, votes_for_comment, unvotes_comment, deletes,
  deletes_comment, apply, history, no_rows, has_item, has_comment, Sound, is_there-append,
  is_there-change_where, AllPass-append, AllPass-change_where, AllPass-remove_vote,
  AllPass-add_vote, item_exists-has_item, comment_exists-has_comment, items_grow, comments_grow,
}

-- A request leaves the tables, or makes its one change under its guard.
Sound-how :
    (t u v : Tables) (guard : Bool)
    → (u ≡ t) ⊎ ((guard ≡ true) × (u ≡ v))
    → Sound t
    → (guard ≡ true → Sound v)
    → Sound u
Sound-how t u v guard (inl e) h g = subst Sound (sym e) h
Sound-how t u v guard (inr (e, e')) h g = subst Sound (sym e') (g e)

module _ (trim : Text → Text) (t : Tables) (h : Sound t) where
  create_item-Sound :
      (author : ℕ) (title body : Text) (id now : ℕ)
      → Sound (create_item trim author title body id now t).0
  unfolding create_item
  create_item-Sound author title body id now =
      let row = new_item id author (trim title) (trim body) now in
      Sound-how t (create_item trim author title body id now t).0
        (record t { items = t.items ++ row ∷ [] }) true (ground arith) h
        (λ _.
          items_grow t (t.items ++ row ∷ [])
            (λ i e. is_there-append (λ r. r.id == i) t.items (row ∷ []) e) h)

  add_comment-Sound :
      (item author : ℕ) (body : Text) (id now : ℕ)
      → Sound (add_comment trim item author body id now t).0
  unfolding add_comment
  add_comment-Sound item author body id now =
      let row = new_comment id item author (trim body) now in
      Sound-how t (add_comment trim item author body id now t).0
        (record t { comments = t.comments ++ row ∷ [] }) (item_exists item t) (ground arith) h
        (λ there.
          comments_grow t (t.comments ++ row ∷ [])
            (λ i e. is_there-append (λ r. r.id == i) t.comments (row ∷ []) e)
            (AllPass-append (λ c. has_item c.item_id t.items) t.comments row h.4
              (item_exists-has_item item t there))
            h)

  vote-Sound : (item account : ℕ) → Sound (vote item account t).0
  unfolding vote
  vote-Sound item account =
      Sound-how t (vote item account t).0 (record t { votes = add_vote item account t.votes })
        (item_exists item t) (ground arith) h
        (λ there. (
          add_vote-IsOneEach item account t.votes h.0,
          h.1,
          AllPass-add_vote (λ v. has_item v.on_ t.items) item account t.votes h.2
              (item_exists-has_item item t there),
          h.3,
          h.4,
        ))

  vote_comment-Sound : (comment account : ℕ) → Sound (vote_comment comment account t).0
  unfolding vote_comment
  vote_comment-Sound comment account =
      Sound-how t (vote_comment comment account t).0
        (record t { comment_votes = add_vote comment account t.comment_votes })
        (comment_exists comment t) (ground arith) h
        (λ there. (
          h.0,
          add_vote-IsOneEach comment account t.comment_votes h.1,
          h.2,
          AllPass-add_vote (λ v. has_comment v.on_ t.comments) comment account t.comment_votes h.3
              (comment_exists-has_comment comment t there),
          h.4,
        ))

  unvote-Sound : (item account : ℕ) → Sound (unvote item account t)
  unfolding unvote
  unvote-Sound item account = (
    remove_vote-IsOneEach item account t.votes h.0,
    h.1,
    AllPass-remove_vote (λ v. has_item v.on_ t.items) item account t.votes h.2,
    h.3,
    h.4,
  )

  unvote_comment-Sound : (comment account : ℕ) → Sound (unvote_comment comment account t)
  unfolding unvote_comment
  unvote_comment-Sound comment account = (
    h.0,
    remove_vote-IsOneEach comment account t.comment_votes h.1,
    h.2,
    AllPass-remove_vote (λ v. has_comment v.on_ t.comments) comment account t.comment_votes h.3,
    h.4,
  )

  delete_item-Sound :
      (item actor : ℕ) (is_admin : Bool) (now : ℕ) → Sound (delete_item item actor is_admin now t).0
  unfolding delete_item soft_delete_item
  delete_item-Sound item actor is_admin now =
      Sound-how t (delete_item item actor is_admin now t).0 (soft_delete_item item now t) true
        (ground arith) h
        (λ _.
          items_grow t
            (change_where (is_live_item item) (λ r. record r { deleted_at = some now }) t.items)
            (λ i e.
              is_there-change_where (λ r. r.id == i) (is_live_item item)
                (λ r. record r { deleted_at = some now }) t.items (λ r. refl)
              ∙ e)
            h)

  delete_comment-Sound :
      (comment actor : ℕ) (is_admin : Bool) (now : ℕ)
      → Sound (delete_comment comment actor is_admin now t).0
  unfolding delete_comment soft_delete_comment
  delete_comment-Sound comment actor is_admin now =
      let delete = λ (r : CommentRow). record r { deleted_at = some now } in
      Sound-how t (delete_comment comment actor is_admin now t).0
        (soft_delete_comment comment now t) true (ground arith) h
        (λ _.
          comments_grow t (change_where (is_live_comment comment) delete t.comments)
            (λ i e.
              is_there-change_where (λ r. r.id == i) (is_live_comment comment) delete t.comments
                (λ r. refl)
              ∙ e)
            (AllPass-change_where (λ c. has_item c.item_id t.items) (is_live_comment comment) delete
              t.comments (λ c. refl) h.4)
            h)

module _ (trim : Text → Text) where
  apply-Sound : (c : Change) (t : Tables) → Sound t → Sound (apply trim c t)
  unfolding apply
  apply-Sound (creates author title body id now) t h =
      create_item-Sound trim t h author title body id now
  apply-Sound (comments_on item author body id now) t h =
      add_comment-Sound trim t h item author body id now
  apply-Sound (votes_for item account) t h = vote-Sound trim t h item account
  apply-Sound (unvotes item account) t h = unvote-Sound trim t h item account
  apply-Sound (votes_for_comment comment account) t h = vote_comment-Sound trim t h comment account
  apply-Sound (unvotes_comment comment account) t h = unvote_comment-Sound trim t h comment account
  apply-Sound (deletes item actor is_admin now) t h =
      delete_item-Sound trim t h item actor is_admin now
  apply-Sound (deletes_comment comment actor is_admin now) t h =
      delete_comment-Sound trim t h comment actor is_admin now

  history-Sound_from : (cs : List Change) (t : Tables) → Sound t → Sound (history trim cs t)
  unfolding history
  history-Sound_from [] t h = h
  history-Sound_from (c ∷ cs) t h = history-Sound_from cs (apply trim c t) (apply-Sound c t h)

  -- After any history of requests from empty tables, also of refused ones and in any order, no account
  -- has two votes on one item or one comment, and every vote and comment is on a thing that has a row.
  pub history-Sound : (cs : List Change) → Sound (history trim cs no_rows)
  history-Sound cs = history-Sound_from cs no_rows (tt, tt, tt, tt, tt)
