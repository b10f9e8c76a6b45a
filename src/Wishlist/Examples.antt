-- ===== src/Wishlist/Examples.antt =====
-- The theorems of the wishlist at concrete inputs.
use psycho_space.Prelude.{
  Text, Pairwise, ◌&&◌, not, false, ℕ, ◌+◌, ◌≡◌, ◌↔◌, true, [], ◌∷◌, none, count_by, ◌==◌,
}
use psycho_space.Wishlist.Defs.{
  Tables, ItemRow, sort_top, sort_new, has_vote, first, is_on, item_exists,
}
use psycho_space.Wishlist.Service.{vote, delete_item, create_item, list_items}
use psycho_space.Wishlist.Tallies.{vote_lem}
use psycho_space.Wishlist.Order.{list_items_lem, StandsFirst}
use psycho_space.Wishlist.Deletion.{delete_item_lem}
use psycho_space.Wishlist.Creation.{create_item_lem, is_item}
use psycho_space.Wishlist.References.{
  Sound, history, no_rows, creates, comments_on, votes_for, deletes,
}
use psycho_space.Wishlist.History.{history-Sound}

abbrev no_trim : Text → Text
no_trim text = text

abbrev idea : ℕ → ℕ → ItemRow
idea id now = record {
  id = id;
  account_id = 5;
  title = 84 ∷ [];
  body = [];
  created_at = now;
  deleted_at = none;
}

abbrev board : Tables
board = record {
  items = idea 1 10 ∷ idea 2 20 ∷ [];
  comments = [];
  votes = record { on_ = 1; voter = 6 } ∷ [];
  comment_votes = [];
}

vote_lem_example :
    ((vote 2 6 board).1 ≡ none)
    × (count_by (is_on 2) (vote 2 6 board).0.votes ≡ 1)
    × (has_vote 2 6 (vote 2 6 board).0.votes ≡ true)
    × (item_exists 2 board ≡ false → (vote 2 6 board).0 ≡ board)
    × ((vote 2 6 board).0.items ≡ board.items)
    × ((vote 2 6 board).0.comments ≡ [])
    × ((vote 2 6 board).0.comment_votes ≡ [])
unfolding item_exists first has_vote count_by
vote_lem_example = vote_lem 2 6 2 6 board

list_items_lem_example :
    Pairwise (StandsFirst sort_top) (list_items 6 sort_top board)
    × (count_by (λ x. x.votes == 1) (list_items 6 sort_top board) ≡ 1)
unfolding count_by
list_items_lem_example = list_items_lem 6 (λ x. x.votes == 1) sort_top board

delete_item_lem_example :
    ((delete_item 1 5 false 30 board).1 ≡ none ↔ true ≡ true)
    × (true ≡ false → (delete_item 1 5 false 30 board).0 ≡ board)
    × (count_by (λ x. x.votes == 1) (list_items 6 sort_new (delete_item 1 5 false 30 board).0)
        ≡ count_by (λ x. x.votes == 1 && not (true && x.id == 1)) (list_items 6 sort_new board))
    × ((delete_item 1 5 false 30 board).0.comments ≡ [])
    × ((delete_item 1 5 false 30 board).0.votes ≡ board.votes)
    × ((delete_item 1 5 false 30 board).0.comment_votes ≡ [])
unfolding first
delete_item_lem_example = delete_item_lem 1 5 false 30 6 sort_new (λ x. x.votes == 1) board

create_item_lem_example :
    (is_item (create_item no_trim 5 (84 ∷ []) [] 3 30 board).1 ≡ true)
    × (count_by
          (λ x. x.author_id == 5)
          (list_items 6 sort_top (create_item no_trim 5 (84 ∷ []) [] 3 30 board).0)
        ≡ count_by (λ x. x.author_id == 5) (list_items 6 sort_top board) + 1)
    × (true ≡ false → (create_item no_trim 5 (84 ∷ []) [] 3 30 board).0 ≡ board)
create_item_lem_example =
    create_item_lem no_trim 5 (84 ∷ []) [] 3 30 6 sort_top (λ x. x.author_id == 5) board

history-Sound_example : Sound (
    history no_trim
      (creates 5 (84 ∷ []) [] 1 10
        ∷ votes_for 1 6
        ∷ votes_for 1 6
        ∷ comments_on 1 6 (85 ∷ []) 2 20
        ∷ deletes 1 5 false 30
        ∷ [])
      no_rows)
history-Sound_example = history-Sound no_trim (
    creates 5 (84 ∷ []) [] 1 10
    ∷ votes_for 1 6
    ∷ votes_for 1 6
    ∷ comments_on 1 6 (85 ∷ []) 2 20
    ∷ deletes 1 5 false 30
    ∷ [])
