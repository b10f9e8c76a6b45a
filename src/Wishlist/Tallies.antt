-- ===== src/Wishlist/Tallies.antt =====
-- Voting through the service.
use psycho_space.Prelude.{
  ℕ, ◌+◌, ◌≡◌, ap, inl, inr, false, ◌&&◌, ◌||◌, not, List, [], ◌∷◌, ◌++◌, none, some, if◌then◌else◌,
  ◌==◌, count_by, arith, Bool-cases,
}
use psycho_space.Wishlist.Defs.{
  Vote, Tables, is_on, has_vote, add_vote, remove_vote, item_exists, item_missing,
}
use psycho_space.Wishlist.Service.{vote, unvote}
use psycho_space.Wishlist.Votes.{has_vote-add_vote, count_by-add_vote, remove_vote-eq_self}

-- A vote on a live item succeeds, adds one to the tally of that item if the account had no vote on it,
-- and to nothing else, and right after the item shows as voted to that account; on an item that is not
-- there it is refused and changes nothing. Items, comments and the votes on comments stay.
pub vote_lem :
    (item account j viewer : ℕ) (t : Tables)
    → ((vote item account t).1 ≡ (if item_exists item t then none else some item_missing))
      × (count_by (is_on j) (vote item account t).0.votes
          ≡ count_by (is_on j) t.votes
            + (if item_exists item t && j == item && not (has_vote item account t.votes)
                then 1
                else 0))
      × (has_vote j viewer (vote item account t).0.votes
          ≡ (has_vote j viewer t.votes || (item_exists item t && j == item && viewer == account)))
      × (item_exists item t ≡ false → (vote item account t).0 ≡ t)
      × ((vote item account t).0.items ≡ t.items)
      × ((vote item account t).0.comments ≡ t.comments)
      × ((vote item account t).0.comment_votes ≡ t.comment_votes)
unfolding vote
vote_lem item account j viewer t = (
  ground arith,
  ground (arith, count_by-add_vote item account j t.votes),
  ground (arith, has_vote-add_vote item account j viewer t.votes),
  λ gone. ground (arith, gone),
  ground arith,
  ground arith,
  ground arith,
)

remove_vote-append :
    (id account : ℕ) (votes : List Vote)
    → has_vote id account votes ≡ false
    → remove_vote id account (votes ++ record { on_ = id; voter = account } ∷ []) ≡ votes
unfolding remove_vote has_vote
remove_vote-append id account [] e = ground arith
remove_vote-append id account (v ∷ votes) e = ground (arith, remove_vote-append id account votes)

-- Taking back a vote of an account that had none on the item restores the tables, whether or not
-- the item is there.
pub unvote-vote :
    (item account : ℕ) (t : Tables)
    → has_vote item account t.votes ≡ false
    → unvote item account (vote item account t).0 ≡ t
unfolding vote unvote add_vote
unvote-vote item account t e = elim (Bool-cases (item_exists item t)) [
  | inl there ↦
      rw (there, e) (ap (λ v. record t { votes = v }) (remove_vote-append item account t.votes e))
  | inr gone ↦
      rw gone (ap (λ v. record t { votes = v }) (remove_vote-eq_self item account t.votes e))
]
