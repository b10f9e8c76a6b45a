-- ===== src/Wishlist/Votes.antt =====
-- What voting and taking a vote back do to every tally.
use psycho_space.Prelude.{
  ℕ, ◌+◌, ◌≡◌, refl, inl, inr, false, ◌&&◌, ◌||◌, not, List, [], ◌∷◌, ◌++◌, if◌then◌else◌, ◌==◌,
  count_by, count_by-append, arith, Bool-cases,
}
use psycho_space.Wishlist.Defs.{Vote, is_on, has_vote, add_vote, remove_vote}

-- An account has at most one vote on a thing.
abbrev pub IsOneEach : List Vote → Type 0
IsOneEach [] = Unit {0}
IsOneEach (v ∷ votes) = (has_vote v.on_ v.voter votes ≡ false) × IsOneEach votes

has_vote-append :
    (id account : ℕ) (votes more : List Vote)
    → has_vote id account (votes ++ more) ≡ (has_vote id account votes || has_vote id account more)
unfolding has_vote
has_vote-append id account [] more = refl
has_vote-append id account (v ∷ votes) more = ground (arith, has_vote-append id account votes more)

pub has_vote-add_vote :
    (id account j viewer : ℕ) (votes : List Vote)
    → has_vote j viewer (add_vote id account votes)
      ≡ (has_vote j viewer votes || (j == id && viewer == account))
unfolding add_vote has_vote
has_vote-add_vote id account j viewer votes = elim (Bool-cases (j == id && viewer == account)) [
  | inr other ↦
      ground
        (arith, other, has_vote-append j viewer votes (record { on_ = id; voter = account } ∷ []))
  | inl same ↦
      let same_id : j ≡ id = ground (arith, same) in
      let same_account : viewer ≡ account = ground (arith, same) in
      rw (same_id, same_account)
        (ground
          (arith, has_vote-append id account votes (record { on_ = id; voter = account } ∷ [])))
]

pub count_by-add_vote :
    (id account j : ℕ) (votes : List Vote)
    → count_by (is_on j) (add_vote id account votes)
      ≡ count_by (is_on j) votes + (if j == id && not (has_vote id account votes) then 1 else 0)
unfolding add_vote count_by
count_by-add_vote id account j votes =
    ground (arith, count_by-append (is_on j) votes (record { on_ = id; voter = account } ∷ []))

append-IsOneEach :
    (v : Vote) (votes : List Vote)
    → IsOneEach votes
    → has_vote v.on_ v.voter votes ≡ false
    → IsOneEach (votes ++ v ∷ [])
unfolding has_vote
append-IsOneEach v [] h e = (refl, tt)
append-IsOneEach v (x ∷ votes) h e =
    ground (arith, append-IsOneEach v votes h.1, has_vote-append x.on_ x.voter votes (v ∷ []))

pub add_vote-IsOneEach :
    (id account : ℕ) (votes : List Vote) → IsOneEach votes → IsOneEach (add_vote id account votes)
unfolding add_vote
add_vote-IsOneEach id account votes h = elim (Bool-cases (has_vote id account votes)) [
  | inl e ↦ rw e h
  | inr e ↦ rw e (append-IsOneEach (record { on_ = id; voter = account }) votes h e)
]

pub has_vote-remove_vote :
    (id account j viewer : ℕ) (votes : List Vote)
    → has_vote j viewer (remove_vote id account votes)
      ≡ (has_vote j viewer votes && not (j == id && viewer == account))
unfolding remove_vote has_vote
has_vote-remove_vote id account j viewer [] = refl
has_vote-remove_vote id account j viewer (v ∷ votes) =
    ground (arith, has_vote-remove_vote id account j viewer votes)

pub remove_vote-IsOneEach :
    (id account : ℕ) (votes : List Vote)
    → IsOneEach votes
    → IsOneEach (remove_vote id account votes)
unfolding remove_vote
remove_vote-IsOneEach id account [] h = tt
remove_vote-IsOneEach id account (v ∷ votes) h = ground (
  arith,
  remove_vote-IsOneEach id account votes h.1,
  has_vote-remove_vote id account v.on_ v.voter votes,
)

pub remove_vote-eq_self :
    (id account : ℕ) (votes : List Vote)
    → has_vote id account votes ≡ false
    → remove_vote id account votes ≡ votes
unfolding remove_vote has_vote
remove_vote-eq_self id account [] e = refl
remove_vote-eq_self id account (v ∷ votes) e = ground (arith, remove_vote-eq_self id account votes)

pub count_by-remove_vote :
    (id account j : ℕ) (votes : List Vote)
    → IsOneEach votes
    → count_by (is_on j) (remove_vote id account votes)
        + (if j == id && has_vote id account votes then 1 else 0)
      ≡ count_by (is_on j) votes
unfolding remove_vote count_by has_vote
count_by-remove_vote id account j [] h = ground arith
count_by-remove_vote id account j (v ∷ votes) h =
    ground (
      arith,
      count_by-remove_vote id account j votes h.1,
      remove_vote-eq_self id account votes,
      h.0,
    )
