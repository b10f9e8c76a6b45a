-- ===== src/Wishlist/References.antt =====
-- What holds of the four tables after any history of requests.
use psycho_space.Prelude.{Text, ℕ, ◌≡◌, refl, Bool, true, List, [], ◌∷◌, ◌++◌, ◌==◌, arith}
use psycho_space.Wishlist.Defs.{
  Vote, Tables, ItemRow, CommentRow, is_live_item, is_live_comment, first, change_where,
  item_exists, comment_exists, is_there, add_vote, remove_vote,
}
use psycho_space.Wishlist.Service.{
  create_item, add_comment, vote, unvote, vote_comment, unvote_comment, delete_item, delete_comment,
}
use psycho_space.Wishlist.Votes.{IsOneEach}

-- The requests that change the tables; ids and times are the database's.
pub data Change : Type 0 where
  creates : ℕ → Text → Text → ℕ → ℕ → Change
  comments_on : ℕ → ℕ → Text → ℕ → ℕ → Change
  votes_for unvotes votes_for_comment unvotes_comment : ℕ → ℕ → Change
  deletes deletes_comment : ℕ → ℕ → Bool → ℕ → Change

module _ (trim : Text → Text) where
  unfoldable pub apply : Change → Tables → Tables
  apply (creates author title body id now) t = (create_item trim author title body id now t).0
  apply (comments_on item author body id now) t = (add_comment trim item author body id now t).0
  apply (votes_for item account) t = (vote item account t).0
  apply (unvotes item account) t = unvote item account t
  apply (votes_for_comment comment account) t = (vote_comment comment account t).0
  apply (unvotes_comment comment account) t = unvote_comment comment account t
  apply (deletes item actor is_admin now) t = (delete_item item actor is_admin now t).0
  apply (deletes_comment comment actor is_admin now) t =
      (delete_comment comment actor is_admin now t).0

  unfoldable pub history : List Change → Tables → Tables
  history [] t = t
  history (c ∷ cs) t = history cs (apply c t)

abbrev pub no_rows : Tables
no_rows = record { items = []; comments = []; votes = []; comment_votes = [] }

abbrev pub has_item : ℕ → List ItemRow → Bool
has_item id items = is_there (first (λ r. r.id == id) items)

abbrev pub has_comment : ℕ → List CommentRow → Bool
has_comment id comments = is_there (first (λ r. r.id == id) comments)

abbrev pub AllPass {ℓ} : {A : Type ℓ} → (A → Bool) → List A → Type 0
AllPass test [] = Unit {0}
AllPass test (x ∷ xs) = (test x ≡ true) × AllPass test xs

-- One vote per account and thing, and no vote or comment on a thing that never was.
abbrev pub Sound : Tables → Type 0
Sound t =
    IsOneEach t.votes
    × IsOneEach t.comment_votes
    × AllPass (λ v. has_item v.on_ t.items) t.votes
    × AllPass (λ v. has_comment v.on_ t.comments) t.comment_votes
    × AllPass (λ c. has_item c.item_id t.items) t.comments

pub is_there-append {ℓ} :
    {A : Type ℓ} (test : A → Bool) (rows more : List A)
    → is_there (first test rows) ≡ true
    → is_there (first test (rows ++ more)) ≡ true
unfolding first
is_there-append test [] more e = cc
is_there-append test (r ∷ rows) more e = ground (arith, e, is_there-append test rows more)

pub is_there-change_where {ℓ} :
    {A : Type ℓ} (query test : A → Bool) (change : A → A) (rows : List A)
    → ((r : A) → query (change r) ≡ query r)
    → is_there (first query (change_where test change rows)) ≡ is_there (first query rows)
unfolding first change_where
is_there-change_where query test change [] h = refl
is_there-change_where query test change (r ∷ rows) h =
    ground (arith, h r, is_there-change_where query test change rows h)

is_there_wider {ℓ} :
    {A : Type ℓ} (p q : A → Bool) (rows : List A)
    → ((r : A) → p r ≡ true → q r ≡ true)
    → is_there (first p rows) ≡ true
    → is_there (first q rows) ≡ true
unfolding first
is_there_wider p q [] h e = cc
is_there_wider p q (r ∷ rows) h e = ground (arith, e, h r, is_there_wider p q rows h)

AllPass-mono {ℓ} :
    {A : Type ℓ} (p q : A → Bool) (xs : List A)
    → ((x : A) → p x ≡ true → q x ≡ true)
    → AllPass p xs
    → AllPass q xs
AllPass-mono p q [] g h = tt
AllPass-mono p q (x ∷ xs) g h = (g x h.0, AllPass-mono p q xs g h.1)

pub AllPass-append {ℓ} :
    {A : Type ℓ} (p : A → Bool) (xs : List A) (x : A)
    → AllPass p xs
    → p x ≡ true
    → AllPass p (xs ++ x ∷ [])
AllPass-append p [] x h e = (e, tt)
AllPass-append p (y ∷ xs) x h e = (h.0, AllPass-append p xs x h.1 e)

pub AllPass-change_where {ℓ} :
    {A : Type ℓ} (p test : A → Bool) (change : A → A) (xs : List A)
    → ((x : A) → p (change x) ≡ p x)
    → AllPass p xs
    → AllPass p (change_where test change xs)
unfolding change_where
AllPass-change_where p test change [] g h = tt
AllPass-change_where p test change (x ∷ xs) g h =
    ground (arith, g x, h.0, AllPass-change_where p test change xs g h.1)

pub AllPass-remove_vote :
    (p : Vote → Bool) (id account : ℕ) (votes : List Vote)
    → AllPass p votes
    → AllPass p (remove_vote id account votes)
unfolding remove_vote
AllPass-remove_vote p id account [] h = tt
AllPass-remove_vote p id account (v ∷ votes) h =
    ground (arith, h.0, AllPass-remove_vote p id account votes h.1)

pub AllPass-add_vote :
    (p : Vote → Bool) (id account : ℕ) (votes : List Vote)
    → AllPass p votes
    → p (record { on_ = id; voter = account }) ≡ true
    → AllPass p (add_vote id account votes)
unfolding add_vote
AllPass-add_vote p id account votes h e =
    ground (arith, h, AllPass-append p votes (record { on_ = id; voter = account }) h e)

pub item_exists-has_item :
    (id : ℕ) (t : Tables) → item_exists id t ≡ true → has_item id t.items ≡ true
unfolding item_exists
item_exists-has_item id t e =
    is_there_wider (is_live_item id) (λ r. r.id == id) t.items (λ r h. ground (arith, h)) e

pub comment_exists-has_comment :
    (id : ℕ) (t : Tables) → comment_exists id t ≡ true → has_comment id t.comments ≡ true
unfolding comment_exists
comment_exists-has_comment id t e =
    is_there_wider (is_live_comment id) (λ r. r.id == id) t.comments (λ r h. ground (arith, h)) e

-- A table that still has every item keeps the tables sound.
pub items_grow :
    (t : Tables) (items : List ItemRow)
    → ((id : ℕ) → has_item id t.items ≡ true → has_item id items ≡ true)
    → Sound t
    → Sound (record t { items = items })
items_grow t items g (one, each, votes, comment_votes, comments) = (
  one,
  each,
  AllPass-mono (λ v. has_item v.on_ t.items) (λ v. has_item v.on_ items) t.votes (λ v. g v.on_)
      votes,
  comment_votes,
  AllPass-mono (λ c. has_item c.item_id t.items) (λ c. has_item c.item_id items) t.comments
      (λ c. g c.item_id) comments,
)

pub comments_grow :
    (t : Tables) (comments : List CommentRow)
    → ((id : ℕ) → has_comment id t.comments ≡ true → has_comment id comments ≡ true)
    → AllPass (λ c. has_item c.item_id t.items) comments
    → Sound t
    → Sound (record t { comments = comments })
comments_grow t comments g on_items (one, each, votes, comment_votes, old) = (
  one,
  each,
  votes,
  AllPass-mono (λ v. has_comment v.on_ t.comments) (λ v. has_comment v.on_ comments) t.comment_votes
      (λ v. g v.on_) comment_votes,
  on_items,
)
