-- ===== src/GameFintech/Flood.antt =====
-- One round of the flood fill: what it sees can be walked to, and it leaves no neighbour out.
use psycho_space.Prelude.{
  ℕ, ◌+◌, ◌≤◌, ◌<◌, ◌≡◌, refl, ◌⊎◌, Bool, true, false, ◌||◌, not, List, [], ◌∷◌, ◌++◌, Option, none,
  some, ◌==◌, arith, inl, inr, Bool-cases, length, length-append, contains,
}
use psycho_space.GameFintech.Grid.{nav_cells, cell_at, around, Fill, mark, count_to, look, look_all}
use psycho_space.GameFintech.Counting.{count_to-mark}

-- A cell stands among the neighbours.
unfoldable pub has : ℕ → List (Option ℕ) → Bool
has n [] = false
has n (none ∷ os) = has n os
has n (some k ∷ os) = n == k || has n os

cell_at_bound : (c r n : ℕ) → cell_at c r ≡ some n → n < nav_cells
unfolding cell_at
cell_at_bound c r n e = ground (arith, e)

has-cell : (n c r : ℕ) → has n (cell_at c r ∷ []) ≡ true → n < nav_cells
unfolding has cell_at
has-cell n c r h = ground (arith, h)

pub around_bound : (cell n : ℕ) → has n (around cell) ≡ true → n < nav_cells
unfolding around has cell_at
around_bound cell n h = ground (arith, h)

pub contains-append :
    (n : ℕ) (xs ys : List ℕ) → contains n (xs ++ ys) ≡ (contains n xs || contains n ys)
unfolding contains
contains-append n [] ys = refl
contains-append n (x ∷ xs) ys = ground (arith, contains-append n xs ys)

pub contains_self : (k m : ℕ) → contains m (k ∷ []) ≡ (m == k)
unfolding contains
contains_self k m = ground arith

pub contains_other :
    (i cur : ℕ) (rest : List ℕ)
    → contains i rest ≡ false
    → i == cur ≡ false
    → contains i (cur ∷ rest) ≡ false
unfolding contains
contains_other i cur rest b c = ground (arith, b, c)

pub empty_of : (xs : List ℕ) → length xs ≤ 0 → xs ≡ []
empty_of [] h = refl
empty_of (x ∷ xs) h = absurd (omega (arith, h))

pub List-cases : (xs : List ℕ) → (xs ≡ []) ⊎ ((x : ℕ) × (ys : List ℕ) × (xs ≡ x ∷ ys))
List-cases [] = inl refl
List-cases (x ∷ xs) = inr (x, xs, refl)

module _ (free : ℕ → Bool) (start : ℕ) where
  -- The free cells that a walk over free neighbours gets to from the start.
  pub data Reach : ℕ → Type 0 where
    at_start : Reach start
    onward : (m n : ℕ) → Reach m → has n (around m) ≡ true → free n ≡ true → Reach n

  pub record Ok (s : Fill) : Type 0 where
    pub seen_ok : (n : ℕ) → s.seen n ≡ true → (free n ≡ true) × (n < nav_cells) × Reach n
    pub queued_ok : (n : ℕ) → contains n s.queue ≡ true → s.seen n ≡ true
    pub counted : s.reached ≡ count_to s.seen nav_cells

  -- What is left to do: the neighbours of the cells in the queue, and of one more.
  abbrev Closed : ℕ → Fill → Type 0
  Closed cur s =
      (m n : ℕ)
      → s.seen m ≡ true
      → contains m s.queue ≡ false
      → m == cur ≡ false
      → has n (around m) ≡ true
      → free n ≡ true
      → s.seen n ≡ true

  look_seen : (o : Option ℕ) (s : Fill) (n : ℕ) → s.seen n ≡ true → (look free o s).seen n ≡ true
  unfolding look
  look_seen none s n e = e
  look_seen (some k) s n e = ground (arith, e)

  look-has :
      (o : Option ℕ) (s : Fill) (n : ℕ)
      → has n (o ∷ []) ≡ true
      → free n ≡ true
      → (look free o s).seen n ≡ true
  unfolding look has
  look-has none s n h f = cc
  look-has (some k) s n h f = let same : n ≡ k = ground (arith, h) in ground (arith, f, same)

  look_size :
      (o : Option ℕ) (s : Fill)
      → length (look free o s).queue + s.reached ≡ length s.queue + (look free o s).reached
  unfolding look
  look_size none s = refl
  look_size (some k) s = ground (arith, length-append s.queue (k ∷ []))

  look-Closed : (o : Option ℕ) (s : Fill) (cur : ℕ) → Closed cur s → Closed cur (look free o s)
  unfolding look
  look-Closed none s cur h m n seen_m queued other near f = h m n seen_m queued other near f
  look-Closed (some k) s cur h m n seen_m queued other near f = ground (
    arith,
    seen_m,
    queued,
    other,
    near,
    f,
    h m n,
    contains-append m s.queue (k ∷ []),
    contains_self k m,
  )

  mark-Ok :
      (k : ℕ) (s : Fill) (cur : ℕ)
      → Reach cur
      → has k (around cur) ≡ true
      → free k ≡ true
      → s.seen k ≡ false
      → Ok s
      → Ok (record { seen = mark k s.seen; queue = s.queue ++ k ∷ []; reached = s.reached + 1 })
  mark-Ok k s cur r beside clear new ok = record {
    seen_ok = λ n e. elim (Bool-cases (n == k)) [
      | inl here ↦
          let same : n ≡ k = ground (arith, here) in
          rw same (clear, around_bound cur k beside, onward cur k r beside clear)
      | inr there ↦ ok.seen_ok n (ground (arith, e, there))
    ];
    queued_ok = λ n e.
        ground (arith, e, contains-append n s.queue (k ∷ []), contains_self k n, ok.queued_ok n);
    counted =
        ground
          (arith, ok.counted, count_to-mark s.seen k nav_cells (around_bound cur k beside) new);
  }

  look-Ok :
      (o : Option ℕ) (s : Fill) (cur : ℕ)
      → Reach cur
      → ((n : ℕ) → has n (o ∷ []) ≡ true → has n (around cur) ≡ true)
      → Ok s
      → Ok (look free o s)
  unfolding look has
  look-Ok none s cur r near ok = ok
  look-Ok (some k) s cur r near ok = elim (Bool-cases (s.seen k || not (free k))) [
    | inl skip ↦ rw skip ok
    | inr go_ ↦
        let new : s.seen k ≡ false = ground (arith, go_) in
        let clear : free k ≡ true = ground (arith, go_) in
        let beside : has k (around cur) ≡ true = near k (ground arith) in
        rw go_ (mark-Ok k s cur r beside clear new ok)
  ]

  pub look_all_seen :
      (os : List (Option ℕ)) (s : Fill) (n : ℕ)
      → s.seen n ≡ true
      → (look_all free os s).seen n ≡ true
  unfolding look_all
  look_all_seen [] s n e = e
  look_all_seen (o ∷ os) s n e = look_all_seen os (look free o s) n (look_seen o s n e)

  pub look_all-has :
      (os : List (Option ℕ)) (s : Fill) (n : ℕ)
      → has n os ≡ true
      → free n ≡ true
      → (look_all free os s).seen n ≡ true
  unfolding look_all has
  look_all-has [] s n h f = cc
  look_all-has (none ∷ os) s n h f = look_all-has os (look free none s) n h f
  look_all-has (some k ∷ os) s n h f = elim (Bool-cases (n == k)) [
    | inl here ↦
        look_all_seen os (look free (some k) s) n (look-has (some k) s n (ground (arith, here)) f)
    | inr there ↦ look_all-has os (look free (some k) s) n (ground (arith, h, there)) f
  ]

  pub look_all_size :
      (os : List (Option ℕ)) (s : Fill)
      → length (look_all free os s).queue + s.reached
        ≡ length s.queue + (look_all free os s).reached
  unfolding look_all
  look_all_size [] s = refl
  look_all_size (o ∷ os) s = omega (arith, look_size o s, look_all_size os (look free o s))

  look_all-Closed :
      (os : List (Option ℕ)) (s : Fill) (cur : ℕ) → Closed cur s → Closed cur (look_all free os s)
  unfolding look_all
  look_all-Closed [] s cur h = h
  look_all-Closed (o ∷ os) s cur h = look_all-Closed os (look free o s) cur (look-Closed o s cur h)

  look_all-Ok :
      (os : List (Option ℕ)) (s : Fill) (cur : ℕ)
      → Reach cur
      → ((n : ℕ) → has n os ≡ true → has n (around cur) ≡ true)
      → Ok s
      → Ok (look_all free os s)
  unfolding look_all has
  look_all-Ok [] s cur r near ok = ok
  look_all-Ok (none ∷ os) s cur r near ok =
      look_all-Ok os (look free none s) cur r near (look-Ok none s cur r (λ n h. cc) ok)
  look_all-Ok (some k ∷ os) s cur r near ok =
      look_all-Ok os (look free (some k) s) cur r (λ n h. near n (ground (arith, h)))
        (look-Ok (some k) s cur r (λ n h. near n (ground (arith, h))) ok)

  -- Nothing is left but the neighbours of what is in the queue.
  abbrev pub Settled : Fill → Type 0
  Settled s =
      (m n : ℕ)
      → s.seen m ≡ true
      → contains m s.queue ≡ false
      → has n (around m) ≡ true
      → free n ≡ true
      → s.seen n ≡ true

  pub round-Settled :
      (s : Fill) (cur : ℕ) (rest : List ℕ)
      → s.queue ≡ cur ∷ rest
      → Settled s
      → Settled (look_all free (around cur) (record s { queue = rest }))
  round-Settled s cur rest e h m n seen_m queued near f = elim (Bool-cases (m == cur)) [
    | inl here ↦
        let same : m ≡ cur = ground (arith, here) in
        look_all-has (around cur) (record s { queue = rest }) n (ground (arith, near, same)) f
    | inr there ↦
        look_all-Closed (around cur) (record s { queue = rest }) cur
          (λ i j a b c d g. h i j a (rw e (contains_other i cur rest b c)) d g) m n seen_m queued
          there near f
  ]

  pub round-Ok :
      (s : Fill) (cur : ℕ) (rest : List ℕ)
      → s.queue ≡ cur ∷ rest
      → Ok s
      → Ok (look_all free (around cur) (record s { queue = rest }))
  unfolding contains
  round-Ok s cur rest e ok =
      look_all-Ok (around cur) (record s { queue = rest }) cur
        (ok.seen_ok cur (ok.queued_ok cur (rw e (ground arith)))).2 (λ n h. h)
        (record {
          seen_ok = ok.seen_ok;
          queued_ok = λ n h. ok.queued_ok n (rw e (ground (arith, h)));
          counted = ok.counted;
        })
