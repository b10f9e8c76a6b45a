-- ===== src/GameFintech/Counting.antt =====
-- Counting the cells of a grid that pass a test.
use psycho_space.Prelude.{
  ℕ, zero, suc, ◌+◌, ◌≤◌, ◌<◌, ◌≡◌, refl, Bool, true, false, ◌==◌, arith, inl, inr, Bool-cases,
}
use psycho_space.GameFintech.Grid.{mark, count_to}

mark-count_over : (p : ℕ → Bool) (n k : ℕ) → k ≤ n → count_to (mark n p) k ≡ count_to p k
unfolding count_to
mark-count_over p n zero h = refl
mark-count_over p n (suc k) h = ground (arith, h, mark-count_over p n k)

-- Marking an unmarked cell adds one.
pub count_to-mark :
    (p : ℕ → Bool) (n k : ℕ) → n < k → p n ≡ false → count_to (mark n p) k ≡ count_to p k + 1
unfolding count_to
count_to-mark p n zero h e = ground (arith, h)
count_to-mark p n (suc k) h e = elim (Bool-cases (k == n)) [
  | inl here ↦
      let same : k ≡ n = ground (arith, here) in ground (arith, h, e, same, mark-count_over p n k)
  | inr there ↦ ground (arith, h, e, there, count_to-mark p n k)
]

-- A smaller set has at most as many cells.
pub count_to_mono :
    (p q : ℕ → Bool) (k : ℕ) → ((n : ℕ) → p n ≡ true → q n ≡ true) → count_to p k ≤ count_to q k
unfolding count_to
count_to_mono p q zero h = ground arith
count_to_mono p q (suc k) h = ground (arith, h k, count_to_mono p q k h)

-- A subset with as many cells is the whole set.
pub count_to_full :
    (p q : ℕ → Bool) (k n : ℕ)
    → ((m : ℕ) → p m ≡ true → q m ≡ true)
    → count_to p k ≡ count_to q k
    → n < k
    → q n ≡ true
    → p n ≡ true
unfolding count_to
count_to_full p q zero n h e b t = ground (arith, b)
count_to_full p q (suc k) n h e b t = elim (Bool-cases (n == k)) [
  | inl here ↦
      let same : n ≡ k = ground (arith, here) in
      ground (arith, same, e, t, h k, count_to_mono p q k h)
  | inr there ↦ ground (arith, there, e, t, b, h k, count_to_mono p q k h, count_to_full p q k n h)
]

-- Sets that agree below a bound have as many cells there.
pub count_to-cong :
    (p q : ℕ → Bool) (k : ℕ) → ((n : ℕ) → n < k → p n ≡ q n) → count_to p k ≡ count_to q k
unfolding count_to
count_to-cong p q zero h = refl
count_to-cong p q (suc k) h =
    ground (arith, h k, count_to-cong p q k (λ n b. h n (ground (arith, b))))

pub count_to_bound : (p : ℕ → Bool) (k : ℕ) → count_to p k ≤ k
unfolding count_to
count_to_bound p zero = ground arith
count_to_bound p (suc k) = ground (arith, count_to_bound p k)

count_to_none : (k : ℕ) → count_to (λ _. false) k ≡ 0
unfolding count_to
count_to_none zero = refl
count_to_none (suc k) = ground (arith, count_to_none k)

pub count_to_one : (n k : ℕ) → n < k → count_to (λ m. m == n) k ≡ 1
count_to_one n k h = ground (
  arith,
  count_to_none k,
  count_to-mark (λ _. false) n k h refl,
  count_to-cong (λ m. m == n) (mark n (λ _. false)) k (λ m b. ground arith),
)
