-- ===== src/GameVanyagotchi/Numbers.antt =====
-- float64 and time.Time as the pet's rules use them: an interface, with the law of order that the
-- comparison of finite numbers obeys.
use psycho_space.Prelude.{
  ℕ, ◌-◌, ◌+◌, ◌*◌, ◌/◌, ◌≡◌, Bool, true, false, Option, some, ltb, leb, arith,
}

pub record Floats : Type 1 where
  pub Num : Type 0
  pub Instant : Type 0
  pub nought : Num
  pub add : Num → Num → Num
  pub sub : Num → Num → Num
  pub mul : Num → Num → Num
  pub div : Num → Num → Num
  pub leq : Num → Num → Bool
  pub lt : Num → Num → Bool
  pub is_finite : Num → Bool
  pub before : Instant → Instant → Bool
  pub hours_between : Instant → Instant → Num
  pub add_hours : Instant → Num → Option Instant

-- Two finite numbers are comparable, and a finite number is at most itself.
pub record Order (F : Floats) : Type 0 where
  pub leq_refl : (a : F.Num) → F.is_finite a ≡ true → F.leq a a ≡ true
  pub leq_total :
      (a b : F.Num)
      → F.is_finite a ≡ true
      → F.is_finite b ≡ true
      → F.leq a b ≡ false
      → F.leq b a ≡ true

-- Whole numbers and instants that are counted in hours.
abbrev pub whole : Floats
whole = record {
  Num = ℕ;
  Instant = ℕ;
  nought = 0;
  add = λ a b. a + b;
  sub = λ a b. a - b;
  mul = λ a b. a * b;
  div = λ a b. a / b;
  leq = leb;
  lt = ltb;
  is_finite = λ a. true;
  before = ltb;
  hours_between = λ a b. b - a;
  add_hours = λ t h. some (t + h);
}

pub whole-Order : Order whole
whole-Order = record { leq_refl = λ a h. ground arith; leq_total = λ a b h g e. ground (arith, e) }
