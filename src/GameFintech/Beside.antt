-- ===== src/GameFintech/Beside.antt =====
-- Being neighbours on the grid goes both ways.
use psycho_space.Prelude.{
  ℕ, ◌+◌, ◌*◌, ◌-◌, ◌/◌, ◌%◌, ◌<◌, ◌≡◌, ◌≢◌, refl, sym, ◌∙◌, Bool, true, false, ◌&&◌, ◌||◌, List,
  [], ◌∷◌, Option, none, some, if◌then◌else◌, ◌==◌, arith, inl, inr, Bool-cases, ltb,
}
use psycho_space.GameFintech.Grid.{nav_cells, nav_cols, nav_rows, around, cell_at}
use psycho_space.GameFintech.Flood.{has}

-- Where a cell stands: by row and column.
cell_coords :
    (n c r : ℕ) → has n (cell_at c r ∷ []) ≡ true → (n % nav_cols ≡ c) × (n / nav_cols ≡ r)
unfolding has cell_at
cell_coords n c r h = elim (Bool-cases (ltb c nav_cols && ltb r nav_rows)) [
  | inl inside ↦
      let same : n ≡ r * 32 + c = ground (arith, h, inside) in
      let narrow : c < 32 = ground (arith, inside) in
      (omega (arith, same, narrow), omega (arith, same, narrow))
  | inr outside ↦ absurd (ground (arith, h, outside))
]

coords-cell :
    (m c r : ℕ)
    → m < nav_cells
    → m % nav_cols ≡ c
    → m / nav_cols ≡ r
    → has m (cell_at c r ∷ []) ≡ true
unfolding has cell_at
coords-cell m c r b e e' =
    let narrow : c < 32 = omega (arith, e) in
    let low : r < 44 = omega (arith, e', b) in
    let same : m ≡ r * 32 + c = omega (arith, e, e') in ground (arith, narrow, low, same)

has-split :
    (n : ℕ) (o : Option ℕ) (os : List (Option ℕ)) → has n (o ∷ os) ≡ (has n (o ∷ []) || has n os)
unfolding has
has-split n none os = refl
has-split n (some k) os = ground arith

-- The four neighbours by name.
abbrev east : ℕ → Option ℕ
east m = cell_at (m % nav_cols + 1) (m / nav_cols)

abbrev west : ℕ → Option ℕ
west m = if m % nav_cols == 0 then none else cell_at (m % nav_cols - 1) (m / nav_cols)

abbrev south : ℕ → Option ℕ
south m = cell_at (m % nav_cols) (m / nav_cols + 1)

abbrev north : ℕ → Option ℕ
north m = if m / nav_cols == 0 then none else cell_at (m % nav_cols) (m / nav_cols - 1)

has-around :
    (n m : ℕ)
    → has n (around m) ≡ (
        has n (east m ∷ [])
        || (has n (west m ∷ []) || (has n (south m ∷ []) || has n (north m ∷ []))))
unfolding around
has-around n m = ground (
  arith,
  has-split n (east m) (west m ∷ south m ∷ north m ∷ []),
  has-split n (west m) (south m ∷ north m ∷ []),
  has-split n (south m) (north m ∷ []),
)

west-east : (m n : ℕ) → m < nav_cells → has n (east m ∷ []) ≡ true → has m (west n ∷ []) ≡ true
west-east m n b h =
    let (c, r) = cell_coords n (m % nav_cols + 1) (m / nav_cols) h in
    ground (
      arith,
      c,
      r,
      coords-cell m (n % nav_cols - 1) (n / nav_cols) b (omega (arith, c)) (omega (arith, r)),
    )

north-south : (m n : ℕ) → m < nav_cells → has n (south m ∷ []) ≡ true → has m (north n ∷ []) ≡ true
north-south m n b h =
    let (c, r) = cell_coords n (m % nav_cols) (m / nav_cols + 1) h in
    ground (
      arith,
      c,
      r,
      coords-cell m (n % nav_cols) (n / nav_cols - 1) b (omega (arith, c)) (omega (arith, r)),
    )

east-west : (m n : ℕ) → m < nav_cells → has n (west m ∷ []) ≡ true → has m (east n ∷ []) ≡ true
unfolding has
east-west m n b h = elim (Bool-cases (m % nav_cols == 0)) [
  | inl edge ↦ absurd (ground (arith, h, edge))
  | inr inner ↦
      let far : m % nav_cols ≢ 0 = ground (arith, inner) in
      let (c, r) = cell_coords n (m % nav_cols - 1) (m / nav_cols) (ground (arith, h, inner)) in
      coords-cell m (n % nav_cols + 1) (n / nav_cols) b (omega (arith, c, far)) (omega (arith, r))
]

south-north : (m n : ℕ) → m < nav_cells → has n (north m ∷ []) ≡ true → has m (south n ∷ []) ≡ true
unfolding has
south-north m n b h = elim (Bool-cases (m / nav_cols == 0)) [
  | inl edge ↦ absurd (ground (arith, h, edge))
  | inr inner ↦
      let far : m / nav_cols ≢ 0 = ground (arith, inner) in
      let (c, r) = cell_coords n (m % nav_cols) (m / nav_cols - 1) (ground (arith, h, inner)) in
      coords-cell m (n % nav_cols) (n / nav_cols + 1) b (omega (arith, c)) (omega (arith, r, far))
]

four_ways :
    {x y z : Bool} (u : Bool)
    → (x || (y || (z || u))) ≡ true
    → x ≡ false
    → y ≡ false
    → z ≡ false
    → u ≡ true
four_ways u h a b c = ground (arith, h, a, b, c)

-- Being neighbours goes both ways.
pub around_sym : (m n : ℕ) → m < nav_cells → has n (around m) ≡ true → has m (around n) ≡ true
around_sym m n b h = elim (Bool-cases (has n (east m ∷ []))) [
  | inl e ↦ ground (arith, has-around m n, west-east m n b e)
  | inr ne ↦ elim (Bool-cases (has n (west m ∷ []))) [
    | inl w ↦ ground (arith, has-around m n, east-west m n b w)
    | inr nw ↦ elim (Bool-cases (has n (south m ∷ []))) [
      | inl s ↦ ground (arith, has-around m n, north-south m n b s)
      | inr ns ↦
          let up : has n (north m ∷ []) ≡ true =
            four_ways (has n (north m ∷ [])) (sym (has-around n m) ∙ h) ne nw ns in
          ground (arith, has-around m n, south-north m n b up)
    ]
  ]
]
