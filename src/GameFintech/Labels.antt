-- ===== src/GameFintech/Labels.antt =====
-- One round of the search: every label is the length of a walk, and no neighbour is left out.
use psycho_space.Prelude.{
  ℕ, zero, suc, ◌+◌, ◌<◌, ◌≡◌, refl, subst, Bool, true, false, ◌||◌, not, List, [], ◌∷◌, ◌++◌,
  Option, none, some, ◌==◌, arith, inl, inr, Bool-cases, length, length-append, contains,
}
use psycho_space.GameFintech.Grid.{nav_cells, around, count_to, mark}
use psycho_space.GameFintech.Navigate.{Search, set_label, spread, spread_all}
use psycho_space.GameFintech.Counting.{count_to-mark, count_to-cong}
use psycho_space.GameFintech.Flood.{has, around_bound, contains-append, contains_self}

abbrev pub labelled : Search → ℕ → Bool
labelled s n = not (s.label n == 0)

pub pred-cases : (x : ℕ) → not (x == 0) ≡ true → (d : ℕ) × (x ≡ suc d)
pred-cases zero h = absurd (ground (arith, h))
pred-cases (suc d) h = (d, refl)

set_label_other :
    (k v : ℕ) (label : ℕ → ℕ) (n d : ℕ)
    → label k ≡ 0
    → label n ≡ suc d
    → set_label k v label n ≡ suc d
set_label_other k v label n d z e = elim (Bool-cases (n == k)) [
  | inl here ↦ let same : n ≡ k = ground (arith, here) in ground (arith, z, e, same)
  | inr there ↦ ground (arith, e, there)
]

module _ (free : ℕ → Bool) (start : ℕ) where
  -- A walk of so many steps over free neighbours.
  pub data Walk : ℕ → ℕ → Type 0 where
    no_step : Walk 0 start
    one_more : (d m n : ℕ) → Walk d m → has n (around m) ≡ true → free n ≡ true → Walk (suc d) n

  pub record Good (s : Search) : Type 0 where
    pub walks : (n d : ℕ) → s.label n ≡ suc d → (free n ≡ true) × Walk d n
    pub parent :
        (n d : ℕ)
        → s.label n ≡ suc (suc d)
        → (m : ℕ) × (s.label m ≡ suc d) × (has n (around m) ≡ true)
    pub waits : (n : ℕ) → contains n s.waiting ≡ true → labelled s n ≡ true

  -- Every labelled cell waits, or is the one at hand, or has all its free neighbours labelled.
  abbrev pub Closed : ℕ → Search → Type 0
  Closed cur s =
      (m n : ℕ)
      → labelled s m ≡ true
      → contains m s.waiting ≡ false
      → m == cur ≡ false
      → has n (around m) ≡ true
      → free n ≡ true
      → labelled s n ≡ true

  -- The goal waits from when it is labelled until it is taken.
  abbrev pub Waits : ℕ → Search → Type 0
  Waits goal s = labelled s goal ≡ true → contains goal s.waiting ≡ true

  spread-labelled :
      (cur : ℕ) (o : Option ℕ) (s : Search) (n : ℕ)
      → labelled s n ≡ true
      → labelled (spread free cur o s) n ≡ true
  unfolding spread
  spread-labelled cur none s n e = e
  spread-labelled cur (some k) s n e = ground (arith, e)

  -- A label stays as it is.
  pub spread_keeps :
      (cur : ℕ) (o : Option ℕ) (s : Search) (n d : ℕ)
      → s.label n ≡ suc d
      → (spread free cur o s).label n ≡ suc d
  unfolding spread
  spread_keeps cur none s n d e = e
  spread_keeps cur (some k) s n d e = elim (Bool-cases (n == k)) [
    | inl here ↦ let same : n ≡ k = ground (arith, here) in ground (arith, e, same)
    | inr there ↦ ground (arith, e, there)
  ]

  spread-has :
      (cur : ℕ) (o : Option ℕ) (s : Search) (n : ℕ)
      → has n (o ∷ []) ≡ true
      → free n ≡ true
      → labelled (spread free cur o s) n ≡ true
  unfolding spread has
  spread-has cur none s n h f = cc
  spread-has cur (some k) s n h f = let same : n ≡ k = ground (arith, h) in ground (arith, f, same)

  spread-Closed :
      (cur : ℕ) (o : Option ℕ) (s : Search) → Closed cur s → Closed cur (spread free cur o s)
  unfolding spread
  spread-Closed cur none s h m n a b c d e = h m n a b c d e
  spread-Closed cur (some k) s h m n a b c d e =
      ground (arith, a, b, c, d, e, h m n, contains-append m s.waiting (k ∷ []), contains_self k m)

  spread-Waits :
      (goal cur : ℕ) (o : Option ℕ) (s : Search) → Waits goal s → Waits goal (spread free cur o s)
  unfolding spread
  spread-Waits goal cur none s h e = h e
  spread-Waits goal cur (some k) s h e =
      ground (arith, e, h, contains-append goal s.waiting (k ∷ []), contains_self k goal)

  set_label-Good :
      (cur k : ℕ) (s : Search)
      → labelled s cur ≡ true
      → has k (around cur) ≡ true
      → free k ≡ true
      → s.label k ≡ 0
      → Good s
      → Good (record s {
        label = set_label k (s.label cur + 1) s.label;
        waiting = s.waiting ++ k ∷ [];
      })
  set_label-Good cur k s l beside clear new g =
      let (d0, at) = pred-cases (s.label cur) l in
      record {
        walks = λ n d e. elim (Bool-cases (n == k)) [
          | inl here ↦
              let same : k ≡ n = ground (arith, here) in
              let steps : suc d0 ≡ d = ground (arith, e, here, at) in
              subst (λ x. (free x ≡ true) × Walk d x) same
                (
                  clear,
                  subst (λ x. Walk x k) steps
                      (one_more d0 cur k (g.walks cur d0 at).1 beside clear),
                )
          | inr there ↦ g.walks n d (ground (arith, e, there))
        ];
        parent = λ n d e. elim (Bool-cases (n == k)) [
          | inl here ↦
              let same : k ≡ n = ground (arith, here) in
              let steps : s.label cur ≡ suc d = ground (arith, e, here) in
              (
                cur,
                set_label_other k (s.label cur + 1) s.label cur d new steps,
                subst (λ x. has x (around cur) ≡ true) same beside,
              )
          | inr there ↦
              let (m, lm, near) = g.parent n d (ground (arith, e, there)) in
              (m, set_label_other k (s.label cur + 1) s.label m d new lm, near)
        ];
        waits = λ n e.
            ground (arith, e, contains-append n s.waiting (k ∷ []), contains_self k n, g.waits n);
      }

  spread-Good :
      (cur : ℕ) (o : Option ℕ) (s : Search)
      → labelled s cur ≡ true
      → ((n : ℕ) → has n (o ∷ []) ≡ true → has n (around cur) ≡ true)
      → Good s
      → Good (spread free cur o s)
  unfolding spread has
  spread-Good cur none s l near g = g
  spread-Good cur (some k) s l near g = elim (Bool-cases (not (s.label k == 0) || not (free k))) [
    | inl skip ↦ rw skip g
    | inr go_ ↦ rw go_ (
        set_label-Good cur k s l (near k (ground arith)) (ground (arith, go_)) (ground (arith, go_))
          g)
  ]

  spread_size :
      (cur : ℕ) (o : Option ℕ) (s : Search)
      → labelled s cur ≡ true
      → ((n : ℕ) → has n (o ∷ []) ≡ true → has n (around cur) ≡ true)
      → length (spread free cur o s).waiting + count_to (labelled s) nav_cells
        ≡ length s.waiting + count_to (labelled (spread free cur o s)) nav_cells
  unfolding spread has
  spread_size cur none s l near = refl
  spread_size cur (some k) s l near =
      let bound : k < nav_cells = around_bound cur k (near k (ground arith)) in
      ground (
        arith,
        l,
        length-append s.waiting (k ∷ []),
        count_to-mark (labelled s) k nav_cells bound,
        count_to-cong (λ n. not (set_label k (s.label cur + 1) s.label n == 0))
            (mark k (labelled s)) nav_cells (λ n b. ground arith),
      )

  pub spread_all-labelled :
      (cur : ℕ) (os : List (Option ℕ)) (s : Search) (n : ℕ)
      → labelled s n ≡ true
      → labelled (spread_all free cur os s) n ≡ true
  unfolding spread_all
  spread_all-labelled cur [] s n e = e
  spread_all-labelled cur (o ∷ os) s n e =
      spread_all-labelled cur os (spread free cur o s) n (spread-labelled cur o s n e)

  pub spread_all-has :
      (cur : ℕ) (os : List (Option ℕ)) (s : Search) (n : ℕ)
      → has n os ≡ true
      → free n ≡ true
      → labelled (spread_all free cur os s) n ≡ true
  unfolding spread_all has
  spread_all-has cur [] s n h f = cc
  spread_all-has cur (none ∷ os) s n h f = spread_all-has cur os (spread free cur none s) n h f
  spread_all-has cur (some k ∷ os) s n h f = elim (Bool-cases (n == k)) [
    | inl here ↦
        spread_all-labelled cur os (spread free cur (some k) s) n
          (spread-has cur (some k) s n (ground (arith, here)) f)
    | inr there ↦ spread_all-has cur os (spread free cur (some k) s) n (ground (arith, h, there)) f
  ]

  pub spread_all-Closed :
      (cur : ℕ) (os : List (Option ℕ)) (s : Search)
      → Closed cur s
      → Closed cur (spread_all free cur os s)
  unfolding spread_all
  spread_all-Closed cur [] s h = h
  spread_all-Closed cur (o ∷ os) s h =
      spread_all-Closed cur os (spread free cur o s) (spread-Closed cur o s h)

  pub spread_all-Waits :
      (goal cur : ℕ) (os : List (Option ℕ)) (s : Search)
      → Waits goal s
      → Waits goal (spread_all free cur os s)
  unfolding spread_all
  spread_all-Waits goal cur [] s h = h
  spread_all-Waits goal cur (o ∷ os) s h =
      spread_all-Waits goal cur os (spread free cur o s) (spread-Waits goal cur o s h)

  -- What one pass over neighbours of a labelled cell keeps.
  pub spread_all-Good :
      (cur : ℕ) (os : List (Option ℕ)) (s : Search)
      → labelled s cur ≡ true
      → ((n : ℕ) → has n os ≡ true → has n (around cur) ≡ true)
      → Good s
      → Good (spread_all free cur os s)
        × (length (spread_all free cur os s).waiting + count_to (labelled s) nav_cells
            ≡ length s.waiting + count_to (labelled (spread_all free cur os s)) nav_cells)
  unfolding spread_all has
  spread_all-Good cur [] s l near g = (g, refl)
  spread_all-Good cur (none ∷ os) s l near g =
      let rest =
        spread_all-Good cur os (spread free cur none s) (spread-labelled cur none s cur l) near
          (spread-Good cur none s l (λ n h. cc) g) in
      (rest.0, omega (arith, rest.1, spread_size cur none s l (λ n h. cc)))
  spread_all-Good cur (some k ∷ os) s l near g =
      let here : (n : ℕ) → has n (some k ∷ []) ≡ true → has n (around cur) ≡ true =
        λ n h. near n (ground (arith, h)) in
      let rest =
        spread_all-Good cur os (spread free cur (some k) s) (spread-labelled cur (some k) s cur l)
          (λ n h. near n (ground (arith, h))) (spread-Good cur (some k) s l here g) in
      (rest.0, omega (arith, rest.1, spread_size cur (some k) s l here))
