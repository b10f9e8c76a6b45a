-- ===== src/GameVanyagotchi/Events/Storage.antt =====
-- internal/gamevanyagotchi/event.go, service.go: the rows of a snapshot, written and read back.
use psycho_space.Prelude.{
  ℕ, ◌≡◌, refl, sym, subst, ap, ◌∙◌, ◌⊎◌, inl, inr, Bool, true, false, ◌||◌, List, [], ◌∷◌, ◌++◌,
  none, some, if◌then◌else◌, arith, Every, Every-imp, Bool-cases, Option-cases, ◌==◌, ==_refl,
}
use psycho_space.Prelude.Dict.{Dict, get, put, get-put, IsMap}
use psycho_space.GameVanyagotchi.Numbers.{Floats}
use psycho_space.GameVanyagotchi.Catalogue.{
  Stat, StatRow, Catalogue, Snapshot, stat_in, stat_by_key,
}
use psycho_space.GameVanyagotchi.Events.{is_known, defined_rows, other_rows, rows_at}

module _ (F : Floats) where
  -- `statsByKey`, over the rows that the table gives back.
  unfoldable pub by_key_from : Dict (StatRow F) → List (StatRow F) → Dict (StatRow F)
  by_key_from m [] = m
  by_key_from m (r ∷ rs) = by_key_from (put r.key r m) rs

  unfoldable pub stats_by_key : List (StatRow F) → Dict (StatRow F)
  unfolding by_key_from
  stats_by_key rows = by_key_from [] rows

  -- Every row stands under its own key.
  abbrev pub KeysAgree : Dict (StatRow F) → Type 0
  KeysAgree [] = Unit {0}
  KeysAgree ((k, row) ∷ m) = (row.key ≡ k) × KeysAgree m

  get-KeysAgree :
      (k : ℕ) (m : Dict (StatRow F)) (row : StatRow F)
      → KeysAgree m
      → get k m ≡ some row
      → row.key ≡ k
  unfolding get
  get-KeysAgree k [] row h e = ground (arith, e)
  get-KeysAgree k ((j, r) ∷ m) row h e = elim (Bool-cases (j == k)) [
    | inl b ↦
        let same : r ≡ row = ground (arith, e, b) in
        let on : r.key ≡ k = ground (arith, h.0, b) in subst (λ (x : StatRow F). x.key ≡ k) same on
    | inr b ↦ get-KeysAgree k m row h.1 (ground (arith, e, b))
  ]

  unfoldable pub has_key : ℕ → List (StatRow F) → Bool
  has_key k [] = false
  has_key k (r ∷ rs) = r.key == k || has_key k rs

  -- The rows are those of a map: a row with the key is the one that the map has.
  abbrev Of : ℕ → Dict (StatRow F) → StatRow F → Type 0
  Of k m r = ((r.key == k) ≡ false) ⊎ (get k m ≡ some r)

  get-by_key_from :
      (k : ℕ) (m acc : Dict (StatRow F)) (rs : List (StatRow F))
      → Every (Of k m) rs
      → get k (by_key_from acc rs) ≡ (if has_key k rs then get k m else get k acc)
  unfolding by_key_from has_key
  get-by_key_from k m acc [] h = refl
  get-by_key_from k m acc (r ∷ rs) h =
      ground (arith, h.0, get-put r.key k r acc, get-by_key_from k m (put r.key r acc) rs h.1)

  Every-append :
      (P : StatRow F → Type 0) (xs ys : List (StatRow F))
      → Every P xs
      → Every P ys
      → Every P (xs ++ ys)
  Every-append P [] ys h g = g
  Every-append P (x ∷ xs) ys h g = (h.0, Every-append P xs ys h.1 g)

  has_key-append :
      (k : ℕ) (xs ys : List (StatRow F)) → has_key k (xs ++ ys) ≡ (has_key k xs || has_key k ys)
  unfolding has_key
  has_key-append k [] ys = refl
  has_key-append k (x ∷ xs) ys = ground (arith, has_key-append k xs ys)

  defined_rows-how :
      (def : Stat F) (defs : List (Stat F)) (m : Dict (StatRow F))
      → ((get def.key m ≡ none) × (defined_rows F (def ∷ defs) m ≡ defined_rows F defs m))
        ⊎ ((row : StatRow F) × (get def.key m ≡ some row)
            × (defined_rows F (def ∷ defs) m ≡ row ∷ defined_rows F defs m))
  unfolding defined_rows
  defined_rows-how def defs m = elim (Option-cases (get def.key m)) [
    | inl e ↦ inl (e, rw (e, defined_rows) refl)
    | inr (row, e) ↦ inr (row, e, rw (e, defined_rows) refl)
  ]

  row-Of :
      (k j : ℕ) (m : Dict (StatRow F)) (row : StatRow F)
      → KeysAgree m
      → get j m ≡ some row
      → Of k m row
  row-Of k j m row h e =
      let own : row.key ≡ j = get-KeysAgree j m row h e in
      elim (Bool-cases (row.key == k)) [
        | inr b ↦ inl b
        | inl b ↦
            let on : j ≡ k = ground (arith, own, b) in inr (subst (λ i. get i m ≡ some row) on e)
      ]

  defined_rows-Of :
      (k : ℕ) (m : Dict (StatRow F)) (defs : List (Stat F))
      → KeysAgree m
      → Every (Of k m) (defined_rows F defs m)
  unfolding defined_rows
  defined_rows-Of k m [] h = tt
  defined_rows-Of k m (def ∷ defs) h = elim (defined_rows-how def defs m) [
    | inl (e, is) ↦ subst (Every (Of k m)) (sym is) (defined_rows-Of k m defs h)
    | inr (row, e, is) ↦
        subst (Every (Of k m)) (sym is) (row-Of k def.key m row h e, defined_rows-Of k m defs h)
  ]

  defined_rows-has_key :
      (k : ℕ) (m : Dict (StatRow F)) (defs : List (Stat F))
      → KeysAgree m
      → is_known (stat_in F defs k) ≡ true
      → is_known (get k m) ≡ true
      → has_key k (defined_rows F defs m) ≡ true
  unfolding has_key stat_in
  defined_rows-has_key k m [] h d g = ground (arith, d)
  defined_rows-has_key k m (def ∷ defs) h d g = elim (defined_rows-how def defs m) [
    | inl (e, is) ↦
        let other : (def.key == k) ≡ false = elim (Bool-cases (def.key == k)) [
          | inr b ↦ b
          | inl b ↦
              let on : def.key ≡ k = ground (arith, b) in
              let gone : get k m ≡ none = subst (λ i. get i m ≡ none) on e in
              ground (arith, g, gone)
        ] in
        ap (has_key k) is ∙ defined_rows-has_key k m defs h (ground (arith, d, other)) g
    | inr (row, e, is) ↦
        let own : row.key ≡ def.key = get-KeysAgree def.key m row h e in
        ap (has_key k) is ∙ elim (Bool-cases (def.key == k)) [
          | inl b ↦ ground (arith, own, b)
          | inr b ↦
              let rest : has_key k (defined_rows F defs m) ≡ true =
                defined_rows-has_key k m defs h (ground (arith, d, b)) g in
              ground (arith, rest)
        ]
  ]

  Of-step :
      (k j : ℕ) (row : StatRow F) (m : Dict (StatRow F)) (r : StatRow F)
      → get j m ≡ none
      → Of k m r
      → Of k ((j, row) ∷ m) r
  unfolding get
  Of-step k j row m r h (inl b) = inl b
  Of-step k j row m r h (inr b) = elim (Bool-cases (j == k)) [
    | inr e ↦ inr (ground (arith, e, b))
    | inl e ↦
        let on : j ≡ k = ground (arith, e) in
        let gone : get k m ≡ none = subst (λ i. get i m ≡ none) on h in ground (arith, b, gone)
  ]

  module _ (c : Catalogue F) where
    other_rows-Of :
        (k : ℕ) (m : Dict (StatRow F)) → KeysAgree m → IsMap m → Every (Of k m) (other_rows F c m)
    unfolding other_rows get
    other_rows-Of k [] h g = tt
    other_rows-Of k ((j, row) ∷ m) h g =
        let rest : Every (Of k ((j, row) ∷ m)) (other_rows F c m) =
          Every-imp (Of k m) (Of k ((j, row) ∷ m)) (other_rows F c m)
            (λ r x. Of-step k j row m r g.0 x) (other_rows-Of k m h.1 g.1) in
        elim (Bool-cases (is_known (stat_by_key F c j))) [
          | inl e ↦ rw (e, other_rows) rest
          | inr e ↦
              rw (e, other_rows) (row-Of k j ((j, row) ∷ m) row h (ground (arith, ==_refl j)), rest)
        ]

    other_rows-has_key :
        (k : ℕ) (m : Dict (StatRow F))
        → KeysAgree m
        → is_known (stat_by_key F c k) ≡ false
        → is_known (get k m) ≡ true
        → has_key k (other_rows F c m) ≡ true
    unfolding other_rows get has_key
    other_rows-has_key k [] h d g = ground (arith, g)
    other_rows-has_key k ((j, row) ∷ m) h d g = elim (Bool-cases (j == k)) [
      | inl b ↦
          let on : j ≡ k = ground (arith, b) in
          let free : is_known (stat_by_key F c j) ≡ false =
            subst (λ i. is_known (stat_by_key F c i) ≡ false) (sym on) d in
          ground (arith, free, h.0, on)
      | inr b ↦
          let rest : has_key k (other_rows F c m) ≡ true =
            other_rows-has_key k m h.1 d (ground (arith, g, b)) in
          ground (arith, rest)
    ]

    -- The rows of a snapshot, in the order in which they are written, are read back as the same map:
    -- every row stands under its own key, once.
    pub stats_by_key-rows_at :
        (s : Snapshot F) (k : ℕ)
        → KeysAgree s.rows
        → IsMap s.rows
        → get k (stats_by_key (rows_at F c s)) ≡ get k s.rows
    unfolding stats_by_key rows_at get
    stats_by_key-rows_at s k h g =
        let xs : List (StatRow F) = defined_rows F c.stats s.rows in
        let ys : List (StatRow F) = other_rows F c s.rows in
        let read = get-by_key_from k s.rows [] (xs ++ ys) (
          Every-append (Of k s.rows) xs ys (defined_rows-Of k s.rows c.stats h)
            (other_rows-Of k s.rows h g)) in
        elim (Option-cases (get k s.rows)) [
          | inl e ↦ ground (arith, read, e)
          | inr (row, e) ↦
              let there : is_known (get k s.rows) ≡ true = ap is_known e in
              elim (Bool-cases (is_known (stat_by_key F c k))) [
                | inl b ↦ ground (
                  arith,
                  read,
                  has_key-append k xs ys,
                  defined_rows-has_key k s.rows c.stats h b there,
                )
                | inr b ↦
                    ground
                      (arith, read, has_key-append k xs ys, other_rows-has_key k s.rows h b there)
              ]
        ]
