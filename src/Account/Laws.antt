-- ===== src/Account/Laws.antt =====
-- Laws of the accounts table: what a statement does to what another one reads, and that the two
-- unique keys of the table stay unique.
use psycho_space.Prelude.{
  ℕ, ◌≡◌, refl, ◌≢◌, inl, inr, Bool, true, false, List, [], ◌∷◌, ◌++◌, Option, none, some, arith,
  if◌then◌else◌, ◌==◌, Option-cases,
}
use psycho_space.Account.Rows.{
  Provider, vk, yandex, Row, UpsertParams, provider_eq, select, update, has_identity, inserted,
  refreshed, upsert,
}

-- What an update does to the row that a query finds.
abbrev pub changed : (Row → Bool) → (Row → Row) → Option Row → Option Row
changed test change none = none
changed test change (some r) = some (if test r then change r else r)

pub select-update :
    (query test : Row → Bool) (change : Row → Row) (rows : List Row)
    → ((r : Row) → query (change r) ≡ query r)
    → select query (update test change rows) ≡ changed test change (select query rows)
unfolding select update
select-update query test change [] h = refl
select-update query test change (r ∷ rows) h =
    ground (arith, h r, select-update query test change rows h)

-- A row that a query finds passes it.
pub select_passes :
    (query : Row → Bool) (rows : List Row) (r : Row) → select query rows ≡ some r → query r ≡ true
unfolding select
select_passes query [] r e = cc
select_passes query (x ∷ rows) r e = ground (arith, select_passes query rows r)

-- A query finds something where a row that another query finds passes it.
pub select_found :
    (query test : Row → Bool) (rows : List Row) (r : Row)
    → select query rows ≡ some r
    → test r ≡ true
    → select test rows ≢ none
unfolding select
select_found query test [] r e h = cc
select_found query test (x ∷ rows) r e h = ground (arith, select_found query test rows r)

-- An update that affects no row leaves the table as it is.
pub update-eq_self :
    (test : Row → Bool) (change : Row → Row) (rows : List Row)
    → select test rows ≡ none
    → update test change rows ≡ rows
unfolding select update
update-eq_self test change [] e = refl
update-eq_self test change (x ∷ rows) e = ground (arith, update-eq_self test change rows)

-- If nothing passes before, and no change makes a row pass, nothing passes after.
pub select-update-none :
    (query test : Row → Bool) (change : Row → Row) (rows : List Row)
    → ((r : Row) → query (change r) ≡ false)
    → select query rows ≡ none
    → select query (update test change rows) ≡ none
unfolding select update
select-update-none query test change [] h e = refl
select-update-none query test change (r ∷ rows) h e =
    ground (arith, h r, select-update-none query test change rows h)

-- If every row that passes is changed, and no changed row passes, nothing passes after.
pub select-update_all :
    (query test : Row → Bool) (change : Row → Row) (rows : List Row)
    → ((r : Row) → query (change r) ≡ false)
    → ((r : Row) → query r ≡ true → test r ≡ true)
    → select query (update test change rows) ≡ none
unfolding select update
select-update_all query test change [] h all = refl
select-update_all query test change (r ∷ rows) h all =
    ground (arith, h r, all r, select-update_all query test change rows h all)

pub select-append :
    (query : Row → Bool) (rows more : List Row)
    → select query (rows ++ more)
      ≡ elim (select query rows) [ none ↦ select query more | some r ↦ some r ]
unfolding select
select-append query [] more = refl
select-append query (r ∷ rows) more = ground (arith, select-append query rows more)

abbrev pub has_id : ℕ → Row → Bool
has_id id r = r.id == id

-- The two unique keys: the id, and the pair of provider and blind index.
abbrev pub Distinct : List Row → Type 0
Distinct [] = Unit {0}
Distinct (r ∷ rows) =
    (select (has_id r.id) rows ≡ none)
    × (select (has_identity r.provider r.ref) rows ≡ none)
    × Distinct rows

pub provider_eq_refl : (p : Provider) → provider_eq p p ≡ true
provider_eq_refl vk = refl
provider_eq_refl yandex = refl

pub provider_eq→≡ : (p q : Provider) → provider_eq p q ≡ true → p ≡ q
provider_eq→≡ vk vk h = refl
provider_eq→≡ yandex yandex h = refl
provider_eq→≡ vk yandex h = cc
provider_eq→≡ yandex vk h = cc

-- A change that keeps the keys keeps them unique.
pub update-Distinct :
    (test : Row → Bool) (change : Row → Row) (rows : List Row)
    → ((r : Row)
        → ((change r).id ≡ r.id) × ((change r).provider ≡ r.provider) × ((change r).ref ≡ r.ref))
    → Distinct rows
    → Distinct (update test change rows)
unfolding update
update-Distinct test change [] keeps d = tt
update-Distinct test change (r ∷ rows) keeps d = ground (
  arith,
  keeps r,
  select-update (has_id r.id) test change rows (λ x. ground (arith, keeps x)),
  select-update (has_identity r.provider r.ref) test change rows (λ x. ground (arith, keeps x)),
  update-Distinct test change rows keeps d.2,
)

-- A row under an unused id and an unused identity goes to the end.
pub append-Distinct :
    (rows : List Row) (r : Row)
    → Distinct rows
    → select (has_id r.id) rows ≡ none
    → select (has_identity r.provider r.ref) rows ≡ none
    → Distinct (rows ++ r ∷ [])
unfolding select
append-Distinct [] r d i e = (refl, refl, tt)
append-Distinct (x ∷ rows) r d i e = ground (
  arith,
  select-append (has_id x.id) rows (r ∷ []),
  select-append (has_identity x.provider x.ref) rows (r ∷ []),
  append-Distinct rows r d.2,
  provider_eq→≡ x.provider r.provider,
  provider_eq→≡ r.provider x.provider,
  provider_eq_refl x.provider,
)

-- Signing in under an id that no row has keeps both keys of the table unique: an identity never
-- has two rows.
pub upsert-Distinct :
    (p : UpsertParams) (id now : ℕ) (rows : List Row)
    → select (has_id id) rows ≡ none
    → Distinct rows
    → Distinct (upsert p id now rows).0
unfolding upsert
upsert-Distinct p id now rows fresh d =
    elim (Option-cases (select (has_identity p.provider p.ref) rows)) [
      | inl e ↦ rw (e, upsert) (append-Distinct rows (inserted p id now) d fresh e)
      | inr (r, e) ↦
          rw (e, upsert)
            (update-Distinct (has_identity p.provider p.ref) (refreshed p now) rows
              (λ x. (refl, refl, refl)) d)
    ]
