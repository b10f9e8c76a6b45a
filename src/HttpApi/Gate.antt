-- ===== src/HttpApi/Gate.antt =====
-- The request gate and the sweep's batch check hold a session to the same rule.
use psycho_space.Prelude.{
  ℕ, ◌≡◌, refl, ◌≢◌, inl, inr, Bool, true, false, not, List, [], ◌∷◌, Option, none, some, ◌==◌,
  contains, arith, Option-cases, Bool-cases,
}
use psycho_space.Account.Rows.{Row, approved, status_eq, select, is_live, get_by_id}
use psycho_space.Account.Service.{Keys, Account, get_account, to_account, is_approved}
use psycho_space.Account.Laws.{Distinct, has_id}
use psycho_space.Session.Defs.{
  Session, Resolved, find, opens, resolve, joins, is_found, revoked_sessions,
}
use psycho_space.Session.Laws.{
  may_act, is_some_session, contains-revoked_sessions, find_narrow, find_found,
}
use psycho_space.HttpApi.Auth.{
  Gate, unauthorized, not_approved, forbidden, passes, current_account, require_auth,
}

abbrev pub is_pass : Gate → Bool
is_pass unauthorized = false
is_pass not_approved = false
is_pass forbidden = false
is_pass (passes acc session_id) = true

-- A session id is unique in the table.
abbrev pub HasUniqueIds : List Session → Type 0
HasUniqueIds [] = Unit {0}
HasUniqueIds (s ∷ table) = (find (λ x. x.id == s.id) table ≡ none) × HasUniqueIds table

abbrev is_approved_row : Option Row → Bool
is_approved_row none = false
is_approved_row (some r) = status_eq r.status approved

select-none-narrow :
    (p q : Row → Bool) (rows : List Row)
    → ((r : Row) → q r ≡ true → p r ≡ true)
    → select p rows ≡ none
    → select q rows ≡ none
unfolding select
select-none-narrow p q [] h e = refl
select-none-narrow p q (r ∷ rows) h e = ground (arith, h r, select-none-narrow p q rows h)

-- The row of an id that the join wants, where ids are unique.
select-joins :
    (id : ℕ) (rows : List Row)
    → Distinct rows
    → is_found (select (joins id) rows) ≡ is_approved_row (select (is_live id) rows)
unfolding select
select-joins id [] d = refl
select-joins id (r ∷ rows) d = elim (Bool-cases (r.id == id)) [
  | inl here ↦ ground (
    arith,
    here,
    select-none-narrow (has_id r.id) (joins id) rows (λ x e. ground (arith, e, here)) d.0,
    select-none-narrow (has_id r.id) (is_live id) rows (λ x e. ground (arith, e, here)) d.0,
  )
  | inr there ↦ ground (arith, there, select-joins id rows d.2)
]

-- The session that a token opens may act exactly if its account is approved.
find-may_act :
    (h now : ℕ) (accounts : List Row) (table : List Session) (s : Session)
    → HasUniqueIds table
    → find (opens h now) table ≡ some s
    → is_some_session (find (may_act s.id now accounts) table)
      ≡ is_found (select (joins s.account_id) accounts)
unfolding find
find-may_act h now accounts [] s u e = cc
find-may_act h now accounts (x ∷ table) s u e = elim (Bool-cases (opens h now x)) [
  | inl here ↦ ground (
    arith,
    here,
    find_narrow (λ y. y.id == x.id) (may_act s.id now accounts) table
        (λ y m. ground (arith, m, here, e)) u.0,
  )
  | inr there ↦
      let rest : find (opens h now) table ≡ some s = ground (arith, there, e) in
      ground (
        arith,
        there,
        u.0,
        find-may_act h now accounts table s u.1 rest,
        find_found (opens h now) (λ y. y.id == x.id) table s rest,
      )
]

pub to_account_fields :
    (keys : Keys) (r : Row) (a : Account)
    → to_account keys r ≡ some a
    → (a.id ≡ r.id) × (a.status ≡ r.status) × (a.role ≡ r.role)
unfolding to_account
to_account_fields keys r a e = ground (arith, e)

-- The account of an id opens: what the table holds was sealed with the server's keys.
abbrev pub HasReadable : Keys → List Row → Type 0
HasReadable keys accounts =
    (id : ℕ) (r : Row) → get_by_id id accounts ≡ some r → to_account keys r ≢ none

get_account_status :
    (keys : Keys) (id : ℕ) (accounts : List Row)
    → HasReadable keys accounts
    → elim (get_account keys id accounts) [ none ↦ false | some a ↦ is_approved a ]
      ≡ is_approved_row (select (is_live id) accounts)
unfolding get_account get_by_id
get_account_status keys id accounts readable = elim (Option-cases (select (is_live id) accounts)) [
  | inl e ↦ ground (arith, e)
  | inr (r, e) ↦ elim (Option-cases (to_account keys r)) [
    | inl bad ↦ absurd (readable id r e bad)
    | inr (a, good) ↦ ground (arith, e, good, to_account_fields keys r a good)
  ]
]

module _ (keys : Keys) (hash : ℕ → ℕ) (cookie now : ℕ) (table : List Session)
    (accounts : List Row) where
  is_pass-require_auth :
      (s : Session)
      → cookie ≢ 0
      → find (opens (hash cookie) now) table ≡ some s
      → HasReadable keys accounts
      → is_pass (require_auth keys hash cookie now table accounts)
        ≡ is_approved_row (select (is_live s.account_id) accounts)
  unfolding require_auth current_account resolve
  is_pass-require_auth s given e readable =
      ground (arith, given, e, get_account_status keys s.account_id accounts readable)

-- The sweep and the request gate hold a session to one rule. For a token that opens a session, the
-- batch check names that session, asked about it among any others, exactly when a request with the
-- token is refused; ids are unique in both tables, and what the accounts hold opens under the
-- keys.
pub revoked_iff_refused :
    (keys : Keys) (hash : ℕ → ℕ) (cookie now : ℕ) (table : List Session) (accounts : List Row)
    (r : Resolved) (ids : List ℕ)
    → cookie ≢ 0
    → resolve hash cookie now table ≡ some r
    → contains r.session_id ids ≡ true
    → HasUniqueIds table
    → Distinct accounts
    → HasReadable keys accounts
    → contains r.session_id (revoked_sessions ids now table accounts)
      ≡ not (is_pass (require_auth keys hash cookie now table accounts))
unfolding resolve
revoked_iff_refused keys hash cookie now table accounts r ids given e asked u d readable =
    elim (Option-cases (find (opens (hash cookie) now) table)) [
      | inl shut ↦ ground (arith, given, e, shut)
      | inr (s, found) ↦ ground (
        arith,
        given,
        e,
        found,
        asked,
        contains-revoked_sessions s.id ids now table accounts,
        find-may_act (hash cookie) now accounts table s u found,
        select-joins s.account_id accounts d,
        is_pass-require_auth keys hash cookie now table accounts s given found readable,
      )
    ]
