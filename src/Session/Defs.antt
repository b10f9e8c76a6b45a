-- ===== src/Session/Defs.antt =====
-- internal/session/session.go: the sessions table and the Manager's operations.
use psycho_space.Prelude.{
  ℕ, ◌+◌, Bool, true, false, ◌&&◌, List, [], ◌∷◌, ◌++◌, Option, none, some, if◌then◌else◌, ◌==◌,
  ltb, contains,
}
use psycho_space.Account.Rows.{Row, approved, status_eq, is_null, select}

pub record Session : Type 0 where
  pub id : ℕ
  pub account_id : ℕ
  pub token_hash : ℕ
  pub expires_at : ℕ
  pub deleted_at : Option ℕ

pub record Resolved : Type 0 where
  pub session_id : ℕ
  pub account_id : ℕ

unfoldable pub find : (Session → Bool) → List Session → Option Session
find test [] = none
find test (s ∷ table) = if test s then some s else find test table

-- `deleted_at IS NULL AND expires_at > now()`
abbrev pub is_active : ℕ → Session → Bool
is_active now s = is_null s.deleted_at && ltb now s.expires_at

abbrev pub opens : ℕ → ℕ → Session → Bool
opens h now s = s.token_hash == h && is_active now s

-- `Create`. A token hash is unique in the table: a second row with it is an error.
unfoldable pub create : (ℕ → ℕ) → ℕ → ℕ → ℕ → ℕ → ℕ → List Session → List Session × Option ℕ
create hash ttl raw account_id id now table = elim (find (λ s. s.token_hash == hash raw) table) [
  | some s ↦ (table, none)
  | none ↦ (
    table
        ++ record {
          id = id;
          account_id = account_id;
          token_hash = hash raw;
          expires_at = now + ttl;
          deleted_at = none;
        }
          ∷ [],
    some raw,
  )
]

abbrev pub resolved : Session → Resolved
resolved s = record { session_id = s.id; account_id = s.account_id }

-- `Resolve`
unfoldable pub resolve : (ℕ → ℕ) → ℕ → ℕ → List Session → Option Resolved
resolve hash raw now table =
    if raw == 0
    then none
    else elim (find (opens (hash raw) now) table) [ none ↦ none | some s ↦ some (resolved s) ]

abbrev pub deleted : ℕ → Session → Session
deleted now s = record s { deleted_at = some now }

-- `UPDATE sessions SET deleted_at = now() WHERE test AND deleted_at IS NULL`
unfoldable pub drop : (Session → Bool) → ℕ → List Session → List Session
drop test now [] = []
drop test now (s ∷ table) =
    (if test s && is_null s.deleted_at then deleted now s else s) ∷ drop test now table

-- `Revoke`
unfoldable pub revoke : (ℕ → ℕ) → ℕ → ℕ → List Session → List Session
revoke hash raw now table = drop (λ s. s.token_hash == hash raw) now table

-- `RevokeAllForAccount`
unfoldable pub revoke_all_for_account : ℕ → ℕ → List Session → List Session
revoke_all_for_account account_id now table = drop (λ s. s.account_id == account_id) now table

-- `a.deleted_at IS NULL AND a.status = 'approved'` of the row that the join finds.
abbrev pub joins : ℕ → Row → Bool
joins id a = a.id == id && is_null a.deleted_at && status_eq a.status approved

abbrev pub is_found : Option Row → Bool
is_found none = false
is_found (some a) = true

-- The join of `RevokedSessions`: the ids that are alive, of those asked about.
unfoldable pub alive : List ℕ → ℕ → List Session → List Row → List ℕ
alive ids now [] accounts = []
alive ids now (s ∷ table) accounts =
    let rest = alive ids now table accounts in
    if contains s.id ids && is_active now s && is_found (select (joins s.account_id) accounts)
    then s.id ∷ rest
    else rest

unfoldable pub not_in : List ℕ → List ℕ → List ℕ
not_in live [] = []
not_in live (id ∷ ids) = let rest = not_in live ids in if contains id live then rest else id ∷ rest

-- `RevokedSessions`
unfoldable pub revoked_sessions : List ℕ → ℕ → List Session → List Row → List ℕ
unfolding alive not_in
revoked_sessions ids now table accounts = not_in (alive ids now table accounts) ids
