-- ===== src/Session/Laws.antt =====
-- The life of a session: created, resolved, revoked, expired.
use psycho_space.Prelude.{
  ℕ, ◌+◌, ◌≡◌, refl, ◌≢◌, inl, inr, Bool, true, false, ◌&&◌, not, List, [], ◌∷◌, ◌++◌, Option, none,
  some, if◌then◌else◌, ◌==◌, ltb, contains, arith, Bool-cases,
}
use psycho_space.Account.Rows.{Row, is_null, select}
use psycho_space.Session.Defs.{
  Session, find, is_active, opens, create, resolve, deleted, drop, revoke, revoke_all_for_account,
  joins, is_found, alive, not_in, revoked_sessions,
}

find-append :
    (test : Session → Bool) (table more : List Session)
    → find test (table ++ more) ≡ elim (find test table) [ none ↦ find test more | some s ↦ some s ]
unfolding find
find-append test [] more = refl
find-append test (s ∷ table) more = ground (arith, find-append test table more)

pub find_narrow :
    (p q : Session → Bool) (table : List Session)
    → ((s : Session) → q s ≡ true → p s ≡ true)
    → find p table ≡ none
    → find q table ≡ none
unfolding find
find_narrow p q [] h e = refl
find_narrow p q (s ∷ table) h e = ground (arith, h s, find_narrow p q table h)

-- A session that was just created for a token that is not empty, under a hash that no row has,
-- resolves to its account until it expires; from then on it does not.
pub resolve-create :
    (hash : ℕ → ℕ) (ttl raw account_id id now later : ℕ) (table : List Session)
    → raw ≢ 0
    → find (λ s. s.token_hash == hash raw) table ≡ none
    → ((create hash ttl raw account_id id now table).1 ≡ some raw)
      × (resolve hash raw later (create hash ttl raw account_id id now table).0 ≡ (
          if ltb later (now + ttl)
          then some (record { session_id = id; account_id = account_id })
          else none))
unfolding create resolve find
resolve-create hash ttl raw account_id id now later table given fresh = ground (
  arith,
  given,
  fresh,
  find-append (opens (hash raw) later) table (
      record {
        id = id;
        account_id = account_id;
        token_hash = hash raw;
        expires_at = now + ttl;
        deleted_at = none;
      }
      ∷ []),
  find_narrow (λ s. s.token_hash == hash raw) (opens (hash raw) later) table
      (λ s h. ground (arith, h)),
)

-- What a drop does to a query that reads only undeleted rows.
find-drop_all :
    (test query : Session → Bool) (now : ℕ) (table : List Session)
    → ((s : Session) → query s ≡ true → (test s ≡ true) × (is_null s.deleted_at ≡ true))
    → ((s : Session) → query (deleted now s) ≡ false)
    → find query (drop test now table) ≡ none
unfolding find drop
find-drop_all test query now [] h g = refl
find-drop_all test query now (s ∷ table) h g =
    ground (arith, h s, g s, find-drop_all test query now table h g)

find-drop_other :
    (test query : Session → Bool) (now : ℕ) (table : List Session)
    → ((s : Session) → query s ≡ true → test s ≡ false)
    → ((s : Session) → query (deleted now s) ≡ false)
    → find query (drop test now table) ≡ find query table
unfolding find drop
find-drop_other test query now [] h g = refl
find-drop_other test query now (s ∷ table) h g =
    ground (arith, h s, g s, find-drop_other test query now table h g)

-- A revoked token resolves to nothing at any later time, and every other token is untouched: one whose
-- hash differs resolves as before.
pub resolve-revoke :
    (hash : ℕ → ℕ) (raw other now later : ℕ) (table : List Session)
    → resolve hash other later (revoke hash raw now table)
      ≡ (if hash other == hash raw then none else resolve hash other later table)
unfolding resolve revoke
resolve-revoke hash raw other now later table = elim (Bool-cases (hash other == hash raw)) [
  | inl same ↦ ground (
    arith,
    same,
    find-drop_all (λ s. s.token_hash == hash raw) (opens (hash other) later) now table
        (λ s h. (ground (arith, h, same), ground (arith, h))) (λ s. ground arith),
  )
  | inr differ ↦ ground (
    arith,
    differ,
    find-drop_other (λ s. s.token_hash == hash raw) (opens (hash other) later) now table
        (λ s h. ground (arith, h, differ)) (λ s. ground arith),
  )
]

-- A session that a query finds passes it.
pub find_passes :
    (query : Session → Bool) (table : List Session) (s : Session)
    → find query table ≡ some s
    → query s ≡ true
unfolding find
find_passes query [] s e = cc
find_passes query (x ∷ table) s e = ground (arith, find_passes query table s)

-- A token hash is unique in the table.
abbrev pub HasUniqueTokens : List Session → Type 0
HasUniqueTokens [] = Unit {0}
HasUniqueTokens (s ∷ table) =
    (find (λ x. x.token_hash == s.token_hash) table ≡ none) × HasUniqueTokens table

abbrev not_of : ℕ → Option Session → Option Session
not_of a none = none
not_of a (some s) = if s.account_id == a then none else some s

find-revoke_all :
    (h a now later : ℕ) (table : List Session)
    → HasUniqueTokens table
    → find (opens h later) (drop (λ s. s.account_id == a) now table)
      ≡ not_of a (find (opens h later) table)
unfolding find drop
find-revoke_all h a now later [] u = refl
find-revoke_all h a now later (s ∷ table) u = elim (Bool-cases (opens h later s)) [
  | inl open_ ↦ ground (
    arith,
    open_,
    u.0,
    find_narrow (λ x. x.token_hash == s.token_hash) (opens h later) table
        (λ x e. ground (arith, e, open_)),
    find-revoke_all h a now later table u.1,
  )
  | inr shut ↦ ground (arith, shut, find-revoke_all h a now later table u.1)
]

-- After the sessions of an account are revoked, no token resolves to that account at any later
-- time, and a token of another account resolves as before. Token hashes are unique in the table.
pub resolve-revoke_all :
    (hash : ℕ → ℕ) (raw account_id now later : ℕ) (table : List Session)
    → HasUniqueTokens table
    → resolve hash raw later (revoke_all_for_account account_id now table)
      ≡ elim (resolve hash raw later table) [
        | none ↦ none
        | some r ↦ if r.account_id == account_id then none else some r
      ]
unfolding resolve revoke_all_for_account
resolve-revoke_all hash raw account_id now later table u =
    ground (arith, find-revoke_all (hash raw) account_id now later table u)

-- Whether a session may act: its row is active and its account is there and approved.
abbrev pub may_act : ℕ → ℕ → List Row → Session → Bool
may_act id now accounts s =
    s.id == id && is_active now s && is_found (select (joins s.account_id) accounts)

abbrev pub is_some_session : Option Session → Bool
is_some_session none = false
is_some_session (some s) = true

contains-alive :
    (id : ℕ) (ids : List ℕ) (now : ℕ) (table : List Session) (accounts : List Row)
    → contains id (alive ids now table accounts)
      ≡ (contains id ids && is_some_session (find (may_act id now accounts) table))
unfolding alive contains find
contains-alive id ids now [] accounts = ground arith
contains-alive id ids now (s ∷ table) accounts =
    ground (arith, contains-alive id ids now table accounts)

contains-not_in :
    (id : ℕ) (live ids : List ℕ)
    → contains id (not_in live ids) ≡ (contains id ids && not (contains id live))
unfolding not_in contains
contains-not_in id live [] = refl
contains-not_in id live (x ∷ ids) = ground (arith, contains-not_in id live ids)

-- The batch check names exactly those of the sessions asked about that may not act: revoked, expired or
-- unknown, or of an account that is deleted, missing or not approved.
pub contains-revoked_sessions :
    (id : ℕ) (ids : List ℕ) (now : ℕ) (table : List Session) (accounts : List Row)
    → contains id (revoked_sessions ids now table accounts)
      ≡ (contains id ids && not (is_some_session (find (may_act id now accounts) table)))
unfolding revoked_sessions
contains-revoked_sessions id ids now table accounts = ground (
  arith,
  contains-not_in id (alive ids now table accounts) ids,
  contains-alive id ids now table accounts,
)

-- A query finds something where a row that another query finds passes it.
pub find_found :
    (query test : Session → Bool) (table : List Session) (s : Session)
    → find query table ≡ some s
    → test s ≡ true
    → find test table ≢ none
unfolding find
find_found query test [] s e h = cc
find_found query test (x ∷ table) s e h = ground (arith, find_found query test table s)
