-- ===== src/HttpApi/Effects.antt =====
-- What each handler does to the accounts table: nothing, or one statement after its guards.
use psycho_space.Prelude.{
  ℕ, ◌⊎◌, ◌≡◌, inl, inr, Bool, true, false, ◌&&◌, not, List, Option, none, some, if◌then◌else◌,
  ◌==◌, arith, Option-cases,
}
use psycho_space.Account.Rows.{
  Row, Status, blocked, status_eq, is_live, get_by_id, set_status, promote, demote, RepoError,
  update, or_error, select,
}
use psycho_space.Account.Service.{
  Keys, Account, to_account, is_admin, is_superadmin, forget_account,
}
use psycho_space.Account.Laws.{changed, select-update, update-eq_self}
use psycho_space.HttpApi.Gate.{to_account_fields}
use psycho_space.HttpApi.Authority.{get_by_id_passes}
use psycho_space.HttpApi.Admin.{
  World, Faults, Lookup, absent, broken, found, look_up, kick_account, revoke_sessions, cut_off,
  admin_set_status, admin_forget, admin_promote, admin_demote,
}

-- The row that a query for an id finds after an update of the rows of an id.
pub get_by_id-update :
    (id aid : ℕ) (test : Row → Bool) (change : Row → Row) (rows : List Row)
    → ((r : Row) → is_live aid (change r) ≡ is_live aid r)
    → get_by_id aid (update test change rows) ≡ changed test change (get_by_id aid rows)
unfolding get_by_id
get_by_id-update id aid test change rows h = select-update (is_live aid) test change rows h

abbrev target_of : Lookup → Option Account
target_of absent = none
target_of broken = none
target_of (found a) = some a

-- The account that a handler looks at is the one of the row.
pub look_up_row :
    (keys : Keys) (valid : ℕ → Bool) (faults : Faults) (id : ℕ) (rows : List Row) (r : Row)
    (a : Account)
    → get_by_id id rows ≡ some r
    → look_up keys valid faults id rows ≡ found a
    → (a.role ≡ r.role) × (r.id == id ≡ true)
unfolding look_up
look_up_row keys valid faults id rows r a e h = elim (Option-cases (to_account keys r)) [
  | inl t ↦ absurd (ground (arith, e, t, h))
  | inr (b, t) ↦ ground (arith, e, t, h, to_account_fields keys r b t, get_by_id_passes id rows r e)
]

-- What a handler did to the accounts table: nothing, or one statement on a target it had allowed.
module _ (keys : Keys) (valid : ℕ → Bool) (faults : Faults) (id now : ℕ) (w : World) where
  pub set_status_how :
      (actor : Account) (status : Status)
      → ((admin_set_status keys valid faults actor id status now w).0.accounts ≡ w.accounts)
        ⊎ ((target : Account) × (look_up keys valid faults id w.accounts ≡ found target)
            × (status_eq status blocked && is_superadmin target ≡ false)
            × (is_admin target && not (is_superadmin actor) ≡ false)
            × ((admin_set_status keys valid faults actor id status now w).0.accounts
                ≡ (set_status id status now w.accounts).0))
  unfolding admin_set_status cut_off kick_account revoke_sessions
  set_status_how actor status = ground arith

  pub forget_how :
      (actor : Account) (new_ref nonce : ℕ)
      → ((admin_forget keys valid faults actor id new_ref nonce now w).0.accounts ≡ w.accounts)
        ⊎ ((target : Account) × (look_up keys valid faults id w.accounts ≡ found target)
            × (is_superadmin target ≡ false)
            × ((admin_forget keys valid faults actor id new_ref nonce now w).0.accounts
                ≡ (forget_account keys id new_ref nonce now w.accounts).0))
  unfolding admin_forget kick_account revoke_sessions
  forget_how actor new_ref nonce = ground arith

  pub demote_how :
      ((admin_demote keys valid faults id now w).0.accounts ≡ w.accounts)
      ⊎ ((target : Account) × (look_up keys valid faults id w.accounts ≡ found target)
          × (is_superadmin target ≡ false)
          × ((admin_demote keys valid faults id now w).0.accounts ≡ (demote id now w.accounts).0))
  unfolding admin_demote
  demote_how = ground arith

  pub promote_how :
      ((admin_promote keys valid faults id now w).0.accounts ≡ w.accounts)
      ⊎ ((admin_promote keys valid faults id now w).0.accounts ≡ (promote id now w.accounts).0)
  unfolding admin_promote
  promote_how = ground arith

pub select-get_by_id :
    (id : ℕ) (rows : List Row) (r : Row)
    → get_by_id id rows ≡ some r
    → select (is_live id) rows ≡ some r
unfolding get_by_id
select-get_by_id id rows r e = e

-- What one statement leaves of the row of an id.
pub row_after :
    (id aid : ℕ) (test : Row → Bool) (change : Row → Row) (rows : List Row) (e : RepoError)
    (r : Row)
    → ((x : Row) → is_live aid (change x) ≡ is_live aid x)
    → ((x : Row) → test x ≡ true → x.id == id ≡ true)
    → get_by_id aid rows ≡ some r
    → get_by_id aid (or_error (select test rows) (update test change rows) e).0
      ≡ some (if aid == id && test r then change r else r)
row_after id aid test change rows e r h only found_ = ground (
  arith,
  found_,
  update-eq_self test change rows,
  get_by_id-update id aid test change rows h,
  get_by_id_passes aid rows r found_,
  only r,
)
