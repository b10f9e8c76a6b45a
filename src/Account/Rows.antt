-- ===== src/Account/Rows.antt =====
-- internal/account/postgres_repository.go, model.go: the accounts table and its statements.
use psycho_space.Prelude.{
  order_by, keep, ltb, ℕ, Bool, true, false, ◌&&◌, List, [], ◌∷◌, ◌++◌, Option, none, some,
  if◌then◌else◌, ◌==◌,
}

pub data Role : Type 0 where
  user admin superadmin : Role

pub data Status : Type 0 where
  pending approved blocked : Status

pub data Provider : Type 0 where
  vk yandex : Provider

abbrev pub provider_eq : Provider → Provider → Bool
provider_eq vk vk = true
provider_eq yandex yandex = true
provider_eq vk yandex = false
provider_eq yandex vk = false

abbrev pub status_eq : Status → Status → Bool
status_eq pending pending = true
status_eq approved approved = true
status_eq blocked blocked = true
status_eq _ _ = false

abbrev pub is_null : Option ℕ → Bool
is_null none = true
is_null (some x) = false

pub record Row : Type 0 where
  pub id : ℕ
  pub provider : Provider
  pub ref : ℕ
  pub identity_id_enc : ℕ
  pub first_name_enc : Option ℕ
  pub last_name_enc : Option ℕ
  pub avatar_enc : Option ℕ
  pub sex_enc : Option ℕ
  pub birthday_enc : Option ℕ
  pub role : Role
  pub status : Status
  pub last_login_at : Option ℕ
  pub consent_at : Option ℕ
  pub consent_version : Option ℕ
  pub created_at : ℕ
  pub updated_at : ℕ
  pub deleted_at : Option ℕ
  pub forgotten_at : Option ℕ

pub record UpsertParams : Type 0 where
  pub provider : Provider
  pub ref : ℕ
  pub identity_id_enc : ℕ
  pub first_name_enc : Option ℕ
  pub last_name_enc : Option ℕ
  pub avatar_enc : Option ℕ
  pub sex_enc : Option ℕ
  pub birthday_enc : Option ℕ
  pub consent_version : ℕ
  pub default_status : Status

pub data RepoError : Type 0 where
  not_found already_forgotten : RepoError

-- `SELECT … WHERE test`, the first row.
unfoldable pub select : (Row → Bool) → List Row → Option Row
select test [] = none
select test (r ∷ rows) = if test r then some r else select test rows

-- `UPDATE … SET change WHERE test`
unfoldable pub update : (Row → Bool) → (Row → Row) → List Row → List Row
update test change [] = []
update test change (r ∷ rows) = (if test r then change r else r) ∷ update test change rows

-- `RowsAffected`
abbrev pub or_error : Option Row → List Row → RepoError → List Row × Option RepoError
or_error none rows e = (rows, some e)
or_error (some r) rows e = (rows, none)

abbrev pub has_identity : Provider → ℕ → Row → Bool
has_identity p ref r = provider_eq r.provider p && r.ref == ref

abbrev pub is_live : ℕ → Row → Bool
is_live id r = r.id == id && is_null r.deleted_at

abbrev pub is_known : ℕ → Row → Bool
is_known id r = r.id == id && is_null r.deleted_at && is_null r.forgotten_at

abbrev pub inserted : UpsertParams → ℕ → ℕ → Row
inserted p id now = record {
  id = id;
  provider = p.provider;
  ref = p.ref;
  identity_id_enc = p.identity_id_enc;
  first_name_enc = p.first_name_enc;
  last_name_enc = p.last_name_enc;
  avatar_enc = p.avatar_enc;
  sex_enc = p.sex_enc;
  birthday_enc = p.birthday_enc;
  role = user;
  status = p.default_status;
  last_login_at = some now;
  consent_at = some now;
  consent_version = some p.consent_version;
  created_at = now;
  updated_at = now;
  deleted_at = none;
  forgotten_at = none;
}

abbrev pub refreshed : UpsertParams → ℕ → Row → Row
refreshed p now r = record r {
  identity_id_enc = p.identity_id_enc;
  first_name_enc = p.first_name_enc;
  last_name_enc = p.last_name_enc;
  avatar_enc = p.avatar_enc;
  sex_enc = p.sex_enc;
  birthday_enc = p.birthday_enc;
  last_login_at = some now;
  updated_at = now;
  consent_at = some now;
  consent_version = some p.consent_version;
}

-- `INSERT … ON CONFLICT (provider, identity_ref) DO UPDATE … RETURNING`
unfoldable pub upsert : UpsertParams → ℕ → ℕ → List Row → List Row × Row
upsert p id now rows = elim (select (has_identity p.provider p.ref) rows) [
  | none ↦ (rows ++ inserted p id now ∷ [], inserted p id now)
  | some r ↦ (update (has_identity p.provider p.ref) (refreshed p now) rows, refreshed p now r)
]

unfoldable pub get_by_id : ℕ → List Row → Option Row
get_by_id id rows = select (is_live id) rows

-- `WHERE status = … AND deleted_at IS NULL AND forgotten_at IS NULL`, then `ORDER BY created_at`, in
-- which rows that tie keep the order of the table.
abbrev pub is_listed : Status → Row → Bool
is_listed status r = status_eq r.status status && is_null r.deleted_at && is_null r.forgotten_at

unfoldable pub list_by_status : Status → List Row → List Row
list_by_status status rows =
    order_by (λ x y. ltb y.created_at x.created_at) (keep (is_listed status) rows)

unfoldable pub set_status : ℕ → Status → ℕ → List Row → List Row × Option RepoError
set_status id status now rows =
    or_error (select (is_live id) rows)
      (update (is_live id) (λ r. record r { status = status; updated_at = now }) rows) not_found

unfoldable pub promote : ℕ → ℕ → List Row → List Row × Option RepoError
promote id now rows =
    or_error (select (is_live id) rows)
      (update (is_live id) (λ r. record r { role = admin; status = approved; updated_at = now })
        rows)
      not_found

unfoldable pub demote : ℕ → ℕ → List Row → List Row × Option RepoError
demote id now rows =
    or_error (select (is_live id) rows)
      (update (is_live id) (λ r. record r { role = user; updated_at = now }) rows) not_found

abbrev pub anonymised : ℕ → ℕ → ℕ → Row → Row
anonymised new_ref empty_enc now r = record r {
  ref = new_ref;
  identity_id_enc = empty_enc;
  first_name_enc = none;
  last_name_enc = none;
  avatar_enc = none;
  sex_enc = none;
  birthday_enc = none;
  consent_at = none;
  consent_version = none;
  last_login_at = none;
  role = user;
  status = blocked;
  forgotten_at = some now;
  updated_at = now;
}

unfoldable pub forget : ℕ → ℕ → ℕ → ℕ → List Row → List Row × Option RepoError
forget id new_ref empty_enc now rows =
    or_error (select (is_known id) rows)
      (update (is_known id) (anonymised new_ref empty_enc now) rows) already_forgotten
