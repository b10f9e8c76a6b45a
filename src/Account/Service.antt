-- ===== src/Account/Service.antt =====
-- internal/account/service.go: encryption on write, decryption on read, the blind index for lookups.
-- The cipher and the keyed hash are crypto packages of the language's library over a secret key:
-- they are the parameter `Keys`, with the law that a ciphertext opens to what was sealed.
use psycho_space.Prelude.{ℕ, ◌≡◌, Bool, true, false, List, Option, none, some, if◌then◌else◌, ◌==◌}
use psycho_space.Account.Rows.{
  Role, Status, Provider, Row, UpsertParams, RepoError, admin, superadmin, user, pending, approved,
  blocked, upsert, get_by_id, forget,
}

-- `seal nonce text` and `open blob`; the index of a user id.
pub record Keys : Type 0 where
  pub seal : ℕ → ℕ → ℕ
  pub unseal : ℕ → Option ℕ
  pub index : ℕ → ℕ
  pub unseal-seal : (nonce text : ℕ) → unseal (seal nonce text) ≡ some text

pub record Account : Type 0 where
  pub id : ℕ
  pub role : Role
  pub status : Status
  pub provider : Provider
  pub provider_user_id : ℕ
  pub first_name : ℕ
  pub last_name : ℕ
  pub avatar_url : ℕ
  pub sex : ℕ
  pub birthday : ℕ
  pub ref : ℕ  -- the code shown is the first eight hex digits of it
  pub created_at : ℕ

pub record LoginInput : Type 0 where
  pub provider : Provider
  pub provider_user_id : ℕ
  pub first_name : ℕ
  pub last_name : ℕ
  pub avatar : ℕ
  pub sex : ℕ
  pub birthday : ℕ
  pub auto_approve : Bool

-- `ConsentVersion` is the text "v4".
abbrev pub consent_version : ℕ
consent_version = 4

abbrev pub is_admin : Account → Bool
is_admin a = elim a.role [ user ↦ false | admin ↦ true | superadmin ↦ true ]

abbrev pub is_superadmin : Account → Bool
is_superadmin a = elim a.role [ user ↦ false | admin ↦ false | superadmin ↦ true ]

abbrev pub is_approved : Account → Bool
is_approved a = elim a.status [ pending ↦ false | approved ↦ true | blocked ↦ false ]

infixl 5 ◌>>=◌
abbrev ◌>>=◌ {ℓ κ} : {A : Type ℓ} {B : Type κ} → Option A → (A → Option B) → Option B
none >>= f = none
some a >>= f = f a

module _ (keys : Keys) where
  open keys use {seal, unseal, index}

  unfoldable pub enc_optional : ℕ → ℕ → Option ℕ
  enc_optional nonce text = if text == 0 then none else some (seal nonce text)

  unfoldable pub dec_optional : Option ℕ → Option ℕ
  dec_optional none = some 0
  dec_optional (some blob) = unseal blob

  -- `toAccount`: a field that does not open is an error.
  unfoldable pub to_account : Row → Option Account
  to_account r = do
    provider_user_id ← unseal r.identity_id_enc
    first_name ← dec_optional r.first_name_enc
    last_name ← dec_optional r.last_name_enc
    avatar_url ← dec_optional r.avatar_enc
    sex ← dec_optional r.sex_enc
    birthday ← dec_optional r.birthday_enc
    some (record {
      id = r.id;
      role = r.role;
      status = r.status;
      provider = r.provider;
      provider_user_id = provider_user_id;
      first_name = first_name;
      last_name = last_name;
      avatar_url = avatar_url;
      sex = sex;
      birthday = birthday;
      ref = r.ref;
      created_at = r.created_at;
    })

  -- `UpsertOnLogin`; `nonces` are the random bytes drawn for the six fields.
  unfoldable pub upsert_params : (ℕ → ℕ) → LoginInput → UpsertParams
  upsert_params nonces input = record {
    provider = input.provider;
    ref = index input.provider_user_id;
    identity_id_enc = seal (nonces 0) input.provider_user_id;
    first_name_enc = enc_optional (nonces 1) input.first_name;
    last_name_enc = enc_optional (nonces 2) input.last_name;
    avatar_enc = enc_optional (nonces 3) input.avatar;
    sex_enc = enc_optional (nonces 4) input.sex;
    birthday_enc = enc_optional (nonces 5) input.birthday;
    consent_version = consent_version;
    default_status = (if input.auto_approve then approved else pending);
  }

  unfoldable pub upsert_on_login :
      (ℕ → ℕ) → LoginInput → ℕ → ℕ → List Row → List Row × Option Account
  unfolding upsert_params
  upsert_on_login nonces input id now rows =
      let (rows', row) = upsert (upsert_params nonces input) id now rows in (rows', to_account row)

  -- `Service.GetByID`: no row, or one that does not open.
  unfoldable pub get_account : ℕ → List Row → Option Account
  get_account id rows = elim (get_by_id id rows) [ none ↦ none | some r ↦ to_account r ]

  -- `Service.Forget`, with the random reference that it draws.
  unfoldable pub forget_account : ℕ → ℕ → ℕ → ℕ → List Row → List Row × Option RepoError
  forget_account id new_ref nonce now rows = forget id new_ref (seal nonce 0) now rows
