-- ===== src/Account/Login.antt =====
-- Signing in, being forgotten, and signing in again.
use psycho_space.Prelude.{
  ℕ, ◌≡◌, inl, inr, true, List, Option, none, some, arith, if◌then◌else◌, ◌==◌, Bool-cases,
  Option-cases,
}
use psycho_space.Account.Rows.{
  user, pending, approved, Row, select, has_identity, inserted, refreshed, upsert,
}
use psycho_space.Account.Service.{
  Keys, Account, LoginInput, enc_optional, dec_optional, to_account, upsert_params, upsert_on_login,
}
use psycho_space.Account.Laws.{select_passes, provider_eq→≡}

dec_optional-enc_optional :
    (keys : Keys) (nonce text : ℕ) → dec_optional keys (enc_optional keys nonce text) ≡ some text
unfolding dec_optional enc_optional
dec_optional-enc_optional keys nonce text = elim (Bool-cases (text == 0)) [
  | inl e ↦ rw e (ground arith)
  | inr e ↦ rw e (keys.unseal-seal nonce text)
]

-- The account that a sign-in shows: the profile from the provider, and the identity, role and status
-- of the row that the identity had, or of a new row.
abbrev pub shown : Keys → LoginInput → ℕ → ℕ → Option Row → Account
shown keys input id now old = record {
  id = elim old [ none ↦ id | some r ↦ r.id ];
  role = elim old [ none ↦ user | some r ↦ r.role ];
  status = elim old [ none ↦ if input.auto_approve then approved else pending | some r ↦ r.status ];
  provider = input.provider;
  provider_user_id = input.provider_user_id;
  first_name = input.first_name;
  last_name = input.last_name;
  avatar_url = input.avatar;
  sex = input.sex;
  birthday = input.birthday;
  ref = keys.index input.provider_user_id;
  created_at = elim old [ none ↦ now | some r ↦ r.created_at ];
}

module _ (keys : Keys) (nonces : ℕ → ℕ) (input : LoginInput) (id now : ℕ) where
  to_account-inserted :
      to_account keys (inserted (upsert_params keys nonces input) id now)
      ≡ some (shown keys input id now none)
  unfolding to_account upsert_params
  to_account-inserted = ground (
    arith,
    keys.unseal-seal (nonces 0) input.provider_user_id,
    dec_optional-enc_optional keys (nonces 1) input.first_name,
    dec_optional-enc_optional keys (nonces 2) input.last_name,
    dec_optional-enc_optional keys (nonces 3) input.avatar,
    dec_optional-enc_optional keys (nonces 4) input.sex,
    dec_optional-enc_optional keys (nonces 5) input.birthday,
  )

  to_account-refreshed :
      (r : Row)
      → has_identity input.provider (keys.index input.provider_user_id) r ≡ true
      → to_account keys (refreshed (upsert_params keys nonces input) now r)
        ≡ some (shown keys input id now (some r))
  unfolding to_account upsert_params
  to_account-refreshed r h = ground (
    arith,
    provider_eq→≡ r.provider input.provider,
    keys.unseal-seal (nonces 0) input.provider_user_id,
    dec_optional-enc_optional keys (nonces 1) input.first_name,
    dec_optional-enc_optional keys (nonces 2) input.last_name,
    dec_optional-enc_optional keys (nonces 3) input.avatar,
    dec_optional-enc_optional keys (nonces 4) input.sex,
    dec_optional-enc_optional keys (nonces 5) input.birthday,
  )

  -- A sign-in answers with the provider's profile, read back through the encryption, under the row of
  -- the identity: an account that existed keeps its id, role and status, also a blocked one, and a new
  -- one is a plain user, approved only in open registration.
  pub upsert_on_login_lem :
      (rows : List Row)
      → (upsert_on_login keys nonces input id now rows).1
        ≡ some (
            shown keys input id now
              (select (has_identity input.provider (keys.index input.provider_user_id)) rows))
  unfolding upsert_on_login upsert
  upsert_on_login_lem rows =
      let found = select (has_identity input.provider (keys.index input.provider_user_id)) rows in
      elim (Option-cases found) [
        | inl e ↦ rw (e, upsert_on_login, upsert) to_account-inserted
        | inr (r, e) ↦
            rw (e, upsert_on_login, upsert) (to_account-refreshed r (select_passes _ rows r e))
      ]
