-- ===== src/Account/Examples.antt =====
-- The theorems of the accounts at concrete inputs.
use psycho_space.Prelude.{ℕ, zero, suc, ◌+◌, ◌≡◌, refl, false, [], ◌∷◌, Option, none, some, arith}
use psycho_space.Account.Rows.{Row, vk, select, inserted}
use psycho_space.Account.Service.{Keys, LoginInput, upsert_params, upsert_on_login, forget_account}
use psycho_space.Account.Login.{shown, upsert_on_login_lem}
use psycho_space.Account.Forget.{relogin_is_new}

abbrev shifted_back : ℕ → Option ℕ
shifted_back zero = none
shifted_back (suc n) = some n

-- A cipher that shifts by one.
abbrev pub shift_keys : Keys
shift_keys = record {
  seal = λ nonce text. suc text;
  unseal = shifted_back;
  index = λ text. text + 100;
  unseal-seal = λ nonce text. refl;
}

abbrev anna : LoginInput
anna = record {
  provider = vk;
  provider_user_id = 42;
  first_name = 3;
  last_name = 0;
  avatar = 8;
  sex = 1;
  birthday = 0;
  auto_approve = false;
}

abbrev anna_row : Row
anna_row = inserted (upsert_params shift_keys (λ n. n) anna) 1 10

upsert_on_login_lem_example :
    (upsert_on_login shift_keys (λ n. n) anna 2 20 (anna_row ∷ [])).1
    ≡ some (shown shift_keys anna 2 20 (some anna_row))
unfolding select upsert_params
upsert_on_login_lem_example = upsert_on_login_lem shift_keys (λ n. n) anna 2 20 (anna_row ∷ [])

relogin_is_new_example :
    (upsert_on_login shift_keys
      (λ n. n)
      anna
      2
      30
      (forget_account shift_keys 1 7 9 20 (anna_row ∷ [])).0).1
    ≡ some (shown shift_keys anna 2 30 none)
unfolding select upsert_params
relogin_is_new_example =
    relogin_is_new shift_keys (λ n. n) anna (anna_row ∷ []) anna_row 7 9 20 2 30 (refl, refl, tt)
      refl refl (ground arith)
