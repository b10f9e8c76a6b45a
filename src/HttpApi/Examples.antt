-- ===== src/HttpApi/Examples.antt =====
-- The theorems of the gates and the admin routes at concrete inputs.
use psycho_space.Prelude.{
  ℕ, suc, ◌≡◌, refl, true, false, not, List, [], ◌∷◌, none, some, arith, contains,
}
use psycho_space.Prelude.Dict.{tally}
use psycho_space.Account.Rows.{
  Row, Role, user, admin, superadmin, approved, blocked, vk, select, get_by_id, set_status,
}
use psycho_space.Account.Service.{Account, to_account, dec_optional}
use psycho_space.Account.Examples.{shift_keys}
use psycho_space.Session.Defs.{Session, find, resolve, revoked_sessions}
use psycho_space.Realtime.Hub.Defs.{new_hub, of_account}
use psycho_space.Realtime.Hub.Step.{run}
use psycho_space.Realtime.Hub.Preservation.{new_hub-Inv}
use psycho_space.HttpApi.Auth.{require_auth}
use psycho_space.HttpApi.Gate.{HasReadable, is_pass, revoked_iff_refused}
use psycho_space.HttpApi.Admin.{
  World, Faults, forgets, handle, admin_set_status, admin_promote, no_content, kick_cmds, look_up,
}
use psycho_space.HttpApi.Authority.{lets_in, block_cuts_off}
use psycho_space.HttpApi.Root.{is_root, handle_keeps_root, promote_levels}

abbrev row_of : ℕ → Role → Row
row_of id role = record {
  id = id;
  provider = vk;
  ref = id;
  identity_id_enc = 9;
  first_name_enc = none;
  last_name_enc = none;
  avatar_enc = none;
  sex_enc = none;
  birthday_enc = none;
  role = role;
  status = approved;
  last_login_at = none;
  consent_at = none;
  consent_version = none;
  created_at = 0;
  updated_at = 0;
  deleted_at = none;
  forgotten_at = none;
}

abbrev account_of : ℕ → Role → Account
account_of id role = record {
  id = id;
  role = role;
  status = approved;
  provider = vk;
  provider_user_id = 8;
  first_name = 0;
  last_name = 0;
  avatar_url = 0;
  sex = 0;
  birthday = 0;
  ref = id;
  created_at = 0;
}

abbrev people : List Row
people = row_of 1 superadmin ∷ row_of 2 user ∷ []

abbrev logins : List Session
logins =
    record { id = 31; account_id = 1; token_hash = 5; expires_at = 100; deleted_at = none }
    ∷ record { id = 32; account_id = 2; token_hash = 6; expires_at = 100; deleted_at = none }
    ∷ []

abbrev world : World
world = record { accounts = people; sessions = logins; kicks = []; stopped = false }

abbrev no_faults : Faults
no_faults = record { read_fails = false; write_fails = false; revoke_fails = false }

people_open : HasReadable shift_keys people
unfolding get_by_id select to_account dec_optional
people_open id r e bad = ground (arith, e, bad)

revoked_iff_refused_example :
    contains 32 (revoked_sessions (31 ∷ 32 ∷ []) 20 logins people)
    ≡ not (is_pass (require_auth shift_keys suc 5 20 logins people))
unfolding contains resolve find select
revoked_iff_refused_example =
    revoked_iff_refused shift_keys suc 5 20 logins people
      (record { session_id = 32; account_id = 2 }) (31 ∷ 32 ∷ []) (ground arith) refl refl
      (refl, (refl, tt)) (refl, refl, (refl, refl, tt)) people_open

block_cuts_off_example :
    let w =
      (admin_set_status shift_keys
        (λ _. true)
        no_faults
        (account_of 1 superadmin)
        2
        blocked
        20
        world).0 in
    (lets_in 2 (require_auth shift_keys suc 5 30 w.sessions w.accounts) ≡ false)
    × (w.kicks ≡ 2 ∷ [])
    × (tally (of_account 2) (run new_hub (kick_cmds w.kicks)).0.clients ≡ 0)
unfolding admin_set_status look_up set_status get_by_id select to_account dec_optional
block_cuts_off_example =
    block_cuts_off shift_keys suc (λ _. true) no_faults (account_of 1 superadmin) 2 20 5 30 world
      new_hub refl new_hub-Inv refl

handle_keeps_root_example :
    is_root (
      get_by_id 1
        (handle shift_keys
          (λ _. true)
          no_faults
          (forgets 1 7 9)
          (account_of 2 superadmin)
          20
          world).0.accounts)
    ≡ true
unfolding get_by_id select
handle_keeps_root_example =
    handle_keeps_root shift_keys (λ _. true) no_faults 1 20 world (row_of 1 superadmin)
      (forgets 1 7 9) (account_of 2 superadmin) refl refl refl

promote_levels_example :
    ((admin_promote shift_keys (λ _. true) no_faults 1 20 world).1 ≡ no_content)
    × (get_by_id 1 (admin_promote shift_keys (λ _. true) no_faults 1 20 world).0.accounts
        ≡ some (record (row_of 1 superadmin) { role = admin; status = approved; updated_at = 20 }))
unfolding get_by_id select to_account dec_optional
promote_levels_example =
    promote_levels shift_keys (λ _. true) no_faults 1 20 world (row_of 1 superadmin) 1
      (account_of 1 superadmin) refl refl refl refl refl
