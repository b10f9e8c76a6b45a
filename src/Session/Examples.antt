-- ===== src/Session/Examples.antt =====
-- The theorems of the sessions at concrete inputs.
use psycho_space.Prelude.{suc, ◌≡◌, refl, [], ◌∷◌, none}
use psycho_space.Session.Defs.{Session, find, resolve, revoke_all_for_account}
use psycho_space.Session.Laws.{resolve-revoke_all}

abbrev old_session : Session
old_session = record { id = 1; account_id = 5; token_hash = 4; expires_at = 100; deleted_at = none }

resolve-revoke_all_example :
    resolve suc 3 20 (revoke_all_for_account 5 10 (old_session ∷ [])) ≡ none
unfolding find resolve
resolve-revoke_all_example = resolve-revoke_all suc 3 5 10 20 (old_session ∷ []) (refl, tt)
