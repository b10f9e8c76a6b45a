-- ===== src/Account/Forget.antt =====
-- What forgetting a person leaves behind.
use psycho_space.Prelude.{
  ℕ, ◌≡◌, refl, ◌∙◌, ◌≢◌, inl, inr, true, List, [], ◌∷◌, none, some, arith, Bool-cases,
  Option-cases,
}
use psycho_space.Account.Rows.{
  user, blocked, Provider, Row, already_forgotten, select, update, has_identity, is_live, is_known,
  anonymised, forget, get_by_id,
}
use psycho_space.Account.Service.{
  Keys, Account, LoginInput, dec_optional, to_account, upsert_on_login, get_account, forget_account,
}
use psycho_space.Account.Laws.{
  select-update, select_found, update-eq_self, select-update_all, Distinct, provider_eq→≡,
}
use psycho_space.Account.Login.{shown, upsert_on_login_lem}

module _ (p : Provider) (ref id new_ref blob now : ℕ) (other : new_ref ≢ ref) where
  forget_none :
      (rows : List Row)
      → select (has_identity p ref) rows ≡ none
      → select (has_identity p ref) (update (is_known id) (anonymised new_ref blob now) rows) ≡ none
  unfolding select update
  forget_none [] e = refl
  forget_none (x ∷ rows) e = ground (arith, other, forget_none rows)

  -- The row of an identity gives it up when it is anonymised.
  forget_frees :
      (rows : List Row) (r : Row)
      → Distinct rows
      → select (has_identity p ref) rows ≡ some r
      → is_known id r ≡ true
      → select (has_identity p ref) (update (is_known id) (anonymised new_ref blob now) rows) ≡ none
  unfolding select update
  forget_frees [] r d e known = refl
  forget_frees (x ∷ rows) r d e known = elim (Bool-cases (has_identity p ref x)) [
    | inl here ↦ ground (arith, other, here, forget_none rows, provider_eq→≡ x.provider p, d.1)
    | inr there ↦ ground (arith, other, there, forget_frees rows r d.2)
  ]

forget_found :
    (id new_ref blob now : ℕ) (rows : List Row)
    → select (is_known id) rows ≢ none
    → forget id new_ref blob now rows
      ≡ (update (is_known id) (anonymised new_ref blob now) rows, none)
unfolding forget
forget_found id new_ref blob now rows h = elim (Option-cases (select (is_known id) rows)) [
  | inl e ↦ absurd (h e)
  | inr (r, e) ↦ rw e refl
]

forget_missing :
    (id new_ref blob now : ℕ) (rows : List Row)
    → select (is_known id) rows ≡ none
    → forget id new_ref blob now rows ≡ (rows, some already_forgotten)
unfolding forget
forget_missing id new_ref blob now rows e =
    ground (arith, e, update-eq_self (is_known id) (anonymised new_ref blob now) rows e)

-- After a known account is forgotten the same person signs in as a new account: under the id that
-- the table draws, as a plain user, pending unless registration is open. The keys of the table are
-- unique, and the random reference differs from the blind index that it replaces.
pub relogin_is_new :
    (keys : Keys) (nonces : ℕ → ℕ) (input : LoginInput) (rows : List Row) (r : Row)
    (new_ref nonce forgotten_at id now : ℕ)
    → Distinct rows
    → select (has_identity input.provider (keys.index input.provider_user_id)) rows ≡ some r
    → is_known r.id r ≡ true
    → new_ref ≢ keys.index input.provider_user_id
    → (upsert_on_login keys nonces input id now
        (forget_account keys r.id new_ref nonce forgotten_at rows).0).1
      ≡ some (shown keys input id now none)
unfolding forget_account
relogin_is_new keys nonces input rows r new_ref nonce forgotten_at id now d e known other =
    let index = keys.index input.provider_user_id in
    let blob = keys.seal nonce 0 in
    let gone =
      forget_frees input.provider index r.id new_ref blob forgotten_at other rows r d e known in
    let found = select_found (has_identity input.provider index) (is_known r.id) rows r e known in
    rw (forget_found r.id new_ref blob forgotten_at rows found) (
      upsert_on_login_lem keys nonces input id now
        (update (is_known r.id) (anonymised new_ref blob forgotten_at) rows)
      ∙ rw gone refl)

-- Forgetting twice is reported.
forget_known :
    (id new_ref blob now : ℕ) (rows : List Row)
    → select (is_known id) (update (is_known id) (anonymised new_ref blob now) rows) ≡ none
forget_known id new_ref blob now rows =
    select-update_all (is_known id) (is_known id) (anonymised new_ref blob now) rows
      (λ r. ground arith) (λ r h. h)

pub forget_twice :
    (keys : Keys) (id ref ref' nonce nonce' now later : ℕ) (rows : List Row)
    → (forget_account keys id ref' nonce' later (forget_account keys id ref nonce now rows).0).1
      ≡ some already_forgotten
unfolding forget_account
forget_twice keys id ref ref' nonce nonce' now later rows =
    elim (Option-cases (select (is_known id) rows)) [
      | inl e ↦ ground (
        arith,
        forget_missing id ref (keys.seal nonce 0) now rows e,
        forget_missing id ref' (keys.seal nonce' 0) later rows e,
      )
      | inr (r, e) ↦ ground (
        arith,
        forget_found id ref (keys.seal nonce 0) now rows (λ q. ground (arith, q, e)),
        forget_missing id ref' (keys.seal nonce' 0) later
            (update (is_known id) (anonymised ref (keys.seal nonce 0) now) rows)
            (forget_known id ref (keys.seal nonce 0) now rows),
      )
    ]

-- What a forgotten account shows: nothing that the provider gave.
abbrev pub blank : Row → ℕ → Account
blank r ref = record {
  id = r.id;
  role = user;
  status = blocked;
  provider = r.provider;
  provider_user_id = 0;
  first_name = 0;
  last_name = 0;
  avatar_url = 0;
  sex = 0;
  birthday = 0;
  ref = ref;
  created_at = r.created_at;
}

-- Forgetting a known live account succeeds, and from then on the account reads as a blocked plain
-- user with no name, no picture and no id at its provider, under the random reference.
pub get_account-forget_account :
    (keys : Keys) (id ref nonce now : ℕ) (rows : List Row) (r : Row)
    → get_by_id id rows ≡ some r
    → is_known id r ≡ true
    → ((forget_account keys id ref nonce now rows).1 ≡ none)
      × (get_account keys id (forget_account keys id ref nonce now rows).0 ≡ some (blank r ref))
unfolding forget_account get_account get_by_id to_account dec_optional
get_account-forget_account keys id ref nonce now rows r e known =
    let blob = keys.seal nonce 0 in
    ground (
      arith,
      forget_found id ref blob now rows (select_found (is_live id) (is_known id) rows r e known),
      select-update (is_live id) (is_known id) (anonymised ref blob now) rows (λ x. refl),
      keys.unseal-seal nonce 0,
    )
