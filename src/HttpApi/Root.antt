-- ===== src/HttpApi/Root.antt =====
-- The superadmin's row and the admin requests.
use psycho_space.Prelude.{
  ℕ, ◌≡◌, refl, ◌≢◌, sym, ap, ◌∙◌, inl, inr, Bool, true, false, ◌&&◌, not, Option, none, some,
  if◌then◌else◌, ◌==◌, arith, Bool-cases,
}
use psycho_space.Account.Rows.{
  Role, Row, Status, user, admin, superadmin, approved, blocked, status_eq, is_live, get_by_id,
  set_status, promote, demote, already_forgotten, not_found, is_known, anonymised, forget,
}
use psycho_space.Account.Service.{Keys, Account, to_account, is_superadmin, forget_account}
use psycho_space.HttpApi.Authority.{get_by_id_passes}
use psycho_space.HttpApi.Admin.{
  World, Faults, no_content, found, look_up, admin_set_status, admin_forget, admin_promote,
  admin_demote, Request, approves, blocks, promotes, demotes, forgets, handle,
}
use psycho_space.HttpApi.Effects.{
  look_up_row, set_status_how, forget_how, demote_how, promote_how, select-get_by_id, row_after,
}

abbrev pub is_top : Role → Bool
is_top user = false
is_top admin = false
is_top superadmin = true

is_superadmin-is_top : (a : Account) → is_superadmin a ≡ is_top a.role
is_superadmin-is_top a = refl

-- A live superadmin who is not blocked.
abbrev pub is_root : Option Row → Bool
is_root none = false
is_root (some r) = is_top r.role && not (status_eq r.status blocked)

is_root-role : (r : Row) → is_root (some r) ≡ true → is_top r.role ≡ true
is_root-role r h = ground (arith, h)

is_root-status : (r : Row) → is_root (some r) ≡ true → status_eq r.status blocked ≡ false
is_root-status r h = ground (arith, h)

abbrev pub is_promotion_of : ℕ → Request → Bool
is_promotion_of id (promotes id') = id' == id
is_promotion_of id (approves id') = false
is_promotion_of id (blocks id') = false
is_promotion_of id (demotes id') = false
is_promotion_of id (forgets id' new_ref nonce) = false

true_ne_false : true ≢ false
true_ne_false e = cc

root_row :
    (keys : Keys) (valid : ℕ → Bool) (faults : Faults) (id aid : ℕ) (w : World) (r : Row)
    (a : Account)
    → get_by_id aid w.accounts ≡ some r
    → is_root (some r) ≡ true
    → look_up keys valid faults id w.accounts ≡ found a
    → is_superadmin a ≡ false
    → aid == id ≡ false
root_row keys valid faults id aid w r a e root look plain = elim (Bool-cases (aid == id)) [
  | inr there ↦ there
  | inl here ↦
      let same : aid ≡ id = ground (arith, here) in
      let role = (look_up_row keys valid faults id w.accounts r a (rw (← same) e) look).0 in
      absurd (
        true_ne_false
          (sym (is_root-role r root) ∙ sym (ap is_top role) ∙ sym (is_superadmin-is_top a) ∙ plain))
]

is_root-if :
    (b : Bool) (x r : Row)
    → is_root (some r) ≡ true
    → (b ≡ true → is_root (some x) ≡ true)
    → is_root (some (if b then x else r)) ≡ true
is_root-if true x r root h = h refl
is_root-if false x r root h = root

module _ (keys : Keys) (valid : ℕ → Bool) (faults : Faults) (aid now : ℕ) (w : World)
    (r : Row) where
  set_status_keeps_root :
      (actor : Account) (id : ℕ) (status : Status)
      → get_by_id aid w.accounts ≡ some r
      → is_root (some r) ≡ true
      → is_root
          (get_by_id aid (admin_set_status keys valid faults actor id status now w).0.accounts)
        ≡ true
  unfolding set_status
  set_status_keeps_root actor id status e root =
      let change = λ (x : Row). record x { status = status; updated_at = now } in
      elim (set_status_how keys valid faults id now w actor status) [
        | inl same ↦ rw same (rw e root)
        | inr (a, look, g, g', eq) ↦
            rw
              (
                eq,
                row_after id aid (is_live id) change w.accounts not_found r (λ x. refl)
                    (λ x q. ground (arith, q)) e,
              )
              (is_root-if (aid == id && is_live id r) (change r) r root (λ here.
                elim (Bool-cases (is_superadmin a)) [
                  | inl top ↦ ground (arith, g, top, is_root-role r root)
                  | inr plain ↦ absurd (
                      ground
                        (arith, here, root_row keys valid faults id aid w r a e root look plain))
                ]))
      ]

  forget_keeps_root :
      (actor : Account) (id new_ref nonce : ℕ)
      → get_by_id aid w.accounts ≡ some r
      → is_root (some r) ≡ true
      → is_root
          (get_by_id aid (admin_forget keys valid faults actor id new_ref nonce now w).0.accounts)
        ≡ true
  unfolding forget_account forget
  forget_keeps_root actor id new_ref nonce e root =
      let change = anonymised new_ref (keys.seal nonce 0) now in
      elim (forget_how keys valid faults id now w actor new_ref nonce) [
        | inl same ↦ rw same (rw e root)
        | inr (a, look, plain, eq) ↦
            rw
              (
                eq,
                row_after id aid (is_known id) change w.accounts already_forgotten r (λ x. refl)
                    (λ x q. ground (arith, q)) e,
              )
              (is_root-if (aid == id && is_known id r) (change r) r root (λ here.
                absurd (
                  ground (arith, here, root_row keys valid faults id aid w r a e root look plain))))
      ]

  demote_keeps_root :
      (id : ℕ)
      → get_by_id aid w.accounts ≡ some r
      → is_root (some r) ≡ true
      → is_root (get_by_id aid (admin_demote keys valid faults id now w).0.accounts) ≡ true
  unfolding demote
  demote_keeps_root id e root =
      let change = λ (x : Row). record x { role = user; updated_at = now } in
      elim (demote_how keys valid faults id now w) [
        | inl same ↦ rw same (rw e root)
        | inr (a, look, plain, eq) ↦
            rw
              (
                eq,
                row_after id aid (is_live id) change w.accounts not_found r (λ x. refl)
                    (λ x q. ground (arith, q)) e,
              )
              (is_root-if (aid == id && is_live id r) (change r) r root (λ here.
                absurd (
                  ground (arith, here, root_row keys valid faults id aid w r a e root look plain))))
      ]

  promote_keeps_root :
      (id : ℕ)
      → id == aid ≡ false
      → get_by_id aid w.accounts ≡ some r
      → is_root (some r) ≡ true
      → is_root (get_by_id aid (admin_promote keys valid faults id now w).0.accounts) ≡ true
  unfolding promote
  promote_keeps_root id other e root =
      let change = λ (x : Row). record x { role = admin; status = approved; updated_at = now } in
      elim (promote_how keys valid faults id now w) [
        | inl same ↦ rw same (rw e root)
        | inr eq ↦
            rw
              (
                eq,
                row_after id aid (is_live id) change w.accounts not_found r (λ x. refl)
                    (λ x q. ground (arith, q)) e,
              )
              (is_root-if (aid == id && is_live id r) (change r) r root
                (λ here. absurd (ground (arith, here, other))))
      ]

  -- The root stays: of the five requests that change accounts none blocks, demotes or forgets a live
  -- superadmin who is not blocked, whoever sends it and whichever query fails, but a promotion of the
  -- superadmin.
  pub handle_keeps_root :
      (req : Request) (actor : Account)
      → is_promotion_of aid req ≡ false
      → get_by_id aid w.accounts ≡ some r
      → is_root (some r) ≡ true
      → is_root (get_by_id aid (handle keys valid faults req actor now w).0.accounts) ≡ true
  unfolding handle
  handle_keeps_root (approves id) actor h e root = set_status_keeps_root actor id approved e root
  handle_keeps_root (blocks id) actor h e root = set_status_keeps_root actor id blocked e root
  handle_keeps_root (promotes id) actor h e root = promote_keeps_root id h e root
  handle_keeps_root (demotes id) actor h e root = demote_keeps_root id e root
  handle_keeps_root (forgets id new_ref nonce) actor h e root =
      forget_keeps_root actor id new_ref nonce e root

  -- A promotion of a live account that opens, under a valid id and with no query failing, always
  -- succeeds and leaves an approved admin: also of the superadmin, who loses the role.
  pub promote_levels :
      (id : ℕ) (a : Account)
      → get_by_id id w.accounts ≡ some r
      → to_account keys r ≡ some a
      → valid id ≡ true
      → faults.read_fails ≡ false
      → faults.write_fails ≡ false
      → ((admin_promote keys valid faults id now w).1 ≡ no_content)
        × (get_by_id id (admin_promote keys valid faults id now w).0.accounts
            ≡ some (record r { role = admin; status = approved; updated_at = now }))
  unfolding admin_promote promote look_up
  promote_levels id a e opens_ ok reads writes =
      let change = λ (x : Row). record x { role = admin; status = approved; updated_at = now } in
      ground (
        arith,
        e,
        opens_,
        ok,
        reads,
        writes,
        get_by_id_passes id w.accounts r e,
        row_after id id (is_live id) change w.accounts not_found r (λ x. refl)
            (λ x q. ground (arith, q)) e,
        select-get_by_id id w.accounts r e,
      )
