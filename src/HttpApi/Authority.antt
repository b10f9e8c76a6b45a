-- ===== src/HttpApi/Authority.antt =====
-- What an admin's request can and cannot do.
use psycho_space.Prelude.{
  ℕ, ◌≡◌, refl, subst, sym, [], ◌∷◌, ◌++◌, inl, inr, Bool, true, false, ◌&&◌, List, none, some,
  ◌==◌, arith, Option-cases, Bool-cases,
}
use psycho_space.Prelude.Dict.{tally}
use psycho_space.Account.Rows.{
  Row, Status, approved, blocked, status_eq, is_live, get_by_id, set_status,
}
use psycho_space.Account.Service.{Keys, Account, get_account, to_account, is_approved}
use psycho_space.Account.Laws.{changed, select-update, select_passes}
use psycho_space.Session.Defs.{Session, resolve, revoke_all_for_account}
use psycho_space.Realtime.Hub.Defs.{Hub, of_account, close_unauthorized, Reason}
use psycho_space.Realtime.Hub.Invariant.{Inv}
use psycho_space.Realtime.Hub.Preservation.{step-Inv}
use psycho_space.Realtime.Hub.Step.{step, run, kicks}
use psycho_space.Realtime.Hub.Cutting.{kick_clears}
use psycho_space.HttpApi.Auth.{
  Gate, unauthorized, not_approved, forbidden, passes, current_account, require_auth,
}
use psycho_space.HttpApi.Gate.{to_account_fields}
use psycho_space.HttpApi.Admin.{
  World, Faults, no_content, look_up, kick_account, kick_cmds, revoke_sessions, admin_set_status,
}

module _ (keys : Keys) (valid : ℕ → Bool) (faults : Faults) where
  -- A successful block went through the write and the cut.
  blocked_how :
      (actor : Account) (id now : ℕ) (w : World)
      → (admin_set_status keys valid faults actor id blocked now w).1 ≡ no_content
      → ((set_status id blocked now w.accounts).1 ≡ none)
        × ((admin_set_status keys valid faults actor id blocked now w).0
            ≡ kick_account keys valid faults id (
                revoke_sessions keys valid faults id now
                  (record w { accounts = (set_status id blocked now w.accounts).0 })))
  unfolding admin_set_status look_up
  blocked_how actor id now w e = ground (arith, e)

abbrev pub lets_in : ℕ → Gate → Bool
lets_in id unauthorized = false
lets_in id not_approved = false
lets_in id forbidden = false
lets_in id (passes acc session_id) = acc.id == id

-- No account of an id is approved.
abbrev HasNoApproved : Keys → ℕ → List Row → Type 0
HasNoApproved keys id rows =
    (aid : ℕ) (a : Account)
    → get_account keys aid rows ≡ some a
    → (a.id == id) && is_approved a ≡ false

-- What the table holds after a status is set.
get_by_id-set_status :
    (id aid now : ℕ) (status : Status) (rows : List Row)
    → get_by_id aid (set_status id status now rows).0
      ≡ changed
          (is_live id)
          (λ r. record r { status = status; updated_at = now })
          (get_by_id aid rows)
unfolding get_by_id set_status
get_by_id-set_status id aid now status rows = ground (
  arith,
  select-update (is_live aid) (is_live id) (λ r. record r { status = status; updated_at = now })
      rows (λ x. refl),
)

pub get_by_id_passes :
    (id : ℕ) (rows : List Row) (r : Row) → get_by_id id rows ≡ some r → is_live id r ≡ true
unfolding get_by_id
get_by_id_passes id rows r e = select_passes (is_live id) rows r e

set_status_blocks :
    (id aid now : ℕ) (rows : List Row) (r : Row)
    → get_by_id aid (set_status id blocked now rows).0 ≡ some r
    → (r.id == id) && status_eq r.status approved ≡ false
set_status_blocks id aid now rows r e = elim (Option-cases (get_by_id aid rows)) [
  | inl e' ↦ ground (arith, e, e', get_by_id-set_status id aid now blocked rows)
  | inr (t, e') ↦
      ground
        (arith, e, e', get_by_id-set_status id aid now blocked rows, get_by_id_passes aid rows t e')
]

get_account_row :
    (keys : Keys) (aid : ℕ) (rows : List Row) (a : Account)
    → get_account keys aid rows ≡ some a
    → (r : Row) × (get_by_id aid rows ≡ some r) × (to_account keys r ≡ some a)
unfolding get_account
get_account_row keys aid rows a e = elim (Option-cases (get_by_id aid rows)) [
  | inl e' ↦ absurd (ground (arith, e, e'))
  | inr (r, e') ↦ (r, e', ground (arith, e, e'))
]

set_status-HasNoApproved :
    (keys : Keys) (id now : ℕ) (rows : List Row)
    → HasNoApproved keys id (set_status id blocked now rows).0
set_status-HasNoApproved keys id now rows aid a e =
    let (r, e', t) = get_account_row keys aid (set_status id blocked now rows).0 a e in
    ground (arith, set_status_blocks id aid now rows r e', to_account_fields keys r a t)

lets_in-require_auth :
    (keys : Keys) (hash : ℕ → ℕ) (id cookie later : ℕ) (sessions : List Session) (rows : List Row)
    → HasNoApproved keys id rows
    → lets_in id (require_auth keys hash cookie later sessions rows) ≡ false
unfolding require_auth current_account
lets_in-require_auth keys hash id cookie later sessions rows h = elim (Bool-cases (cookie == 0)) [
  | inl z ↦ ground (arith, z)
  | inr nz ↦ elim (Option-cases (resolve hash cookie later sessions)) [
    | inl e ↦ ground (arith, nz, e)
    | inr (s, e) ↦ elim (Option-cases (get_account keys s.account_id rows)) [
      | inl g ↦ ground (arith, nz, e, g)
      | inr (a, g) ↦ ground (arith, nz, e, g, h s.account_id a g)
    ]
  ]
]

-- The hub takes up the kicks on the channel one after the other; the last account of them has no
-- connection left then.
run-kick_cmds :
    (id : ℕ) (ids : List ℕ) (h : Hub)
    → Inv h
    → tally (of_account id) (run h (kick_cmds (ids ++ id ∷ []))).0.clients ≡ 0
unfolding run kick_cmds step
run-kick_cmds id [] h v = (kick_clears id close_unauthorized Reason.unauthorized h v).0
run-kick_cmds id (k ∷ ids) h v =
    let c = kicks k close_unauthorized Reason.unauthorized in
    run-kick_cmds id ids (step h c).0 (step-Inv h c tt v)

module _ (keys : Keys) (hash : ℕ → ℕ) (valid : ℕ → Bool) (faults : Faults) where
  -- While the hub has not stopped, a block that succeeds is a cut everywhere: with the tables as it
  -- leaves them no token lets anybody in as that account, whenever it is presented and also if revoking
  -- its sessions failed; and the account stands last on the hub's channel of kicks. A hub in whatever
  -- state that satisfies its invariant holds no connection of the account right after it has taken up
  -- what stands there.
  pub block_cuts_off :
      (actor : Account) (id now cookie later : ℕ) (w : World) (h : Hub)
      → w.stopped ≡ false
      → Inv h
      → (admin_set_status keys valid faults actor id blocked now w).1 ≡ no_content
      → let w' = (admin_set_status keys valid faults actor id blocked now w).0 in
        (lets_in id (require_auth keys hash cookie later w'.sessions w'.accounts) ≡ false)
        × (w'.kicks ≡ w.kicks ++ id ∷ [])
        × (tally (of_account id) (run h (kick_cmds w'.kicks)).0.clients ≡ 0)
  unfolding kick_account revoke_sessions
  block_cuts_off actor id now cookie later w h on v e =
      let how = blocked_how keys valid faults actor id now w e in
      let rows = (set_status id blocked now w.accounts).0 in
      let none_approved = set_status-HasNoApproved keys id now w.accounts in
      let w' = (admin_set_status keys valid faults actor id blocked now w).0 in
      let queued : w'.kicks ≡ w.kicks ++ id ∷ [] = rw how.1 (ground (arith, on)) in
      (
        rw how.1 (
            ground (
              arith,
              on,
              lets_in-require_auth keys hash id cookie later w.sessions rows none_approved,
              lets_in-require_auth keys hash id cookie later
                  (revoke_all_for_account id now w.sessions) rows none_approved,
            )),
        queued,
        subst (λ ids. tally (of_account id) (run h (kick_cmds ids)).0.clients ≡ 0) (sym queued)
            (run-kick_cmds id w.kicks h v),
      )
