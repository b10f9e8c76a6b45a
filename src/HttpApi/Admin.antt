-- ===== src/HttpApi/Admin.antt =====
-- internal/httpapi/admin.go: the handlers that change an account, over the two tables and the hub.
-- A query may fail: `Faults` says which do. `valid` is the check of a UUID's form, a library's. A kick
-- is put on the hub's channel, and the hub takes it up later, in its own loop. `forgetInGames` clears
-- the games' own state and touches none of what stands here.
use psycho_space.Prelude.{
  ℕ, Bool, ◌&&◌, not, List, [], ◌∷◌, ◌++◌, Option, none, some, if◌then◌else◌, ◌==◌,
}
use psycho_space.Account.Rows.{
  Row, Status, approved, blocked, status_eq, RepoError, already_forgotten, not_found, get_by_id,
  set_status, promote, demote,
}
use psycho_space.Account.Service.{
  Keys, Account, to_account, is_admin, is_superadmin, forget_account,
}
use psycho_space.Session.Defs.{Session, revoke_all_for_account}
use psycho_space.HttpApi.Auth.{
  Gate, unauthorized, not_approved, forbidden, passes, require_auth, require_admin,
  require_superadmin,
}
use psycho_space.Realtime.Hub.Defs.{Reason, close_unauthorized}
use psycho_space.Realtime.Hub.Step.{Cmd, kicks}

pub record World : Type 0 where
  pub accounts : List Row
  pub sessions : List Session
  pub kicks : List ℕ  -- the accounts on the hub's channel of kicks, not yet taken up, oldest first
  pub stopped : Bool  -- the hub's loop has returned: `done` is closed

pub record Faults : Type 0 where
  pub read_fails : Bool
  pub write_fails : Bool
  pub revoke_fails : Bool

pub data Response : Type 0 where
  no_content bad_request missing_account cannot_modify_self : Response
  cannot_block_superadmin cannot_modify_superadmin not_allowed gone_already internal : Response

-- What `Accounts.GetByID` answers: ErrNotFound, another error, or the account.
pub data Lookup : Type 0 where
  absent broken : Lookup
  found : Account → Lookup

abbrev pub opened : Option Account → Lookup
opened none = broken
opened (some a) = found a

module _ (keys : Keys) (valid : ℕ → Bool) (faults : Faults) where
  unfoldable pub look_up : ℕ → List Row → Lookup
  look_up id accounts =
      if faults.read_fails
      then broken
      else elim (get_by_id id accounts) [ none ↦ absent | some r ↦ opened (to_account keys r) ]

  -- `Realtime.KickAccount`: waits until the channel takes the account, or gives up where the hub has
  -- stopped.
  unfoldable pub kick_account : ℕ → World → World
  kick_account id w = if w.stopped then w else record w { kicks = w.kicks ++ id ∷ [] }

  -- `Sessions.RevokeAllForAccount`, whose failure is only logged.
  unfoldable pub revoke_sessions : ℕ → ℕ → World → World
  revoke_sessions id now w =
      if faults.revoke_fails
      then w
      else record w { sessions = revoke_all_for_account id now w.sessions }

  -- A write to the accounts: its own error or a failure is a 500 and changes nothing.
  abbrev pub written : List Row × Option RepoError → World → (World → World) → World × Response
  written (rows, none) w then_ = (then_ (record w { accounts = rows }), no_content)
  written (rows, some e) w then_ = (w, internal)

  abbrev pub write : List Row × Option RepoError → World → (World → World) → World × Response
  write result w then_ = if faults.write_fails then (w, internal) else written result w then_

  unfoldable pub cut_off : Status → ℕ → ℕ → World → World
  unfolding kick_account revoke_sessions
  cut_off status id now w =
      if status_eq status blocked then kick_account id (revoke_sessions id now w) else w

  abbrev pub set_status_of : Account → Account → ℕ → Status → ℕ → World → World × Response
  set_status_of actor target id status now w =
      if status_eq status blocked && is_superadmin target
      then (w, cannot_block_superadmin)
      else if is_admin target && not (is_superadmin actor)
      then (w, not_allowed)
      else write (set_status id status now w.accounts) w (cut_off status id now)

  -- `adminSetStatus`, for the approve and the block route.
  unfoldable pub admin_set_status : Account → ℕ → Status → ℕ → World → World × Response
  unfolding cut_off
  admin_set_status actor id status now w =
      if not (valid id)
      then (w, bad_request)
      else if status_eq status blocked && id == actor.id
      then (w, cannot_modify_self)
      else elim (look_up id w.accounts) [
        | absent ↦ (w, missing_account)
        | broken ↦ (w, internal)
        | found target ↦ set_status_of actor target id status now w
      ]

  abbrev pub anonymise : List Row × Option RepoError → World → World × Response
  anonymise (rows, none) w = (record w { accounts = rows }, no_content)
  anonymise (rows, some already_forgotten) w = (w, gone_already)
  anonymise (rows, some not_found) w = (w, internal)

  abbrev pub forget_target : ℕ → ℕ → ℕ → ℕ → World → World × Response
  forget_target id new_ref nonce now w =
      let cut = revoke_sessions id now (kick_account id w) in
      if faults.write_fails
      then (cut, internal)
      else anonymise (forget_account keys id new_ref nonce now cut.accounts) cut

  -- `handleAdminForget`
  unfoldable pub admin_forget : Account → ℕ → ℕ → ℕ → ℕ → World → World × Response
  unfolding kick_account revoke_sessions
  admin_forget actor id new_ref nonce now w =
      if not (valid id)
      then (w, bad_request)
      else if id == actor.id
      then (w, cannot_modify_self)
      else elim (look_up id w.accounts) [
        | absent ↦ (w, missing_account)
        | broken ↦ (w, internal)
        | found target ↦
            if is_superadmin target
            then (w, cannot_modify_superadmin)
            else forget_target id new_ref nonce now w
      ]

  -- `handleAdminPromote`
  unfoldable pub admin_promote : ℕ → ℕ → World → World × Response
  admin_promote id now w =
      if not (valid id) then (w, bad_request) else elim (look_up id w.accounts) [
        | absent ↦ (w, missing_account)
        | broken ↦ (w, internal)
        | found target ↦ write (promote id now w.accounts) w (λ w'. w')
      ]

  -- `handleAdminDemote`
  unfoldable pub admin_demote : ℕ → ℕ → World → World × Response
  admin_demote id now w =
      if not (valid id) then (w, bad_request) else elim (look_up id w.accounts) [
        | absent ↦ (w, missing_account)
        | broken ↦ (w, internal)
        | found target ↦
            if is_superadmin target
            then (w, cannot_modify_superadmin)
            else write (demote id now w.accounts) w (λ w'. w')
      ]

-- The commands that stand on the channel, as the hub's loop takes them up.
unfoldable pub kick_cmds : List ℕ → List Cmd
kick_cmds [] = []
kick_cmds (id ∷ ids) = kicks id close_unauthorized Reason.unauthorized ∷ kick_cmds ids

-- The five routes of /api/admin/accounts that change an account.
pub data Request : Type 0 where
  approves blocks promotes demotes : ℕ → Request
  forgets : ℕ → ℕ → ℕ → Request  -- with the random reference and the nonce that are drawn

pub data Answer : Type 0 where
  refused : Gate → Answer
  answered : Response → Answer

-- The gates in front of a route.
unfoldable pub gate_of : Request → Gate → Gate
unfolding require_admin require_superadmin
gate_of (approves id) g = require_admin g
gate_of (blocks id) g = require_admin g
gate_of (promotes id) g = require_superadmin (require_admin g)
gate_of (demotes id) g = require_superadmin (require_admin g)
gate_of (forgets id new_ref nonce) g = require_superadmin (require_admin g)

module _ (keys : Keys) (valid : ℕ → Bool) (faults : Faults) where
  unfoldable pub handle : Request → Account → ℕ → World → World × Response
  handle (approves id) actor now w = admin_set_status keys valid faults actor id approved now w
  handle (blocks id) actor now w = admin_set_status keys valid faults actor id blocked now w
  handle (promotes id) actor now w = admin_promote keys valid faults id now w
  handle (demotes id) actor now w = admin_demote keys valid faults id now w
  handle (forgets id new_ref nonce) actor now w =
      admin_forget keys valid faults actor id new_ref nonce now w

  abbrev pub past : Gate → Request → ℕ → World → World × Answer
  past (passes actor session_id) req now w =
      let (w', response) = handle req actor now w in (w', answered response)
  past unauthorized req now w = (w, refused unauthorized)
  past not_approved req now w = (w, refused not_approved)
  past forbidden req now w = (w, refused forbidden)

  unfoldable pub serve : (ℕ → ℕ) → ℕ → Request → ℕ → World → World × Answer
  serve hash cookie req now w =
      past (gate_of req (require_auth keys hash cookie now w.sessions w.accounts)) req now w
