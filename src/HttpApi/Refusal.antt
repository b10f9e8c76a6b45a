-- ===== src/HttpApi/Refusal.antt =====
-- What a refused request leaves, and who is let through.
use psycho_space.Prelude.{Option, none, some, ◌==◌, ℕ, ◌≡◌, Bool, true, false, ◌&&◌, not, arith}
use psycho_space.Account.Service.{Keys, Account, get_account}
use psycho_space.Session.Defs.{Resolved, resolve}
use psycho_space.HttpApi.Auth.{Gate, unauthorized, not_approved, forbidden, passes}
use psycho_space.HttpApi.Admin.{
  World, Faults, Response, no_content, bad_request, missing_account, cannot_modify_self,
  cannot_block_superadmin, cannot_modify_superadmin, not_allowed, gone_already, internal,
  kick_account, revoke_sessions, cut_off, admin_set_status, admin_forget, admin_promote,
  admin_demote, Request, approves, blocks, promotes, demotes, forgets, Answer, answered, handle,
  refused,
}

abbrev pub is_done : Response → Bool
is_done no_content = true
is_done bad_request = false
is_done missing_account = false
is_done cannot_modify_self = false
is_done cannot_block_superadmin = false
is_done cannot_modify_superadmin = false
is_done not_allowed = false
is_done gone_already = false
is_done internal = false

module _ (keys : Keys) (valid : ℕ → Bool) (faults : Faults) (now : ℕ) (w : World) where
  -- A handler that answers anything but success has changed no account.
  pub refusal_keeps_accounts :
      (req : Request) (actor : Account)
      → is_done (handle keys valid faults req actor now w).1 ≡ false
      → (handle keys valid faults req actor now w).0.accounts ≡ w.accounts
  unfolding handle admin_set_status admin_forget admin_promote admin_demote cut_off kick_account
      revoke_sessions
  refusal_keeps_accounts (approves id) actor h = ground (arith, h)
  refusal_keeps_accounts (blocks id) actor h = ground (arith, h)
  refusal_keeps_accounts (promotes id) actor h = ground (arith, h)
  refusal_keeps_accounts (demotes id) actor h = ground (arith, h)
  refusal_keeps_accounts (forgets id new_ref nonce) actor h = ground (arith, h)

abbrev pub needs_superadmin : Request → Bool
needs_superadmin (approves id) = false
needs_superadmin (blocks id) = false
needs_superadmin (promotes id) = true
needs_superadmin (demotes id) = true
needs_superadmin (forgets id new_ref nonce) = true

abbrev pub is_answer : Answer → Bool
is_answer (refused g) = false
is_answer (answered r) = true

module _ (keys : Keys) (hash : ℕ → ℕ) (cookie now : ℕ) (w : World) where
  -- The account passes a test, where there is one; the account of a session; the account that a
  -- cookie opens.
  abbrev pub is_some_passing : (Account → Bool) → Option Account → Bool
  is_some_passing test none = false
  is_some_passing test (some a) = test a

  abbrev pub is_holder : (Account → Bool) → Option Resolved → Bool
  is_holder test none = false
  is_holder test (some s) = is_some_passing test (get_account keys s.account_id w.accounts)

  -- Whether a cookie is there, opens a session, and the session is of an account that passes a test.
  abbrev pub is_opened_by : (Account → Bool) → Bool
  is_opened_by test = not (cookie == 0) && is_holder test (resolve hash cookie now w.sessions)

  abbrev pub is_passed : (Account → Bool) → Gate → Bool
  is_passed test unauthorized = false
  is_passed test not_approved = false
  is_passed test forbidden = false
  is_passed test (passes actor session_id) = test actor
