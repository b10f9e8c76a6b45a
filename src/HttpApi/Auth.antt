-- ===== src/HttpApi/Auth.antt =====
-- internal/httpapi/auth.go: from a cookie to an account, and the three gates in front of the handlers.
-- The database answers every query; the cookie's value is a token, and 0 stands for none.
use psycho_space.Prelude.{ℕ, List, Option, none, some, if◌then◌else◌, ◌==◌}
use psycho_space.Account.Rows.{Row}
use psycho_space.Account.Service.{Keys, Account, get_account, is_approved, is_admin, is_superadmin}
use psycho_space.Session.Defs.{Session, resolve}

pub data Gate : Type 0 where
  unauthorized not_approved forbidden : Gate
  passes : Account → ℕ → Gate

module _ (keys : Keys) (hash : ℕ → ℕ) where
  -- `currentAccount`: the account and the id of its session.
  unfoldable pub current_account : ℕ → ℕ → List Session → List Row → Option (Account × ℕ)
  current_account cookie now table accounts =
      if cookie == 0 then none else elim (resolve hash cookie now table) [
        | none ↦ none
        | some sess ↦ elim (get_account keys sess.account_id accounts) [
          | none ↦ none
          | some acc ↦ some (acc, sess.session_id)
        ]
      ]

  -- `requireAuth`
  unfoldable pub require_auth : ℕ → ℕ → List Session → List Row → Gate
  require_auth cookie now table accounts = elim (current_account cookie now table accounts) [
    | none ↦ unauthorized
    | some (acc, session_id) ↦ if is_approved acc then passes acc session_id else not_approved
  ]

-- `requireAdmin` and `requireSuperadmin`, chained after `requireAuth`.
unfoldable pub require_admin : Gate → Gate
require_admin unauthorized = unauthorized
require_admin not_approved = not_approved
require_admin forbidden = forbidden
require_admin (passes acc session_id) = if is_admin acc then passes acc session_id else forbidden

unfoldable pub require_superadmin : Gate → Gate
require_superadmin unauthorized = unauthorized
require_superadmin not_approved = not_approved
require_superadmin forbidden = forbidden
require_superadmin (passes acc session_id) =
    if is_superadmin acc then passes acc session_id else forbidden
