-- ===== src/Tui/Update/Accounts.antt =====
-- The arms of `update` in src/tui/app.rs for accounts.
use ichr.Base.{
  not, Option, none, some, List, [], ◌∷◌, map, find, filter, Text, codes, text_eq, ℕ, if◌then◌else◌,
}
use ichr.Domain.Account.{Account}
use ichr.Tui.View.{
  ActiveView, accounts_list, add_account_device_code, account_auth_failed, default_view,
}
use ichr.Tui.Effect.{fetch_accounts, remove_account, activate_account}
use ichr.Tui.State.{AppState, Step, ViewStep, Token, cancel}

abbrev pub open_accounts_arm : ViewStep
open_accounts_arm = (accounts_list 0, fetch_accounts ∷ [])

-- `add_account_cancel.take()`, the token cancelled, and the view shown after.
abbrev pub stop_adding : AppState → ActiveView → Step
stop_adding s view = (
  record s {
    cancelled = cancel s.add_account_cancel s.cancelled;
    add_account_cancel = none;
    active_view = view;
  },
  [],
)

abbrev pub close_accounts_arm : AppState → Step
close_accounts_arm s = stop_adding s default_view

abbrev pub id_of : Option Account → Option Text
id_of none = none
id_of (some a) = some a.id

abbrev pub accounts_loaded_arm : AppState → List Account → Step
accounts_loaded_arm s list =
    (record s { active_account_id = id_of (find (λ a. a.is_active) list); accounts = list }, [])

abbrev pub account_auth_started_arm : Text → Text → ℕ → ViewStep
account_auth_started_arm user_code verification_uri expires_at = (
  add_account_device_code (record {
    user_code = user_code;
    verification_uri = verification_uri;
    expires_at = expires_at;
    stage = codes "waiting for user";
  }),
  [],
)

abbrev pub account_auth_progress_arm : Text → ActiveView → ViewStep
account_auth_progress_arm stage (add_account_device_code code) =
    (add_account_device_code (record code { stage = stage }), [])
account_auth_progress_arm stage view = (view, [])

-- The first account with the identifier is replaced, and a new one is put last.
unfoldable pub put_account : Account → List Account → List Account
put_account account [] = account ∷ []
put_account account (a ∷ rest) =
    let others = put_account account rest in
    if text_eq a.id account.id then account ∷ rest else a ∷ others

abbrev pub account_added_arm : AppState → Account → Step
account_added_arm s account = (
  record s {
    add_account_cancel = none;
    active_account_id = if account.is_active then some account.id else s.active_account_id;
    accounts = put_account account s.accounts;
    active_view = accounts_list 0;
  },
  fetch_accounts ∷ [],
)

abbrev pub account_auth_failed_arm : AppState → Text → Step
account_auth_failed_arm s reason =
    (record s { add_account_cancel = none; active_view = account_auth_failed reason }, [])

abbrev pub cleared_if : Text → Option Text → Option Text
cleared_if id none = none
cleared_if id (some active) = if text_eq active id then none else some active

abbrev pub remove_account_arm : AppState → Text → Step
remove_account_arm s id = (
  record s {
    accounts = filter (λ a. not (text_eq a.id id)) s.accounts;
    active_account_id = cleared_if id s.active_account_id;
  },
  remove_account id ∷ [],
)

abbrev pub activated : Text → Account → Account
activated id a = record a { is_active = text_eq a.id id }

abbrev pub activate_account_arm : AppState → Text → Step
activate_account_arm s id = (
  record s { accounts = map (activated id) s.accounts; active_account_id = some id },
  activate_account id ∷ [],
)

abbrev pub cancel_add_account_arm : AppState → Step
cancel_add_account_arm s = stop_adding s (accounts_list 0)

abbrev pub add_account_token_created_arm : AppState → Token → Step
add_account_token_created_arm s token = (record s { add_account_cancel = some token }, [])
