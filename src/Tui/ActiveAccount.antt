-- ===== src/Tui/ActiveAccount.antt =====
-- The active account of src/tui/app.rs is one of the accounts listed.
use ichr.Base.{
  Option, none, some, Bool, true, false, not, ◌||◌, Text, text_eq, text_eq_iff, text_eq_refl, List,
  [], ◌∷◌, map, filter, find, ◌≡◌, refl, arith,
}
use ichr.Domain.Account.{Account}
use ichr.Tui.State.{AppState}
use ichr.Tui.Action.{Action, on_accounts, activate_account}
use ichr.Tui.Update.Accounts.{put_account, id_of, activated}
use ichr.Tui.Update.Step.{update}

abbrev pub is_listed : List Account → Text → Bool
is_listed [] id = false
is_listed (a ∷ rest) id = text_eq a.id id || is_listed rest id

abbrev pub ActiveListed : Option Text → List Account → Type 0
ActiveListed none accounts = Unit
ActiveListed (some id) accounts = is_listed accounts id ≡ true

listed-find :
    (accounts : List Account) → ActiveListed (id_of (find (λ a. a.is_active) accounts)) accounts
listed-find [] = tt
listed-find (a ∷ rest) = grind (arith, listed-find rest, text_eq_refl)

listed-put_account :
    (account : Account) (accounts : List Account) (id : Text)
    → (is_listed accounts id || text_eq account.id id) ≡ is_listed (put_account account accounts) id
unfolding put_account
listed-put_account account [] id = ground arith
listed-put_account account (a ∷ rest) id =
    grind (arith, listed-put_account account rest id, text_eq_iff)

listed-activated :
    (who : Text) (accounts : List Account) (id : Text)
    → is_listed (map (activated who) accounts) id ≡ is_listed accounts id
listed-activated who [] id = refl
listed-activated who (a ∷ rest) id = ground (arith, listed-activated who rest id)

listed-filter :
    (who : Text) (accounts : List Account) (id : Text)
    → text_eq id who ≡ false
    → is_listed (filter (λ a. not (text_eq a.id who)) accounts) id ≡ is_listed accounts id
listed-filter who [] id h = refl
listed-filter who (a ∷ rest) id h = grind (arith, listed-filter who rest id h, text_eq_iff a.id id)

-- What the interface asks for: an account is activated from the list.
abbrev pub FromList : AppState → Action → Type 0
FromList s (on_accounts (activate_account id)) = is_listed s.accounts id ≡ true
FromList s _ = Unit

abbrev pub ActiveIsListed : AppState → Type 0
ActiveIsListed s = ActiveListed s.active_account_id s.accounts

-- The active account stays one of those listed under every action, where the account that an
-- action activates is listed.
pub update-ActiveIsListed :
    (home : Option Text) (s : AppState) (a : Action)
    → FromList s a
    → ActiveIsListed s
    → ActiveIsListed (update home s a).0
unfolding update
update-ActiveIsListed home s a listed h = grind (
  arith, listed-find, listed-put_account, listed-activated, listed-filter, text_eq_iff,
  text_eq_refl,
)
