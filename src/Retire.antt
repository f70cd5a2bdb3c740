-- ===== src/Retire.antt =====
-- cmd/hsm-pki-keytool/retire.go: the decision from the inventory that a key may be retired, and its
-- destruction. `Desk` has the operations of VendorAdapter around a session; loginAs of role.go is
-- its login.
pub mod Listed
pub mod Ended
pub mod Tests
use multivendor_hsm_pki.Prelude.{
  ℕ, ◌≡◌, Bool, true, false, not, String, Option, none, some, List, [], ◌∷◌, ◌==◌, string_eq,
  Result, ok, err, if◌then◌else◌,
}
use multivendor_hsm_pki.Inventory.{
  Entry, Inventory, InventoryError, EcdsaKey, status_active, status_verify_only, status_retired,
}
use multivendor_hsm_pki.Pkcs11.{EcCurve, PkcsError, Token}
use multivendor_hsm_pki.SigningKey.{Points, Key, KeyError, load, same_key}
use multivendor_hsm_pki.SigningKey.Destroy.{Destroyed, none_destroyed, destroy}

pub data RetireError : Type 0 where
  cannot_read already_logged_in no_pin : RetireError
  bad_inventory : InventoryError → RetireError
  still_active already_retired not_listed other_key : String → RetireError
  unknown_status : String → String → RetireError
  login_failed session_failed close_failed logout_failed : PkcsError → RetireError
  key : KeyError → RetireError

-- The switch on the status of the entry that carries the label.
unfoldable pub by_status : String → Entry → Result RetireError Entry
by_status label e =
    if e.status == status_verify_only
    then ok e
    else if e.status == status_active
    then err (still_active label)
    else if e.status == status_retired
    then err (already_retired label)
    else err (unknown_status label e.status)

-- The loop over the keys: the first entry with the label decides.
unfoldable pub find_entry : String → List Entry → Result RetireError Entry
find_entry label [] = err (not_listed label)
find_entry label (e ∷ es) =
    let rest = find_entry label es in if not (e.label == label) then rest else by_status label e

-- retirableEntry; `none` is a file that cannot be read, and the parser that of the inventory
unfoldable pub retirable_entry :
    {Bytes : Type 0}
    → (Bytes → Result InventoryError Inventory)
    → Option Bytes
    → String
    → Result RetireError Entry
retirable_entry parse none label = err cannot_read
retirable_entry parse (some data_read) label = elim (parse data_read) [
  | err e ↦ err (bad_inventory e)
  | ok inv ↦ find_entry label inv.keys
]

pub record Desk (t : Token) : Type 0 where
  pub token_logged_in : t.S → Bool
  pub login : List ℕ → t.S → Result PkcsError (Unit {0}) × t.S
  pub logout : t.S → Result PkcsError (Unit {0}) × t.S
  pub open_session : t.S → Result PkcsError (Unit {0}) × t.S
  pub close_session : t.S → Result PkcsError (Unit {0}) × t.S

abbrev pub Outcome : Token → Type 0
Outcome t = (Result RetireError (Unit {0}) × Destroyed) × t.S

-- `if laterErr != nil && err == nil`
abbrev pub keep_first :
    Result RetireError (Unit {0})
    → Result PkcsError (Unit {0})
    → (PkcsError → RetireError)
    → Result RetireError (Unit {0})
keep_first (err e) later as_error = err e
keep_first (ok _) (err e) as_error = err (as_error e)
keep_first (ok _) (ok _) as_error = ok tt

module _ (t : Token) (desk : Desk t) where
  -- A deferred call, after what is returned is set.
  abbrev pub deferred :
      (t.S → Result PkcsError (Unit {0}) × t.S) → (PkcsError → RetireError) → Outcome t → Outcome t
  deferred call as_error ((r, done), s) =
      let (later, s') = call s in ((keep_first r later as_error, done), s')

  abbrev pub failed : RetireError → t.S → Outcome t
  failed e s = ((err e, none_destroyed), s)

  abbrev pub as_outcome : (Result KeyError (Unit {0}) × Destroyed) × t.S → Outcome t
  as_outcome ((ok _, done), s) = ((ok tt, done), s)
  as_outcome ((err e, done), s) = ((err (key e), done), s)

  -- The comparison with the listed key, and the destruction.
  abbrev pub destroy_same : String → Option EcdsaKey → Result KeyError Key × t.S → Outcome t
  destroy_same label listed (err e, s) = failed (key e) s
  destroy_same label listed (ok on_token, s) =
      let gone = as_outcome (destroy t label s) in
      if not (same_key (some on_token.public) listed) then failed (other_key label) s else gone

  module _ (points : Points) (label : String) (curve : EcCurve) (listed : Option EcdsaKey) where
    abbrev pub in_session : Result PkcsError (Unit {0}) × t.S → Outcome t
    in_session (err e, s) = failed (session_failed e) s
    in_session (ok _, s) =
        deferred desk.close_session close_failed
          (destroy_same label listed (load t points label curve s))

    abbrev pub logged_in : Result PkcsError (Unit {0}) × t.S → Outcome t
    logged_in (err e, s) = failed (login_failed e) s
    logged_in (ok _, s) = deferred desk.logout logout_failed (in_session (desk.open_session s))

    -- `none` is a PIN that does not resolve
    unfoldable pub retire_signing_key : Option (List ℕ) → t.S → Outcome t
    retire_signing_key none s =
        if desk.token_logged_in s then failed already_logged_in s else failed no_pin s
    retire_signing_key (some pin) s =
        let retired = logged_in (desk.login pin s) in
        if desk.token_logged_in s then failed already_logged_in s else retired
