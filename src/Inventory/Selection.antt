-- ===== src/Inventory/Selection.antt =====
-- Active, Verifiable, checkFresh, ActiveAt and VerifiableAt of internal/inventory/inventory.go.
use multivendor_hsm_pki.Prelude.{
  Bool, String, List, ◌&&◌, ◌||◌, not, ◌==◌, string_eq, Result, ok, ◌>>◌, refuse_if, filter,
}
use multivendor_hsm_pki.Clock.{Time, after}
use multivendor_hsm_pki.Inventory.{
  Entry, Inventory, InventoryError, expired, status_active, status_verify_only,
}

-- e.Purpose == p && e.Status == StatusActive
abbrev pub may_sign : String → Entry → Bool
may_sign p e = e.purpose == p && e.status == status_active

-- e.Purpose == p && (e.Status == StatusActive || e.Status == StatusVerifyOnly)
abbrev pub may_verify : String → Entry → Bool
may_verify p e = e.purpose == p && (e.status == status_active || e.status == status_verify_only)

unfoldable pub active : Inventory → String → List Entry
active inv p = filter (may_sign p) inv.keys

unfoldable pub verifiable : Inventory → String → List Entry
verifiable inv p = filter (may_verify p) inv.keys

unfoldable pub check_fresh : Inventory → Time → Result InventoryError (Unit {0})
check_fresh inv now = refuse_if (after now inv.valid_until) (expired inv.valid_until now)

-- `if e.ValidFrom.After(now) { continue }`
unfoldable pub started : Time → List Entry → List Entry
started now = filter (λ e. not (after e.valid_from now))

unfoldable pub verifiable_at : Inventory → String → Time → Result InventoryError (List Entry)
unfolding started
verifiable_at inv p now = do check_fresh inv now; ok (started now (verifiable inv p))

unfoldable pub active_at : Inventory → String → Time → Result InventoryError (List Entry)
unfolding started
active_at inv p now = do check_fresh inv now; ok (started now (active inv p))
