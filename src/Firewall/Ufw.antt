-- ===== src/Firewall/Ufw.antt =====
-- sys/firewall/ufw.go: rules by the ufw command, found again by their comment.
pub mod Args
pub mod Status
pub mod Operands
pub mod Identity
use power_manage_sdk.Prelude.Actions.{Action, ◌>>=◌, ◌>>◌, pure, attempt}
use power_manage_sdk.Firewall.{FirewallError, Rule, Addresses, validate_rule, validate_rule_id}
use power_manage_sdk.Exec.Host.{Runner}
use power_manage_sdk.Firewall.Host.{run}
use power_manage_sdk.Firewall.Ufw.Args.{ufw_build_add_args}
use power_manage_sdk.Firewall.Ufw.Status.{ufw_find_rule_number, ufw_parse_status}
use power_manage_sdk.Prelude.{
  Option, none, some, List, [], ◌∷◌, Bytes, codes, ℤ, itoa, Result, ok, err,
}

module _ {W : Type 0} (runner : Runner W) where
  -- `ufwStatusNumbered`.
  unfoldable pub ufw_status_numbered : Action W FirewallError Bytes
  ufw_status_numbered = run runner (codes "ufw") (codes "status" ∷ codes "numbered" ∷ []) >>= λ res.
      pure (ok res.stdout)

  -- `ufwDeleteByNumber`.
  unfoldable pub ufw_delete_by_number : ℤ → Action W FirewallError (Unit {0})
  ufw_delete_by_number num =
      run runner (codes "ufw") (codes "--force" ∷ codes "delete" ∷ itoa num ∷ []) >>= λ _.
      pure (ok tt)

  abbrev delete_numbered : Option ℤ → Action W FirewallError (Unit {0})
  delete_numbered none = pure (ok tt)
  delete_numbered (some num) = ufw_delete_by_number num

  -- The previous rule of that name goes, where the status tells its number.
  abbrev delete_previous :
      Bytes → Bytes → Result FirewallError Bytes → Action W FirewallError (Unit {0})
  delete_previous ns id (err _) = pure (ok tt)
  delete_previous ns id (ok status) = delete_numbered (ufw_find_rule_number status ns id)

  -- `ApplyRule`.
  unfoldable pub apply_rule : Addresses → Bytes → Rule → Action W FirewallError (Unit {0})
  apply_rule net ns rule = do
    pure (validate_rule net rule)
    args ← pure (ufw_build_add_args ns rule)
    status ← attempt ufw_status_numbered
    delete_previous ns rule.id status
    _ ← run runner (codes "ufw") args
    pure (ok tt)

  -- `RemoveRule`: where there is no status, there is nothing to remove.
  unfoldable pub remove_rule : Bytes → Bytes → Action W FirewallError (Unit {0})
  remove_rule ns id = do
    pure (validate_rule_id id)
    status ← attempt ufw_status_numbered
    delete_previous ns id status

  -- `List`.
  unfoldable pub list : Bytes → Action W FirewallError (List Rule)
  list ns = ufw_status_numbered >>= λ status. pure (ok (ufw_parse_status status ns))
