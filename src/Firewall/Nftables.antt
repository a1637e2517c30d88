-- ===== src/Firewall/Nftables.antt =====
-- sys/firewall/nftables.go: a table of its own for each namespace, which scripts for nft change.
pub mod Script
pub mod Listing
pub mod Plain
pub mod Lines
use power_manage_sdk.Prelude.Actions.{Action, ◌>>=◌, ◌>>◌, pure, attempt}
use power_manage_sdk.Firewall.{
  FirewallError, not_provisioned, Rule, Addresses, validate_rule, validate_rule_id,
}
use power_manage_sdk.Exec.Host.{Runner}
use power_manage_sdk.Firewall.Host.{run, run_stdin, is_no_table}
use power_manage_sdk.Firewall.Nftables.Script.{
  nft_family, nft_table_name, with_newline, delete_rule, nft_build_apply_script_strict,
}
use power_manage_sdk.Firewall.Nftables.Listing.{Json, nft_parse_rules, nft_find_rule_handle}
use power_manage_sdk.Prelude.{
  Option, none, some, List, [], ◌∷◌, ◌++◌, Bytes, codes, if◌then◌else◌, ℤ, pos, Result, ok, err,
}

module _ {W : Type 0} (runner : Runner W) (net : Addresses) (json : Json) where
  -- `nftListJSON`.
  unfoldable pub nft_list_json : Bytes → Action W FirewallError Bytes
  nft_list_json ns =
      run runner (codes "nft")
        (codes "-j" ∷ codes "list" ∷ codes "table" ∷ nft_family ∷ nft_table_name ns ∷ [])
      >>= λ res. pure (ok res.stdout)

  -- `nftRunScript`.
  unfoldable pub nft_run_script : Bytes → Action W FirewallError (Unit {0})
  nft_run_script script =
      run_stdin runner script (codes "nft") (codes "-f" ∷ codes "-" ∷ []) >>= λ _. pure (ok tt)

  abbrev handle_or_zero : Option ℤ → ℤ
  handle_or_zero none = pos 0
  handle_or_zero (some handle) = handle

  -- The handle to replace: none where the table cannot be listed.
  abbrev pub previous_handle : Bytes → Result FirewallError Bytes → ℤ
  previous_handle id (err _) = pos 0
  previous_handle id (ok raw) = handle_or_zero (nft_find_rule_handle json raw id)

  -- `ApplyRule`.
  unfoldable pub apply_rule : Bytes → Rule → Action W FirewallError (Unit {0})
  apply_rule ns rule = do
    pure (validate_rule net rule)
    listed ← attempt (nft_list_json ns)
    script ← pure (nft_build_apply_script_strict net ns rule (previous_handle rule.id listed))
    nft_run_script script

  abbrev delete_found : Bytes → Option ℤ → Action W FirewallError (Unit {0})
  delete_found ns none = pure (ok tt)
  delete_found ns (some handle) = nft_run_script (with_newline (delete_rule ns handle))

  abbrev remove_listed :
      Bytes → Bytes → Result FirewallError Bytes → Action W FirewallError (Unit {0})
  remove_listed ns id (err why) = pure (if is_no_table why then ok tt else err why)
  remove_listed ns id (ok raw) = delete_found ns (nft_find_rule_handle json raw id)

  -- `RemoveRule`.
  unfoldable pub remove_rule : Bytes → Bytes → Action W FirewallError (Unit {0})
  remove_rule ns id = do
    pure (validate_rule_id id)
    listed ← attempt (nft_list_json ns)
    remove_listed ns id listed

  abbrev rules_listed : Result FirewallError Bytes → Action W FirewallError (List Rule)
  rules_listed (err why) = pure (err (if is_no_table why then not_provisioned else why))
  rules_listed (ok raw) = pure (nft_parse_rules json raw)

  -- `List`.
  unfoldable pub list : Bytes → Action W FirewallError (List Rule)
  list ns = do listed ← attempt (nft_list_json ns); rules_listed listed
