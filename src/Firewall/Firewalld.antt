-- ===== src/Firewall/Firewalld.antt =====
-- sys/firewall/firewalld.go: one service definition for each rule, enabled in the default zone.
pub mod Service
pub mod ReadBack
pub mod Namespaces
use power_manage_sdk.Paths.Clean.{clean}
use power_manage_sdk.Prelude.Actions.{Action, ◌>>=◌, ◌>>◌, pure}
use power_manage_sdk.Firewall.{
  FirewallError, no_default_zone, fs_failed, Rule, Addresses, validate_rule, validate_rule_id,
}
use power_manage_sdk.Exec.Host.{Runner}
use power_manage_sdk.Firewall.Host.{run}
use power_manage_sdk.Firewall.Firewalld.Service.{
  firewalld_service_name, firewalld_validate_rule, firewalld_service_xml,
  firewalld_filter_namespace_services, firewalld_read_service_rule, service_path,
}
use power_manage_sdk.Prelude.{
  Bool, true, false, Option, none, some, List, [], ◌∷◌, ◌++◌, Bytes, codes, member, is_empty,
  fields, trim_space, if◌then◌else◌, Result, ok, err,
}

-- The file manager and `readFile`: what they do to the world, and whether they succeed.
pub record Files (W : Type 0) : Type 0 where
  pub write_file : W → (path content : Bytes) → W × Bool
  pub remove : W → (path : Bytes) → W × Bool
  pub read_file : W → (path : Bytes) → Option Bytes

module _ {W : Type 0} (runner : Runner W) (files : Files W) where
  abbrev checked : W × Bool → W × Result FirewallError (Unit {0})
  checked (w, true) = (w, ok tt)
  checked (w, false) = (w, err fs_failed)

  abbrev write_file : Bytes → Bytes → Action W FirewallError (Unit {0})
  write_file path content w = checked (files.write_file w path content)

  abbrev remove_file : Bytes → Action W FirewallError (Unit {0})
  remove_file path w = checked (files.remove w path)

  abbrev firewall_cmd : List Bytes → Action W FirewallError (Unit {0})
  firewall_cmd args = run runner (codes "firewall-cmd") args >>= λ _. pure (ok tt)

  abbrev pub zone_args : Bytes → Bytes → List Bytes
  zone_args zone last = codes "--permanent" ∷ (codes "--zone=" ++ zone) ∷ last ∷ []

  abbrev zone_of : Bytes → Result FirewallError Bytes
  zone_of zone = if is_empty zone then err no_default_zone else ok zone

  -- `firewalldDefaultZone`.
  unfoldable pub firewalld_default_zone : Action W FirewallError Bytes
  firewalld_default_zone =
      run runner (codes "firewall-cmd") (codes "--get-default-zone" ∷ []) >>= λ res.
      pure (zone_of (trim_space res.stdout))

  -- `firewalldServiceIsEnabled`.
  unfoldable pub firewalld_service_is_enabled : Bytes → Bytes → Action W FirewallError Bool
  firewalld_service_is_enabled zone svc =
      run runner (codes "firewall-cmd") (zone_args zone (codes "--list-services")) >>= λ res.
      pure (ok (member svc (fields res.stdout)))

  -- `ApplyRule`.
  unfoldable pub apply_rule : Addresses → Bytes → Rule → Action W FirewallError (Unit {0})
  apply_rule net ns rule = do
    pure (validate_rule net rule)
    pure (firewalld_validate_rule rule)
    zone ← firewalld_default_zone
    write_file (service_path (firewalld_service_name ns rule.id)) (firewalld_service_xml ns rule)
    firewall_cmd (codes "--reload" ∷ [])
    firewall_cmd (zone_args zone (codes "--add-service=" ++ firewalld_service_name ns rule.id))
    firewall_cmd (codes "--reload" ∷ [])

  abbrev disable : Bool → Bytes → Bytes → Action W FirewallError (Unit {0})
  disable false zone svc = pure (ok tt)
  disable true zone svc = firewall_cmd (zone_args zone (codes "--remove-service=" ++ svc))

  -- `RemoveRule`.
  unfoldable pub remove_rule : Bytes → Bytes → Action W FirewallError (Unit {0})
  remove_rule ns id = do
    pure (validate_rule_id id)
    zone ← firewalld_default_zone
    enabled ← firewalld_service_is_enabled zone (firewalld_service_name ns id)
    disable enabled zone (firewalld_service_name ns id)
    remove_file (service_path (firewalld_service_name ns id))
    firewall_cmd (codes "--reload" ∷ [])

  abbrev kept : Option Rule → List Rule → List Rule
  kept none rules = rules
  kept (some rule) rules = rule ∷ rules

  -- The loop of List.
  abbrev pub read_rules : W → Bytes → List Bytes → List Rule
  read_rules w ns [] = []
  read_rules w ns (id ∷ ids) =
      kept (firewalld_read_service_rule (files.read_file w) ns id) (read_rules w ns ids)

  -- `List`; reading the definitions changes nothing.
  unfoldable pub list : Bytes → Action W FirewallError (List Rule)
  list ns = do
    zone ← firewalld_default_zone
    res ← run runner (codes "firewall-cmd") (zone_args zone (codes "--list-services"))
    λ w. (w, ok (read_rules w ns (firewalld_filter_namespace_services res.stdout ns)))
