-- ===== src/Firewall/Laws.antt =====
-- What a refused rule does to the host: nothing.
use power_manage_sdk.Firewall.{FirewallError, Rule, Addresses, validate_rule}
use power_manage_sdk.Exec.Host.{Runner}
use power_manage_sdk.Firewall.Nftables as Nftables
use power_manage_sdk.Firewall.Nftables.Listing.{Json}
use power_manage_sdk.Firewall.Firewalld as Firewalld
use power_manage_sdk.Firewall.Firewalld.{Files}
use power_manage_sdk.Firewall.Firewalld.Service.{firewalld_validate_rule}
use power_manage_sdk.Firewall.Ufw as Ufw
use power_manage_sdk.Firewall.Ufw.Args.{ufw_build_add_args}
use power_manage_sdk.Prelude.{◌≡◌, refl, Bytes, ok, err}

module _ {W : Type 0} (runner : Runner W) (net : Addresses) (json : Json) (files : Files W) where
  -- A rule that the shared validation refuses reaches no tool of any backend: the host is as it
  -- was, and the caller has the validator's error.
  pub apply_rule_refused :
      (w : W) (ns : Bytes) (rule : Rule) (why : FirewallError)
      → validate_rule net rule ≡ err why
      → (Nftables.apply_rule runner net json ns rule w ≡ (w, err why))
        × (Firewalld.apply_rule runner files net ns rule w ≡ (w, err why))
        × (Ufw.apply_rule runner net ns rule w ≡ (w, err why))
  unfolding Nftables.apply_rule Firewalld.apply_rule Ufw.apply_rule
  apply_rule_refused w ns rule why h = (rw h refl, rw h refl, rw h refl)

  -- Nor does a rule outside the scope of firewalld, or of ufw.
  pub apply_rule_out_of_scope :
      (w : W) (ns : Bytes) (rule : Rule) (why because : FirewallError)
      → validate_rule net rule ≡ ok tt
      → firewalld_validate_rule rule ≡ err why
      → ufw_build_add_args ns rule ≡ err because
      → (Firewalld.apply_rule runner files net ns rule w ≡ (w, err why))
        × (Ufw.apply_rule runner net ns rule w ≡ (w, err because))
  unfolding Firewalld.apply_rule Ufw.apply_rule
  apply_rule_out_of_scope w ns rule why because valid f u = (rw (valid, f) refl, rw (valid, u) refl)
