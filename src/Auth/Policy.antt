-- ===== src/Auth/Policy.antt =====
-- src/kvm_control/auth.py: the access lists of the configuration.
use vm_forgeyard.Prelude.{
  String, Bool, true, false, not, ◌&&◌, ◌||◌, Option, none, some, List, [], ◌∷◌, ◌++◌, ◌==◌,
  if◌then◌else◌, Result, ok, err,
}
use vm_forgeyard.Prelude.Rows.{any}
use vm_forgeyard.Prelude.Splits.{without_end}
use text.Mathlib.Text.{starts_with}
use vm_forgeyard.Auth.{AuthPrincipal, HttpError, AuthAclConfig, AuthConfig, IpLibrary}

abbrev pub is_empty {ℓ} : {A : Type ℓ} → List A → Bool
is_empty [] = true
is_empty (x ∷ xs) = false

abbrev pub is_in : String → List String → Bool
is_in s ss = any (λ t. t == s) ss

-- A pattern with a star at its end matches the names that begin with the rest.
unfoldable pub star_matches : Option String → String → Bool
star_matches none username = false
star_matches (some start) username = starts_with username start

unfoldable pub principal_matches : List String → String → String → Bool
unfolding star_matches without_end
principal_matches [] username role = false
principal_matches (pattern ∷ patterns) username role =
    ((pattern == username || pattern == role) || star_matches (without_end 42 pattern) username)
    || principal_matches patterns username role

-- A network that cannot be read counts as one that does not contain the address.
abbrev pub contains : Option Bool → Bool
contains none = false
contains (some b) = b

unfoldable pub ip_in_cidrs : IpLibrary → String → List String → Bool
ip_in_cidrs ip value cidrs =
    not (is_empty cidrs)
    && (ip.is_address value && any (λ cidr. contains (ip.in_network value cidr)) cidrs)

-- Append the entries that are not there yet, one by one.
unfoldable pub merge : List String → List String → List String
merge all [] = all
merge all (s ∷ ss) = merge (if is_in s all then all else all ++ s ∷ []) ss

-- The two tests that the loop makes of an access list before it merges it.
unfoldable pub acl_applies : IpLibrary → String → String → String → AuthAclConfig → Bool
unfolding principal_matches ip_in_cidrs
acl_applies ip username role source_ip acl =
    principal_matches acl.users username role
    && (is_empty acl.source_cidrs || ip_in_cidrs ip source_ip acl.source_cidrs)

-- The loop, with the zones and capabilities so far.
unfoldable pub merge_acls :
    IpLibrary
    → String
    → String
    → String
    → List String × List String
    → List AuthAclConfig
    → List String × List String
unfolding acl_applies merge
merge_acls ip username role source_ip found [] = found
merge_acls ip username role source_ip found (acl ∷ acls) =
    merge_acls ip username role source_ip
      (if acl_applies ip username role source_ip acl
        then (merge found.0 acl.zones, merge found.1 acl.capabilities)
        else found)
      acls

unfoldable pub acl_policy_for_principal :
    IpLibrary → List AuthAclConfig → String → String → String → List String × List String
unfolding merge_acls
acl_policy_for_principal ip acls username role source_ip =
    merge_acls ip username role source_ip ([], []) acls

unfoldable pub with_acl_or_403 :
    IpLibrary → AuthConfig → AuthPrincipal → String → Result HttpError AuthPrincipal
unfolding acl_policy_for_principal
with_acl_or_403 ip config principal source_ip =
    let policy =
      acl_policy_for_principal ip config.acl principal.username principal.role source_ip in
    if is_empty policy.0
    then err (record { status = 403; detail = "access denied" })
    else ok (record principal {
      allowed_zones = policy.0;
      capabilities = policy.1;
      source_ip = source_ip;
    })
