-- ===== src/Auth/Tests.antt =====
-- Runs of the authentication on concrete requests.
use vm_forgeyard.Prelude.{
  ◌≡◌, refl, ◌⊎◌, String, true, false, ◌&&◌, none, some, List, [], ◌∷◌, ◌==◌, ok, append,
}
use vm_forgeyard.Prelude.Rows.{any}
use vm_forgeyard.Prelude.Splits.{cut, without_end, lstrip, rstrip}
use vm_forgeyard.Auth.{AuthPrincipal, AuthAclConfig, AuthConfig, IpLibrary}
use vm_forgeyard.Auth.Policy.{
  is_in, acl_applies, acl_policy_for_principal, principal_matches, star_matches, ip_in_cidrs, merge,
  merge_acls, with_acl_or_403,
}
use vm_forgeyard.Auth.Namespaces.{effective_namespace, dev_namespace, is_dev_namespace}
use vm_forgeyard.Auth.Secrets.{
  generate_token, split_token, generate_self_registration_key, split_self_registration_key,
}
use vm_forgeyard.Auth.Login.{
  Codecs, config_admin, token_principal, authenticate_bootstrap_admin, check_token, token_login,
  bearer_login, resolve_source_ip, forwarded_ip,
}
use vm_forgeyard.Auth.RoundTrip.{tokens_round_trip}
use vm_forgeyard.Auth.Zones.{names, admits, zones_of_policy}
use vm_forgeyard.Auth.Isolation.{effective_namespace_isolates}
use vm_forgeyard.Auth.Soundness.{IsTokenOf, IsAdmitted, bearer_login_sound}
use vm_forgeyard.Tokens.{AuthToken, new_token, get_auth_token}

abbrev no_network : IpLibrary
no_network = record { is_address = λ s. false; in_network = λ s t. none }

abbrev as_is : Codecs
as_is = record { hash_token_secret = λ s. s; b64decode = λ s. some s }

abbrev git_acl : AuthAclConfig
git_acl = record { users = "git.*" ∷ []; source_cidrs = []; zones = "dev" ∷ []; capabilities = [] }

abbrev enforced : AuthConfig
enforced = record {
  mode = "enforced";
  username = none;
  password = none;
  admin_token = some "root";
  admin_token_hash = none;
  trusted_proxy_cidrs = [];
  acl = git_acl ∷ [];
}

abbrev git_tokens : List AuthToken
unfolding new_token
git_tokens = new_token 5 "ab" "git.ci" "repository" (some "git.ci") "s3" ∷ []

abbrev git_principal : AuthPrincipal
git_principal = record (config_admin "git.ci") {
  role = "repository";
  namespace = some "git.ci";
  allowed_zones = "dev" ∷ [];
  source_ip = "10.0.0.1";
  token_id = some "ab";
  is_admin = false;
}

abbrev developer : AuthPrincipal
developer = record (config_admin "dev") { role = "dev" }

git_login :
    (bearer_login no_network as_is 9 enforced git_tokens "10.0.0.1" (some "kvm_ab_s3")).1
    ≡ ok git_principal
unfolding bearer_login authenticate_bootstrap_admin check_token token_login with_acl_or_403
    split_token cut get_auth_token new_token acl_policy_for_principal merge_acls acl_applies
    principal_matches star_matches without_end merge
git_login = refl

bearer_login_sound_example :
    ((admin : AuthPrincipal) × (authenticate_bootstrap_admin as_is enforced "kvm_ab_s3"
        ≡ some admin))
    ⊎ ((row : AuthToken) × IsTokenOf as_is git_tokens "kvm_ab_s3" row
        × IsAdmitted (token_principal row "10.0.0.1") git_principal)
bearer_login_sound_example =
    bearer_login_sound no_network as_is 9 enforced git_tokens "10.0.0.1" "kvm_ab_s3" git_principal
      git_login

dev_asks : effective_namespace developer (some "web") ≡ ok "dev.web"
unfolding effective_namespace dev_namespace cut append
dev_asks = refl

effective_namespace_isolates_example :
    ((developer.role == "dev") ≡ true → is_dev_namespace "dev.web" ≡ true)
    × ((own : String)
        → (developer.role == "dev") ≡ false
        → developer.namespace ≡ some own
        → "dev.web" ≡ own)
    × (effective_namespace developer (some "dev.web") ≡ ok "dev.web")
effective_namespace_isolates_example =
    effective_namespace_isolates developer (some "web") "dev.web" dev_asks

zones_of_policy_example :
    is_in "dev" (acl_policy_for_principal no_network (git_acl ∷ []) "git.ci" "repository" "x").0
    ≡ any
        (λ acl.
          (names "git.ci" "repository" acl && admits no_network "x" acl) && is_in "dev" acl.zones)
        (git_acl ∷ [])
zones_of_policy_example = zones_of_policy no_network (git_acl ∷ []) "git.ci" "repository" "x" "dev"

plain_id : cut 95 "ab" ≡ none
unfolding cut
plain_id = refl

tokens_round_trip_example :
    (split_token (generate_token "ab" "s_3") ≡ some ("ab", "s_3"))
    × (split_self_registration_key (generate_self_registration_key "ab" "s_3") ≡ some ("ab", "s_3"))
tokens_round_trip_example = tokens_round_trip "ab" "s_3" plain_id refl refl

-- A request of a trusted proxy is one of the forwarded address.
abbrev any_network : IpLibrary
any_network = record { is_address = λ s. true; in_network = λ s t. some true }

proxied :
    resolve_source_ip any_network
      (record enforced { trusted_proxy_cidrs = "10.0.0.0/8" ∷ [] })
      (record {
        client_host = some "10.0.0.9";
        authorization = none;
        x_forwarded_for = some " 1.2.3.4 , 5.6.7.8";
        credentials = none;
      })
    ≡ "1.2.3.4"
unfolding resolve_source_ip forwarded_ip ip_in_cidrs cut lstrip rstrip
proxied = refl
