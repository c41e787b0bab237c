-- ===== src/Auth/Login.antt =====
-- src/kvm_control/auth.py: how a request is authenticated.
-- `compare_digest` is equality; it raises on texts outside ASCII, which is left out.
use vm_forgeyard.Prelude.{
  ℕ, String, Bool, true, false, not, ◌&&◌, ◌||◌, Option, none, some, List, [], ◌∷◌, ◌==◌,
  if◌then◌else◌, is_some, truthy, Result, ok, err, ◌>>=◌, ◌>>◌, raise_if, or_raise,
}
use vm_forgeyard.Prelude.Splits.{cut, strip, starts_with_lower, equals_lower}
use vm_forgeyard.Auth.{
  AuthPrincipal, CredentialPrincipal, HttpError, AuthConfig, IpLibrary, Request, raise_invalid_auth,
  raise_auth_required,
}
use vm_forgeyard.Auth.Policy.{ip_in_cidrs, with_acl_or_403}
use vm_forgeyard.Auth.Secrets.{split_token}
use vm_forgeyard.Tokens.{AuthToken, get_auth_token, mark_auth_token_used}

-- The digest of a secret, and base64 followed by UTF-8 with none for an exception of either.
pub record Codecs : Type 0 where
  pub hash_token_secret : String → String
  pub b64decode : String → Option String

abbrev pub text_of : Option String → String
text_of none = ""
text_of (some s) = s

abbrev pub before_comma : String → String
before_comma s = elim (cut 44 s) [ none ↦ s | some p ↦ p.0 ]

-- The forwarded address, if it is one.
unfoldable pub forwarded_ip : IpLibrary → String → Option String → String
unfolding cut
forwarded_ip ip peer none = peer
forwarded_ip ip peer (some forwarded_for) =
    let candidate = strip (before_comma forwarded_for) in
    if not (forwarded_for == "") && ip.is_address candidate then candidate else peer

unfoldable pub resolve_source_ip : IpLibrary → AuthConfig → Request → String
unfolding forwarded_ip ip_in_cidrs
resolve_source_ip ip config request =
    let peer = text_of request.client_host in
    if ip_in_cidrs ip peer config.trusted_proxy_cidrs
    then forwarded_ip ip peer request.x_forwarded_for
    else peer

-- config.auth.enabled
abbrev pub enabled : AuthConfig → Bool
enabled config =
    (truthy config.username && truthy config.password)
    || (truthy config.admin_token || truthy config.admin_token_hash)

-- An administrator of the configuration.
abbrev pub config_admin : String → AuthPrincipal
config_admin username = record {
  username = username;
  role = "admin";
  namespace = none;
  allowed_zones = [];
  capabilities = [];
  source_ip = "";
  token_id = none;
  authenticated = true;
  is_admin = true;
  auth_mode = "enforced";
  credential_status = "valid";
  credential_principal = none;
}

abbrev pub is_value : Option String → String → Bool
is_value o s = truthy o && text_of o == s

unfoldable pub authenticate_bootstrap_admin : Codecs → AuthConfig → String → Option AuthPrincipal
authenticate_bootstrap_admin codecs config token =
    if is_value config.admin_token token
      || is_value config.admin_token_hash (codecs.hash_token_secret token)
    then some (config_admin "admin")
    else none

-- The name and password that the header decodes to, if it decodes to both.
unfoldable pub basic_credentials : Codecs → String → Option (String × String)
unfolding cut
basic_credentials codecs authorization = elim (cut 32 authorization) [
  | none ↦ none
  | some parts ↦ elim (codecs.b64decode parts.1) [ none ↦ none | some decoded ↦ cut 58 decoded ]
]

unfoldable pub check_basic :
    AuthConfig → Option (String × String) → Result HttpError (Option AuthPrincipal)
check_basic config none = ok none
check_basic config (some given) =
    if given.0 == text_of config.username && given.1 == text_of config.password
    then ok (some (config_admin given.0))
    else err raise_invalid_auth

unfoldable pub authenticate_legacy_basic :
    Codecs → AuthConfig → String → Result HttpError (Option AuthPrincipal)
unfolding basic_credentials check_basic starts_with_lower
authenticate_legacy_basic codecs config authorization =
    if not (truthy config.username) || not (truthy config.password)
    then ok none
    else if not (starts_with_lower authorization "basic ")
    then ok none
    else check_basic config (basic_credentials codecs authorization)

-- The token of bearer credentials.
unfoldable pub bearer_token : Option (String × String) → Option String
unfolding equals_lower
bearer_token none = none
bearer_token (some c) = if equals_lower c.0 "bearer" then some c.1 else none

abbrev pub token_principal : AuthToken → String → AuthPrincipal
token_principal row source_ip = record {
  username = row.username;
  role = row.role;
  namespace = row.namespace;
  allowed_zones = [];
  capabilities = [];
  source_ip = source_ip;
  token_id = some row.token_id;
  authenticated = true;
  is_admin = row.role == "admin";
  auth_mode = "enforced";
  credential_status = "valid";
  credential_principal = none;
}

-- The row of a token whose secret is right and that is not revoked.
unfoldable pub check_token : Codecs → List AuthToken → String → Result HttpError AuthToken
unfolding split_token get_auth_token
check_token codecs tokens token = do
  parts ← or_raise (split_token token) raise_invalid_auth
  row ← or_raise (get_auth_token tokens parts.0) raise_invalid_auth
  raise_if (is_some row.revoked_at) raise_invalid_auth
  raise_if (not (codecs.hash_token_secret parts.1 == row.secret_hash)) raise_invalid_auth
  ok row

-- The outcome of a login: the tokens as they are then, also when it is refused.
abbrev pub Login : Type 0
Login = List AuthToken × Result HttpError AuthPrincipal

-- A token whose row was found is marked as used before the access lists are asked.
unfoldable pub token_login :
    IpLibrary → ℕ → AuthConfig → List AuthToken → String → Result HttpError AuthToken → Login
unfolding mark_auth_token_used with_acl_or_403
token_login ip now config tokens source_ip (err e) = (tokens, err e)
token_login ip now config tokens source_ip (ok row) = (
  mark_auth_token_used now tokens row.token_id,
  with_acl_or_403 ip config (token_principal row source_ip) source_ip,
)

unfoldable pub bearer_login :
    IpLibrary → Codecs → ℕ → AuthConfig → List AuthToken → String → Option String → Login
unfolding authenticate_bootstrap_admin check_token token_login with_acl_or_403
bearer_login ip codecs now config tokens source_ip none = (tokens, err raise_auth_required)
bearer_login ip codecs now config tokens source_ip (some token) =
    elim (authenticate_bootstrap_admin codecs config token) [
      | some admin ↦ (tokens, with_acl_or_403 ip config admin source_ip)
      | none ↦ token_login ip now config tokens source_ip (check_token codecs tokens token)
    ]

-- What is raised when there are no bearer credentials.
unfoldable pub missing_credentials : Request → Bool → HttpError
missing_credentials request require_present =
    if truthy request.authorization && not require_present
    then raise_invalid_auth
    else raise_auth_required

unfoldable pub authenticate_configured_credentials :
    IpLibrary → Codecs → ℕ → AuthConfig → List AuthToken → Request → String → Bool → Login
unfolding authenticate_legacy_basic bearer_token bearer_login missing_credentials with_acl_or_403
authenticate_configured_credentials ip codecs now config tokens request source_ip require_present =
    elim (authenticate_legacy_basic codecs config (text_of request.authorization)) [
      | err e ↦ (tokens, err e)
      | ok (some basic) ↦ (tokens, with_acl_or_403 ip config basic source_ip)
      | ok none ↦ elim (bearer_token request.credentials) [
        | none ↦ (tokens, err (missing_credentials request require_present))
        | some token ↦ bearer_login ip codecs now config tokens source_ip (some token)
      ]
    ]

abbrev pub all_zones : List String
all_zones = "dev" ∷ "stage" ∷ "misc" ∷ "live" ∷ []

abbrev pub all_capabilities : List String
all_capabilities = "nested_kvm" ∷ []

abbrev pub anonymous : String → String → String → AuthPrincipal
anonymous source_ip auth_mode credential_status = record {
  username = "anonymous";
  role = "admin";
  namespace = none;
  allowed_zones = all_zones;
  capabilities = all_capabilities;
  source_ip = source_ip;
  token_id = none;
  authenticated = false;
  is_admin = true;
  auth_mode = auth_mode;
  credential_status = credential_status;
  credential_principal = none;
}

unfoldable pub credential_principal_to_dict : AuthPrincipal → CredentialPrincipal
credential_principal_to_dict principal = record {
  username = principal.username;
  role = principal.role;
  namespace = principal.namespace;
  allowed_zones = principal.allowed_zones;
  capabilities = principal.capabilities;
  source_ip = principal.source_ip;
  authenticated = principal.authenticated;
}

unfoldable pub opened : Result HttpError AuthPrincipal → Result HttpError AuthPrincipal
unfolding credential_principal_to_dict
opened (err e) = err e
opened (ok credential) = ok (record credential {
  auth_mode = "open";
  credential_status = "valid";
  credential_principal = some (credential_principal_to_dict credential);
})

unfoldable pub open_mode_principal :
    IpLibrary → Codecs → ℕ → AuthConfig → List AuthToken → Request → String → Login
unfolding authenticate_configured_credentials opened
open_mode_principal ip codecs now config tokens request source_ip =
    let login =
      authenticate_configured_credentials ip codecs now config tokens request source_ip false in
    if truthy request.authorization
    then (login.0, opened login.1)
    else (tokens, ok (anonymous source_ip "open" "missing"))

unfoldable pub authenticate_request :
    IpLibrary → Codecs → ℕ → AuthConfig → List AuthToken → Request → Login
unfolding resolve_source_ip open_mode_principal authenticate_configured_credentials
authenticate_request ip codecs now config tokens request =
    let source_ip = resolve_source_ip ip config request in
    if config.mode == "open"
    then open_mode_principal ip codecs now config tokens request source_ip
    else if not (enabled config)
    then (tokens, ok (anonymous source_ip "disabled" "disabled"))
    else authenticate_configured_credentials ip codecs now config tokens request source_ip true
