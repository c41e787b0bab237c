-- ===== src/Auth.antt =====
-- src/kvm_control/auth.py: who a request comes from, and what it may do.
-- The hash of secrets, base64 and the `ipaddress` library are parameters.
pub mod Secrets
pub mod Policy
pub mod Namespaces
pub mod Login
pub mod Usernames
pub mod RoundTrip
pub mod Zones
pub mod Isolation
pub mod Soundness
mod Tests
use vm_forgeyard.Prelude.{ℕ, String, Bool, Option, List, Result}

-- The fields that `_credential_principal_to_dict` keeps.
pub record CredentialPrincipal : Type 0 where
  pub username : String
  pub role : String
  pub namespace : Option String
  pub allowed_zones : List String
  pub capabilities : List String
  pub source_ip : String
  pub authenticated : Bool

pub record AuthPrincipal : Type 0 where
  pub username : String
  pub role : String
  pub namespace : Option String
  pub allowed_zones : List String
  pub capabilities : List String
  pub source_ip : String
  pub token_id : Option String
  pub authenticated : Bool
  pub is_admin : Bool
  pub auth_mode : String
  pub credential_status : String
  pub credential_principal : Option CredentialPrincipal

pub record HttpError : Type 0 where
  pub status : ℕ
  pub detail : String

pub record AuthAclConfig : Type 0 where
  pub users : List String
  pub source_cidrs : List String
  pub zones : List String
  pub capabilities : List String

pub record AuthConfig : Type 0 where
  pub mode : String
  pub username : Option String
  pub password : Option String
  pub admin_token : Option String
  pub admin_token_hash : Option String
  pub trusted_proxy_cidrs : List String
  pub acl : List AuthAclConfig

-- The `ipaddress` library: whether a text is an address, and whether an address is in a network,
-- with none for the ValueError of a text that is no network.
pub record IpLibrary : Type 0 where
  pub is_address : String → Bool
  pub in_network : String → String → Option Bool

-- The two headers that are read, and the credentials that FastAPI's bearer scheme makes of the first.
pub record Request : Type 0 where
  pub client_host : Option String
  pub authorization : Option String
  pub x_forwarded_for : Option String
  pub credentials : Option (String × String)

abbrev pub raise_invalid_auth : HttpError
raise_invalid_auth = record { status = 401; detail = "invalid credentials" }

abbrev pub raise_auth_required : HttpError
raise_auth_required = record { status = 401; detail = "authentication required" }
