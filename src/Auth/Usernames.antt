-- ===== src/Auth/Usernames.antt =====
-- src/kvm_control/control_api.py: the usernames of tokens and the check of a self-registration key.
use vm_forgeyard.Prelude.{
  String, Bool, true, false, not, ◌&&◌, Option, none, some, List, [], ◌∷◌, ◌==◌, if◌then◌else◌,
  is_some, append, Result, ok, err, ◌>>=◌, ◌>>◌, raise_if, or_raise,
}
use text.Mathlib.Text.{starts_with}
use vm_forgeyard.Prelude.Splits.{cut, strip, starts_with_lower}
use vm_forgeyard.Auth.{AuthPrincipal, AuthConfig, HttpError, IpLibrary, Request}
use vm_forgeyard.Auth.Policy.{is_empty}
use vm_forgeyard.Auth.Secrets.{split_self_registration_key}
use vm_forgeyard.Auth.Login.{Codecs, text_of, enabled, resolve_source_ip}
use vm_forgeyard.Tokens.{RegistrationKey, get_registration_key}

-- The role that goes with a username, if there is one.
unfoldable pub role_of : String → Option String
role_of username =
    if username == "admin"
    then some "admin"
    else if username == "dev"
    then some "dev"
    else if username == "staging"
    then some "staging"
    else if username == "live"
    then some "live"
    else if starts_with username "git."
    then some "repository"
    else none

abbrev other_role : String → Option String → Bool
other_role role none = false
other_role role (some requested) = not (requested == role)

unfoldable pub role_for_username : String → Option String → Result HttpError String
unfolding role_of
role_for_username username requested_role = do
  role ← or_raise (role_of username) (record { status = 422; detail = "unsupported username" })
  raise_if (other_role role requested_role)
      (record { status = 422; detail = "role does not match username" })
  ok role

unfoldable pub namespace_for_token : String → String → Option String
namespace_for_token username role = if role == "repository" then some username else none

unfoldable pub require_admin_token : AuthConfig → AuthPrincipal → Result HttpError (Unit {0})
require_admin_token config principal = do
  raise_if (not principal.is_admin) (record { status = 403; detail = "admin token required" })
  raise_if (enabled config && not principal.authenticated)
      (record { status = 401; detail = "admin token required" })

-- A network that cannot be read raises, unless one before it has the address.
unfoldable pub source_in : IpLibrary → String → List String → Result HttpError Bool
source_in ip address [] = ok false
source_in ip address (cidr ∷ cidrs) = do
  let later = source_in ip address cidrs
  inside ←
      or_raise (ip.in_network address cidr)
        (record { status = 500; detail = "Internal Server Error" })
  (if inside then ok true else later)

unfoldable pub source_allowed : IpLibrary → String → List String → Result HttpError Bool
unfolding source_in
source_allowed ip source_ip cidrs =
    if is_empty cidrs
    then ok true
    else if not (ip.is_address source_ip)
    then ok false
    else source_in ip source_ip cidrs

abbrev key_required : HttpError
key_required = record { status = 401; detail = "repository self-registration key required" }

abbrev invalid_key : HttpError
invalid_key = record { status = 401; detail = "invalid repository self-registration key" }

-- authorization.split(" ", 1)[1].strip()
abbrev second_word : String → String
second_word authorization = elim (cut 32 authorization) [ none ↦ "" | some parts ↦ strip parts.1 ]

unfoldable pub repository_self_registration_key :
    IpLibrary
    → Codecs
    → AuthConfig
    → List RegistrationKey
    → Request
    → Result HttpError RegistrationKey
unfolding starts_with_lower split_self_registration_key get_registration_key source_allowed
    resolve_source_ip
repository_self_registration_key ip codecs config keys request = do
  let authorization = text_of request.authorization
  raise_if (not (starts_with_lower authorization "bearer ")) key_required
  parts ← or_raise (split_self_registration_key (second_word authorization)) invalid_key
  row ← or_raise (get_registration_key keys parts.0) invalid_key
  raise_if (is_some row.revoked_at) invalid_key
  raise_if (not (codecs.hash_token_secret parts.1 == row.secret_hash)) invalid_key
  allowed ← source_allowed ip (resolve_source_ip ip config request) row.source_cidrs
  raise_if (not allowed)
      (record { status = 403; detail = "repository self-registration source denied" })
  ok row

unfoldable pub repository_username : String → Result HttpError String
unfolding append
repository_username repository =
    if starts_with repository "git."
    then err (record { status = 422; detail = "repository must not include git. prefix" })
    else ok (append "git." repository)
