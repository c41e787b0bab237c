-- ===== src/Auth/Namespaces.antt =====
-- src/kvm_control/auth.py: the namespace, the zones and the admin right of a principal.
use vm_forgeyard.Prelude.{
  String, Bool, not, ◌&&◌, ◌||◌, Option, none, some, [], ◌∷◌, ◌==◌, if◌then◌else◌, is_some, append,
  Result, ok, err, raise_if,
}
use vm_forgeyard.Prelude.Splits.{cut}
use text.Mathlib.Text.{starts_with}
use vm_forgeyard.Auth.{AuthPrincipal, HttpError}
use vm_forgeyard.Auth.Policy.{is_in}

abbrev pub namespace_required : HttpError
namespace_required = record { status = 422; detail = "namespace is required" }

abbrev pub namespace_denied : HttpError
namespace_denied = record { status = 403; detail = "namespace denied" }

-- requested == "dev" or requested.startswith("dev.")
abbrev pub is_dev_namespace : String → Bool
is_dev_namespace requested = requested == "dev" || starts_with requested "dev."

-- The name that a developer asks for; a missing one and an empty one are refused.
unfoldable pub dev_namespace : Option String → Result HttpError String
unfolding cut append
dev_namespace none = err namespace_required
dev_namespace (some requested) =
    if requested == ""
    then err namespace_required
    else if is_dev_namespace requested
    then ok requested
    else if is_some (cut 46 requested)
    then err namespace_denied
    else ok (append "dev." requested)

-- A principal without a namespace names any.
unfoldable pub free_namespace : Option String → Result HttpError String
free_namespace none = err namespace_required
free_namespace (some requested) = if requested == "" then err namespace_required else ok requested

-- A principal with a namespace has only that one.
unfoldable pub own_namespace : String → Option String → Result HttpError String
own_namespace own none = ok own
own_namespace own (some requested) = if requested == own then ok own else err namespace_denied

unfoldable pub effective_namespace : AuthPrincipal → Option String → Result HttpError String
unfolding dev_namespace free_namespace own_namespace
effective_namespace principal requested =
    if principal.role == "dev" then dev_namespace requested else elim principal.namespace [
      | none ↦ free_namespace requested
      | some own ↦ own_namespace own requested
    ]

unfoldable pub require_zone : AuthPrincipal → String → Result HttpError (Unit {0})
require_zone principal zone =
    raise_if (not (zone == "net") && not (is_in zone principal.allowed_zones))
      (record { status = 403; detail = "zone denied" })

-- `none` is the IndexError of a principal without zones.
unfoldable pub default_zone : AuthPrincipal → Option String
default_zone principal = elim principal.allowed_zones [
  | [] ↦ none
  | zone ∷ [] ↦ some zone
  | zone ∷ (other ∷ zones) ↦ if is_in "dev" (zone ∷ other ∷ zones) then some "dev" else some zone
]

unfoldable pub require_admin : AuthPrincipal → Result HttpError AuthPrincipal
require_admin principal =
    if principal.is_admin
    then ok principal
    else err (record { status = 403; detail = "admin token required" })
