-- ===== src/Auth/Secrets.antt =====
-- src/kvm_control/auth.py: the texts of tokens and self-registration keys.
use vm_forgeyard.Prelude.{String, ◌||◌, Option, none, some, [], ◌∷◌, ◌==◌, fstring, if◌then◌else◌}
use vm_forgeyard.Prelude.Splits.{cut}
use text.Mathlib.Text.{starts_with}

-- The token of an id and a secret, which the source draws at random.
unfoldable pub generate_token : String → String → String
unfolding fstring
generate_token token_id secret = fstring ("kvm_" ∷ token_id ∷ "_" ∷ secret ∷ [])

unfoldable pub generate_self_registration_key : String → String → String
unfolding fstring
generate_self_registration_key key_id secret = fstring ("kvmreg_" ∷ key_id ∷ "_" ∷ secret ∷ [])

-- not parts[1] or not parts[2]
abbrev both_filled : String × String → Option (String × String)
both_filled p = if p.0 == "" || p.1 == "" then none else some p

-- parts[1] and parts[2] of token.split("_", 2), if there are three parts.
abbrev pub last_parts : String → Option (String × String)
last_parts token = elim (cut 95 token) [
  | none ↦ none
  | some p ↦ elim (cut 95 p.1) [ none ↦ none | some q ↦ both_filled q ]
]

unfoldable pub split_token : String → Option (String × String)
unfolding cut
split_token token = if starts_with token "kvm_" then last_parts token else none

unfoldable pub split_self_registration_key : String → Option (String × String)
unfolding cut
split_self_registration_key token = if starts_with token "kvmreg_" then last_parts token else none
