-- ===== src/Auth/RoundTrip.antt =====
-- The texts of tokens are read back as what they were made of.
use text.Mathlib.TextLemmas.{append_assoc, append-nil}
use text.Mathlib.TextPositions.{starts_with-append}
use vm_forgeyard.Prelude.{
  ◌≡◌, refl, ap, ◌∙◌, String, true, false, none, some, List, [], ◌∷◌, ◌==◌, append, fstring,
}
use vm_forgeyard.Prelude.Splits.{cut, cut-underscore}
use text.Mathlib.Text.{starts_with}
use vm_forgeyard.Auth.Secrets.{
  generate_token, generate_self_registration_key, last_parts, split_token,
  split_self_registration_key,
}

parts_of :
    (kind id secret : String)
    → cut 95 kind ≡ none
    → cut 95 id ≡ none
    → (id == "") ≡ false
    → (secret == "") ≡ false
    → last_parts (append kind (append "_" (append id (append "_" secret)))) ≡ some (id, secret)
unfolding append
parts_of kind id secret h k e f = rw (
  last_parts,
  cut-underscore kind (append id (append "_" secret)) h,
  cut-underscore id secret k,
  e,
  f,
)

starts_with-fstring : (s : String) (ss : List String) → starts_with (fstring (s ∷ ss)) s ≡ true
unfolding fstring append
starts_with-fstring s ss = starts_with-append s (fstring ss)

-- The text of both kinds, cut into the parts of the split.
rejoined :
    (kind id secret : String)
    → fstring (append kind "_" ∷ id ∷ "_" ∷ secret ∷ [])
      ≡ append kind (append "_" (append id (append "_" secret)))
unfolding fstring append
rejoined kind id secret =
    append_assoc kind "_" (append id (append "_" (append secret "")))
    ∙ ap (λ x. append kind (append "_" (append id (append "_" x)))) (append-nil secret)

-- A token of an id without an underscore is split into that id and its secret, and so is a
-- self-registration key.
pub tokens_round_trip :
    (id secret : String)
    → cut 95 id ≡ none
    → (id == "") ≡ false
    → (secret == "") ≡ false
    → (split_token (generate_token id secret) ≡ some (id, secret))
      × (split_self_registration_key (generate_self_registration_key id secret) ≡ some (id, secret))
unfolding split_token split_self_registration_key generate_token generate_self_registration_key
tokens_round_trip id secret h e f = (
  rw (
    starts_with-fstring "kvm_" (id ∷ "_" ∷ secret ∷ []),
    rejoined "kvm" id secret,
    parts_of "kvm" id secret refl h e f,
  ),
  rw (
    starts_with-fstring "kvmreg_" (id ∷ "_" ∷ secret ∷ []),
    rejoined "kvmreg" id secret,
    parts_of "kvmreg" id secret refl h e f,
  ),
)
