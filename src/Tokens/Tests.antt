-- ===== src/Tokens/Tests.antt =====
-- Runs of the token registry on concrete rows.
use vm_forgeyard.Prelude.{◌≡◌, refl, some, List, [], ◌∷◌, ok, err}
use vm_forgeyard.Tokens.{
  AuthToken, new_token, replace_revoked_auth_token, replace_row, reissue_token, revoke_auth_token,
  value_error,
}
use vm_forgeyard.Tokens.Revoked.{revoked_is_refused}
use vm_forgeyard.Tokens.Registered.{issued, IsRegistered, registered_lem}
use vm_forgeyard.Auth.{raise_invalid_auth}
use vm_forgeyard.Auth.Secrets.{split_token}
use vm_forgeyard.Auth.Login.{Codecs, check_token}
use vm_forgeyard.Prelude.Splits.{cut}

abbrev ci_token : AuthToken
unfolding new_token
ci_token = new_token 5 "ab" "git.ci" "repository" (some "git.ci") "h"

abbrev one_token : List AuthToken
one_token = ci_token ∷ []

abbrev plain_codecs : Codecs
plain_codecs = record { hash_token_secret = λ s. s; b64decode = λ s. some s }

split_kvm : split_token "kvm_ab_s_3" ≡ some ("ab", "s_3")
unfolding split_token cut
split_kvm = refl

revoked_is_refused_example :
    check_token plain_codecs (revoke_auth_token 9 one_token "ab").0 "kvm_ab_s_3"
    ≡ err raise_invalid_auth
revoked_is_refused_example =
    revoked_is_refused plain_codecs 9 one_token "kvm_ab_s_3" ("ab", "s_3") split_kvm

-- A username whose token is not revoked is not registered again.
active_is_kept :
    replace_revoked_auth_token 9 one_token "cd" "git.ci" "repository" (some "git.ci") "k"
    ≡ err (value_error "repository is already registered")
unfolding new_token replace_revoked_auth_token replace_row
active_is_kept = refl

abbrev revoked_token : AuthToken
revoked_token = record ci_token { revoked_at = some 7 }

abbrev reissued : List AuthToken × AuthToken
unfolding new_token
reissued = let row = new_token 9 "cd" "git.ci" "repository" (some "git.ci") "k" in (row ∷ [], row)

registered :
    replace_revoked_auth_token 9 (revoked_token ∷ []) "cd" "git.ci" "repository" (some "git.ci") "k"
    ≡ ok reissued
unfolding new_token replace_revoked_auth_token replace_row reissue_token
registered = refl

registered_lem_example :
    (reissued.1 ≡ issued 9 "cd" "git.ci" "repository" (some "git.ci") "k")
    × IsRegistered 9 "cd" "git.ci" "repository" (some "git.ci") "k" (revoked_token ∷ []) reissued.0
registered_lem_example =
    registered_lem 9 "cd" "git.ci" "repository" (some "git.ci") "k" (revoked_token ∷ []) reissued
      registered
