-- ===== src/Tokens/Revoked.antt =====
-- Revoked tokens, in the registry and at the login.
use mathlib.Core.Option
use vm_forgeyard.Prelude.{
  ℕ, ◌≡◌, refl, inl, inr, String, true, Option, none, some, List, if◌then◌else◌, is_some, err,
  Option-cases,
}
use vm_forgeyard.Prelude.Rows.{fetch, fetch-update_key, fetch-meets}
use vm_forgeyard.Tokens.{AuthToken, with_token_id, unrevoked, get_auth_token, revoke_auth_token}
use vm_forgeyard.Auth.{raise_invalid_auth}
use vm_forgeyard.Auth.Secrets.{split_token}
use vm_forgeyard.Auth.Login.{Codecs, check_token}

abbrev revoke_row : ℕ → String → AuthToken → AuthToken
revoke_row now token_id r = if unrevoked token_id r then record r { revoked_at = some now } else r

revoked_row :
    (now : ℕ) (token_id : String) (r : AuthToken)
    → with_token_id token_id r ≡ true
    → is_some (revoke_row now token_id r).revoked_at ≡ true
revoked_row now token_id r h = elim (Option-cases r.revoked_at) [
  | inl e ↦ rw (h, e)
  | inr e ↦ rw (h, e.1)
]

-- Which row has an id after a revocation.
fetch-revoke :
    (now : ℕ) (ts : List AuthToken) (token_id : String)
    → get_auth_token (revoke_auth_token now ts token_id).0 token_id
      ≡ Option.map (revoke_row now token_id) (fetch (with_token_id token_id) ts)
unfolding get_auth_token revoke_auth_token
fetch-revoke now ts token_id =
    fetch-update_key (with_token_id token_id) (unrevoked token_id) _ ts (λ r. refl)

refused :
    (codecs : Codecs) (now : ℕ) (ts : List AuthToken) (token : String) (parts : String × String)
    (o : Option AuthToken)
    → split_token token ≡ some parts
    → fetch (with_token_id parts.0) ts ≡ o
    → check_token codecs (revoke_auth_token now ts parts.0).0 token ≡ err raise_invalid_auth
unfolding check_token
refused codecs now ts token parts none h e = rw (h, fetch-revoke now ts parts.0, e)
refused codecs now ts token parts (some r) h e = rw (
  h,
  fetch-revoke now ts parts.0,
  e,
  revoked_row now parts.0 r (fetch-meets (with_token_id parts.0) ts r e),
)

-- Once its id is revoked, a token is refused as invalid, whatever its secret is.
pub revoked_is_refused :
    (codecs : Codecs) (now : ℕ) (ts : List AuthToken) (token : String) (parts : String × String)
    → split_token token ≡ some parts
    → check_token codecs (revoke_auth_token now ts parts.0).0 token ≡ err raise_invalid_auth
revoked_is_refused codecs now ts token parts h =
    refused codecs now ts token parts (fetch (with_token_id parts.0) ts) h refl
