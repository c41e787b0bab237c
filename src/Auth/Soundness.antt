-- ===== src/Auth/Soundness.antt =====
-- What a bearer login proves.
use vm_forgeyard.Prelude.{
  ℕ, ◌≡◌, refl, ap, subst, ◌∙◌, ◌⊎◌, inl, inr, String, true, false, some, List, ◌==◌, is_some, ok,
  Bool-cases, Option-cases, Result-cases, ok-injective,
}
use vm_forgeyard.Auth.{AuthPrincipal, AuthConfig, IpLibrary}
use vm_forgeyard.Auth.Policy.{is_empty, acl_policy_for_principal, with_acl_or_403}
use vm_forgeyard.Auth.Secrets.{split_token}
use vm_forgeyard.Auth.Login.{
  Codecs, authenticate_bootstrap_admin, token_principal, check_token, token_login, bearer_login,
}
use vm_forgeyard.Tokens.{AuthToken, get_auth_token}

-- The token is that of a row which is not revoked and whose digest is that of the secret.
abbrev pub IsTokenOf : Codecs → List AuthToken → String → AuthToken → Type 0
IsTokenOf codecs tokens token row =
    (parts : String × String) × (split_token token ≡ some parts)
    × (get_auth_token tokens parts.0 ≡ some row)
    × (is_some row.revoked_at ≡ false)
    × ((codecs.hash_token_secret parts.1 == row.secret_hash) ≡ true)

checked-IsTokenOf :
    (codecs : Codecs) (tokens : List AuthToken) (token : String) (row : AuthToken)
    → check_token codecs tokens token ≡ ok row
    → IsTokenOf codecs tokens token row
unfolding check_token
checked-IsTokenOf codecs tokens token row h = elim (Option-cases (split_token token)) [
  | inl e ↦ cc (rw e at h)
  | inr p ↦ elim (Option-cases (get_auth_token tokens p.0.0)) [
    | inl e ↦ cc (rw (p.1, e) at h)
    | inr r ↦ elim (Bool-cases (is_some r.0.revoked_at)) [
      | inl e ↦ cc (rw (p.1, r.1, e) at h)
      | inr e ↦ elim (Bool-cases (codecs.hash_token_secret p.0.1 == r.0.secret_hash)) [
        | inl f ↦
            let same : r.0 ≡ row = ok-injective r.0 row (rw (p.1, r.1, e, f) at h) in
            (
              p.0,
              p.1,
              r.1 ∙ ap some same,
              subst (λ x. is_some x.revoked_at ≡ false) same e,
              subst (λ x. (codecs.hash_token_secret p.0.1 == x.secret_hash) ≡ true) same f,
            )
        | inr f ↦ cc (rw (p.1, r.1, e, f) at h)
      ]
    ]
  ]
]

-- What the access lists leave of a principal.
abbrev pub IsAdmitted : AuthPrincipal → AuthPrincipal → Type 0
IsAdmitted given p =
    (p.username ≡ given.username)
    × (p.role ≡ given.role)
    × (p.namespace ≡ given.namespace)
    × (p.is_admin ≡ given.is_admin)
    × (is_empty p.allowed_zones ≡ false)

with_acl-IsAdmitted :
    (ip : IpLibrary) (config : AuthConfig) (given p : AuthPrincipal) (source_ip : String)
    → with_acl_or_403 ip config given source_ip ≡ ok p
    → IsAdmitted given p
unfolding with_acl_or_403
with_acl-IsAdmitted ip config given p source_ip h =
    let policy = acl_policy_for_principal ip config.acl given.username given.role source_ip in
    elim (Bool-cases (is_empty policy.0)) [
      | inl e ↦ cc (rw e at h)
      | inr e ↦
          subst (IsAdmitted given)
            (ok-injective
              (record given {
                allowed_zones = policy.0;
                capabilities = policy.1;
                source_ip = source_ip;
              })
              p (rw e at h))
            (refl, refl, refl, refl, e)
    ]

-- A bearer login that succeeds is one of an administrator's token of the configuration, or of the
-- token of an unrevoked row with the digest of the secret, and then the principal has the name,
-- the role and the namespace of the row, is an administrator exactly if the role is, and has a zone.
pub bearer_login_sound :
    (ip : IpLibrary) (codecs : Codecs) (now : ℕ) (config : AuthConfig) (tokens : List AuthToken)
    (source_ip token : String) (p : AuthPrincipal)
    → (bearer_login ip codecs now config tokens source_ip (some token)).1 ≡ ok p
    → ((admin : AuthPrincipal) × (authenticate_bootstrap_admin codecs config token ≡ some admin))
      ⊎ ((row : AuthToken) × IsTokenOf codecs tokens token row
          × IsAdmitted (token_principal row source_ip) p)
unfolding bearer_login token_login
bearer_login_sound ip codecs now config tokens source_ip token p h =
    elim (Option-cases (authenticate_bootstrap_admin codecs config token)) [
      | inr a ↦ inl (a.0, a.1)
      | inl e ↦ elim (Result-cases (check_token codecs tokens token)) [
        | inl f ↦ cc (rw (bearer_login, e, f.1) at h)
        | inr f ↦ inr (
          f.0,
          checked-IsTokenOf codecs tokens token f.0 f.1,
          with_acl-IsAdmitted ip config (token_principal f.0 source_ip) p source_ip
              (rw (bearer_login, e, f.1) at h),
        )
      ]
    ]
