-- ===== src/Auth/Zones.antt =====
-- The zones that the access lists give.
use vm_forgeyard.Prelude.{
  ◌≡◌, ◌∙◌, refl, ap, inl, inr, String, Bool, true, ◌&&◌, ◌||◌, List, [], ◌∷◌, ◌++◌, ◌==◌,
  Bool-cases, arith, eq_iff,
}
use vm_forgeyard.Prelude.Rows.{any, any-append}
use vm_forgeyard.Auth.{AuthAclConfig, IpLibrary}
use vm_forgeyard.Prelude.Splits.{without_end}
use vm_forgeyard.Auth.Policy.{
  is_empty, star_matches, principal_matches, contains, ip_in_cidrs, is_in, merge, acl_applies,
  merge_acls, acl_policy_for_principal,
}

is_in-eq :
    (z s : String) (ss : List String) → is_in s ss ≡ true → (s == z) ≡ true → is_in z ss ≡ true
is_in-eq z s [] h e = cc
is_in-eq z s (t ∷ ss) h e = ground (arith, eq_iff t s, eq_iff s z, eq_iff t z, is_in-eq z s ss)

is_in-merge :
    (z : String) (all ss : List String) → is_in z (merge all ss) ≡ (is_in z all || is_in z ss)
unfolding merge
is_in-merge z all [] = ground arith
is_in-merge z all (s ∷ ss) = elim (Bool-cases (is_in s all)) [
  | inl e ↦
      rw (e, is_in-merge z all ss)
        (elim (Bool-cases (s == z)) [ inl f ↦ rw (f, is_in-eq z s all e f) | inr f ↦ rw f ])
  | inr e ↦
      rw (e, is_in-merge z (all ++ s ∷ []) ss, any-append (λ t. t == z) all (s ∷ [])) (ground arith)
]

module _ (ip : IpLibrary) (username role source_ip z : String) where
  merged_zones :
      (found : List String × List String) (acls : List AuthAclConfig)
      → is_in z (merge_acls ip username role source_ip found acls).0 ≡ (
          is_in z found.0
          || any (λ acl. acl_applies ip username role source_ip acl && is_in z acl.zones) acls)
  unfolding merge_acls
  merged_zones found [] = ground arith
  merged_zones found (acl ∷ acls) = elim (Bool-cases (acl_applies ip username role source_ip acl)) [
    | inl e ↦
        rw
          (
            merge_acls,
            e,
            merged_zones (merge found.0 acl.zones, merge found.1 acl.capabilities) acls,
            is_in-merge z found.0 acl.zones,
          )
          (ground arith)
    | inr e ↦ rw (merge_acls, e, merged_zones found acls)
  ]

-- A pattern of the list is the name or the role, or ends in a star and begins the name.
abbrev pub names : String → String → AuthAclConfig → Bool
names username role acl =
    any
      (λ pattern.
        (pattern == username || pattern == role) || star_matches (without_end 42 pattern) username)
      acl.users

-- The list has no networks, or the source is an address in one of them.
abbrev pub admits : IpLibrary → String → AuthAclConfig → Bool
admits ip source_ip acl =
    is_empty acl.source_cidrs
    || (ip.is_address source_ip
        && any (λ cidr. contains (ip.in_network source_ip cidr)) acl.source_cidrs)

matches_any :
    (patterns : List String) (username role : String)
    → principal_matches patterns username role
      ≡ any
          (λ pattern.
            (pattern == username || pattern == role)
            || star_matches (without_end 42 pattern) username)
          patterns
unfolding principal_matches
matches_any [] username role = refl
matches_any (pattern ∷ patterns) username role = rw (matches_any patterns username role)

applies_lem :
    (ip : IpLibrary) (username role source_ip : String) (acl : AuthAclConfig)
    → acl_applies ip username role source_ip acl
      ≡ (names username role acl && admits ip source_ip acl)
unfolding acl_applies ip_in_cidrs
applies_lem ip username role source_ip acl = rw (matches_any acl.users username role) (ground arith)

any-same {ℓ} :
    {R : Type ℓ} (p q : R → Bool) (rs : List R) → ((r : R) → p r ≡ q r) → any p rs ≡ any q rs
any-same p q [] h = refl
any-same p q (r ∷ rs) h = rw (h r, any-same p q rs h)

-- A principal is given a zone exactly if an access list has the zone, one of whose patterns is its name
-- or its role or ends in a star and begins its name, and which has no networks or has one with the
-- address that the request comes from.
pub zones_of_policy :
    (ip : IpLibrary) (acls : List AuthAclConfig) (username role source_ip z : String)
    → is_in z (acl_policy_for_principal ip acls username role source_ip).0
      ≡ any (λ acl. (names username role acl && admits ip source_ip acl) && is_in z acl.zones) acls
unfolding acl_policy_for_principal
zones_of_policy ip acls username role source_ip z =
    merged_zones ip username role source_ip z ([], []) acls
    ∙ any-same _ _ acls
        (λ acl. ap (λ b. b && is_in z acl.zones) (applies_lem ip username role source_ip acl))
