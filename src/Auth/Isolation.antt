-- ===== src/Auth/Isolation.antt =====
-- Principals stay in their namespaces.
use text.Mathlib.TextPositions.{starts_with-append}
use mathlib.Core.Option.{some-injective}
use vm_forgeyard.Prelude.{
  ◌≡◌, sym, subst, ◌∙◌, inl, inr, String, true, false, Option, none, some, ◌==◌, is_some, append,
  ok, Bool-cases, arith, eq_iff, eq_refl, ok-injective,
}
use vm_forgeyard.Prelude.Splits.{cut}
use vm_forgeyard.Auth.{AuthPrincipal}
use vm_forgeyard.Auth.Namespaces.{
  is_dev_namespace, dev_namespace, free_namespace, own_namespace, effective_namespace,
}

filled_dev : (ns : String) → is_dev_namespace ns ≡ true → (ns == "") ≡ false
filled_dev ns h = elim (Bool-cases (ns == "")) [
  | inl e ↦ cc (subst (λ x. is_dev_namespace x ≡ true) ((eq_iff ns "").0 e) h)
  | inr e ↦ e
]

prefixed_dev : (s : String) → is_dev_namespace (append "dev." s) ≡ true
unfolding append
prefixed_dev s = ground (arith, starts_with-append "dev." s)

dev_stays_dev :
    (requested : Option String) (ns : String)
    → dev_namespace requested ≡ ok ns
    → is_dev_namespace ns ≡ true
unfolding dev_namespace
dev_stays_dev none ns h = cc
dev_stays_dev (some s) ns h = elim (Bool-cases (s == "")) [
  | inl e ↦ cc (rw e at h)
  | inr e ↦ elim (Bool-cases (is_dev_namespace s)) [
    | inl f ↦ subst (λ x. is_dev_namespace x ≡ true) (ok-injective s ns (rw (e, f) at h)) f
    | inr f ↦ elim (Bool-cases (is_some (cut 46 s))) [
      | inl g ↦ cc (rw (e, f, g) at h)
      | inr g ↦
          subst (λ x. is_dev_namespace x ≡ true)
            (ok-injective (append "dev." s) ns (rw (e, f, g) at h)) (prefixed_dev s)
    ]
  ]
]

dev_again : (ns : String) → is_dev_namespace ns ≡ true → dev_namespace (some ns) ≡ ok ns
unfolding dev_namespace
dev_again ns h = rw (filled_dev ns h, h)

own_stays_own :
    (own : String) (requested : Option String) (ns : String)
    → own_namespace own requested ≡ ok ns
    → ns ≡ own
unfolding own_namespace
own_stays_own own none ns h = sym (ok-injective own ns h)
own_stays_own own (some s) ns h = elim (Bool-cases (s == own)) [
  | inl e ↦ sym (ok-injective own ns (rw e at h))
  | inr e ↦ cc (rw e at h)
]

free_again :
    (requested : Option String) (ns : String)
    → free_namespace requested ≡ ok ns
    → free_namespace (some ns) ≡ ok ns
unfolding free_namespace
free_again none ns h = cc
free_again (some s) ns h = elim (Bool-cases (s == "")) [
  | inl e ↦ cc (rw e at h)
  | inr e ↦
      subst (λ x. free_namespace (some x) ≡ ok x) (ok-injective s ns (rw e at h))
        (rw (free_namespace, e))
]

-- What a principal without the role of a developer is given, by its own namespace.
by_own :
    (own requested : Option String) (ns : String)
    → (elim own [ none ↦ free_namespace requested | some o ↦ own_namespace o requested ]) ≡ ok ns
    → ((o : String) → own ≡ some o → ns ≡ o)
      × ((elim own [ none ↦ free_namespace (some ns) | some o ↦ own_namespace o (some ns) ])
          ≡ ok ns)
unfolding own_namespace
by_own none requested ns h = (λ o e. cc, free_again requested ns h)
by_own (some own) requested ns h =
    let same = own_stays_own own requested ns h in
    (λ o e. same ∙ some-injective own o e, rw (own_namespace, same, eq_refl own))

-- The namespace that a request is given is "dev" or begins with "dev." for a developer, is its own for
-- another principal that has one, and is given again when it is asked for by name.
pub effective_namespace_isolates :
    (principal : AuthPrincipal) (requested : Option String) (ns : String)
    → effective_namespace principal requested ≡ ok ns
    → ((principal.role == "dev") ≡ true → is_dev_namespace ns ≡ true)
      × ((own : String)
          → (principal.role == "dev") ≡ false
          → principal.namespace ≡ some own
          → ns ≡ own)
      × (effective_namespace principal (some ns) ≡ ok ns)
unfolding effective_namespace
effective_namespace_isolates principal requested ns h =
    elim (Bool-cases (principal.role == "dev")) [
      | inl e ↦
          let dev = dev_stays_dev requested ns (rw e at h) in
          (λ _. dev, λ own f _. cc (sym e ∙ f), rw e (dev_again ns dev))
      | inr e ↦
          let rest = by_own principal.namespace requested ns (rw e at h) in
          (λ f. cc (sym e ∙ f), λ own _ f. rest.0 own f, rw e rest.1)
    ]
