-- ===== src/Firewall/Deletion.antt =====
-- What is left of the rules of a lock after it was released.
use vm_forgeyard.Prelude.{
  ℕ, ◌≡◌, ◌<◌, refl, ◌∙◌, ap, subst, sym, inl, inr, String, Bool, true, false, ◌&&◌, Option, some,
  List, [], ◌∷◌, ◌==◌, ok, err, Bool-cases, arith, eq_iff,
}
use vm_forgeyard.Prelude.Rows.{select, delete}
use vm_forgeyard.Event.{StatusEvent}
use vm_forgeyard.Lock.{LockRequest, LockTables}
use vm_forgeyard.Lock.Requests.{release_lock, get_lock_request}
use vm_forgeyard.Auth.{AuthPrincipal}
use vm_forgeyard.Auth.Namespaces.{effective_namespace}
use vm_forgeyard.Firewall.{RuleTables}
use vm_forgeyard.Firewall.Rules.{of_lock, delete_firewall_egress_rules_for_lock}
use vm_forgeyard.Firewall.Access.{access_of_lock, delete_firewall_access_rules_for_lock}
use vm_forgeyard.Firewall.Workarounds.{
  workaround_of_lock, delete_endpoint_workaround_rules_for_lock,
}
use vm_forgeyard.Firewall.Reconciliation.{LockService, Raised, FirewallServices, FirewallPayload}
use vm_forgeyard.Firewall.Syncing.{Runs, HasSources}
use vm_forgeyard.Firewall.Releasing.{
  without_egress, without_access, without_workarounds, egress_count, rules-Achieves,
  control-Achieves, rules-Fails,
}
use vm_forgeyard.Firewall.Answering.{release_succeeds, release_fails}
use vm_forgeyard.Firewall.Endpoints.{
  as_http, named_releaser, delete_rules, delete_control_rules, release_request,
  release_lock_request,
}

module _ {R : Type 0} where
  select-delete : (test : R → Bool) (rs : List R) → select test (delete test rs) ≡ []
  select-delete test [] = refl
  select-delete test (r ∷ rs) = elim (Bool-cases (test r)) [
    | inl e ↦ rw e (select-delete test rs)
    | inr e ↦ rw (e, e) (select-delete test rs)
  ]

  select-delete_other :
      (keep test : R → Bool) (rs : List R)
      → ((r : R) → keep r ≡ true → test r ≡ false)
      → select keep (delete test rs) ≡ select keep rs
  select-delete_other keep test [] h = refl
  select-delete_other keep test (r ∷ rs) h = elim (Bool-cases (keep r)) [
    | inl e ↦ rw (h r e, e) (ap (λ x. r ∷ x) (select-delete_other keep test rs h))
    | inr e ↦ elim (Bool-cases (test r)) [
      | inl f ↦ rw (f, e) (select-delete_other keep test rs h)
      | inr f ↦ rw (f, e) (select-delete_other keep test rs h)
    ]
  ]

-- No rule of either kind is left for the lock.
abbrev pub IsCleared : String → String → RuleTables → Type 0
IsCleared namespace resource_id t =
    (select (of_lock namespace resource_id) t.egress.rules ≡ [])
    × (select (access_of_lock namespace resource_id) t.access.rules ≡ [])

-- The rules of the other locks, and all ingress rules, are the same.
abbrev pub KeepsOthers : String → String → RuleTables → RuleTables → Type 0
KeepsOthers namespace resource_id before after =
    ((n r : String)
      → (n == namespace && r == resource_id) ≡ false
      → (select (of_lock n r) after.egress.rules ≡ select (of_lock n r) before.egress.rules)
        × (select (access_of_lock n r) after.access.rules
            ≡ select (access_of_lock n r) before.access.rules))
    × (after.ingress ≡ before.ingress)

other_lock :
    (a b c d e f : String)
    → (a == c && b == d) ≡ false
    → (e == a && f == b) ≡ true
    → (e == c && f == d) ≡ false
other_lock a b c d e f h k =
    ground (arith, eq_iff e a, eq_iff f b, eq_iff e c, eq_iff f d, eq_iff a c, eq_iff b d)

others_kept :
    (row : LockRequest) (t : RuleTables)
    → KeepsOthers row.namespace row.resource_id t (without_access row (without_egress row t))
unfolding delete_firewall_egress_rules_for_lock delete_firewall_access_rules_for_lock
others_kept row t = (
  λ n r h. (
    select-delete_other (of_lock n r) (of_lock row.namespace row.resource_id) t.egress.rules
        (λ x k. other_lock n r row.namespace row.resource_id x.namespace x.lock_resource_id h k),
    select-delete_other (access_of_lock n r) (access_of_lock row.namespace row.resource_id)
        t.access.rules
        (λ x k. other_lock n r row.namespace row.resource_id x.namespace x.lock_resource_id h k),
  ),
  refl,
)

cleared :
    (row : LockRequest) (t : RuleTables)
    → IsCleared row.namespace row.resource_id (without_access row (without_egress row t))
unfolding delete_firewall_egress_rules_for_lock delete_firewall_access_rules_for_lock
cleared row t = (
  select-delete (of_lock row.namespace row.resource_id) t.egress.rules,
  select-delete (access_of_lock row.namespace row.resource_id) t.access.rules,
)

module _ (fs : FirewallServices) (now : ℕ) (s : LockService) (principal : AuthPrincipal)
    (request_id : ℕ) (released_by : Option String) (row out : LockRequest) (releaser : String)
    (locks : LockTables) (events : List StatusEvent)
    (known : get_lock_request s.locks request_id ≡ some row)
    (asked : effective_namespace principal (named_releaser released_by (some row)) ≡ ok releaser)
    (released : release_lock now s.locks request_id releaser ≡ ok (locks, out, events)) where
  -- When the registry releases a request, the executor answers every call and the default sources are
  -- IPv4 networks, a release by `lock_api` returns the row, the lock is released, and no egress, access
  -- or workaround rule of it is left; the egress and access rules of other locks and all ingress rules
  -- are as they were.
  pub release_request_clears :
      Runs fs
      → HasSources fs
      → let after = release_request fs now principal request_id released_by s in
        (after.1 ≡ ok out)
        × (after.0.locks ≡ locks)
        × IsCleared row.namespace row.resource_id after.0.rules
        × (select (workaround_of_lock row.namespace row.resource_id) after.0.rules.workarounds.rules
            ≡ [])
        × KeepsOthers row.namespace row.resource_id s.rules after.0.rules
  unfolding release_request delete_endpoint_workaround_rules_for_lock
  release_request_clears runs sources =
      let left = without_access row (without_egress row s.rules) in
      let done =
        release_succeeds fs now s principal request_id released_by row out releaser locks events
          known asked released (delete_rules fs now) (without_workarounds row left)
          (rules-Achieves fs now row locks s.rules runs sources) in
      (
        done.0,
        done.1.0,
        subst (IsCleared row.namespace row.resource_id) (sym done.1.1) (cleared row s.rules),
        ap (λ t. select (workaround_of_lock row.namespace row.resource_id) t.workarounds.rules)
              done.1.1
            ∙ select-delete (workaround_of_lock row.namespace row.resource_id)
                s.rules.workarounds.rules,
        subst (KeepsOthers row.namespace row.resource_id s.rules) (sym done.1.1)
            (others_kept row s.rules),
      )

  -- Under the same conditions a release by `control_api` returns the row, the lock is released, and no
  -- egress or access rule of it is left, but every workaround rule is as it was; the egress and access
  -- rules of other locks and all ingress rules are as they were.
  pub control_release_keeps_workarounds :
      Runs fs
      → HasSources fs
      → let after = release_lock_request fs now principal request_id released_by s in
        (after.1 ≡ ok out)
        × (after.0.locks ≡ locks)
        × IsCleared row.namespace row.resource_id after.0.rules
        × (after.0.rules.workarounds ≡ s.rules.workarounds)
        × KeepsOthers row.namespace row.resource_id s.rules after.0.rules
  unfolding release_lock_request delete_firewall_egress_rules_for_lock
      delete_firewall_access_rules_for_lock
  control_release_keeps_workarounds runs sources =
      let left = without_access row (without_egress row s.rules) in
      let done =
        release_succeeds fs now s principal request_id released_by row out releaser locks events
          known asked released (delete_control_rules fs now) left
          (control-Achieves fs now row locks s.rules runs sources) in
      (
        done.0,
        done.1.0,
        subst (IsCleared row.namespace row.resource_id) (sym done.1.1) (cleared row s.rules),
        ap (λ t. t.workarounds) done.1.1,
        subst (KeepsOthers row.namespace row.resource_id s.rules) (sym done.1.1)
            (others_kept row s.rules),
      )

  -- When the registry releases a request whose lock has an egress rule, and the executor fails to make
  -- the egress set follow, a release by `lock_api` answers that error, although the lock is released
  -- and its egress rules are gone: its access rules and its workaround rules stay.
  pub failed_release_leaves_rules :
      (e : Raised)
      → ((p : FirewallPayload) → fs.run "sync-firewall-egress" p ≡ err e)
      → 0 < egress_count row s.rules
      → let after = release_request fs now principal request_id released_by s in
        (after.1 ≡ err (as_http e))
        × (after.0.locks ≡ locks)
        × (select (of_lock row.namespace row.resource_id) after.0.rules.egress.rules ≡ [])
        × (after.0.rules.access ≡ s.rules.access)
        × (after.0.rules.workarounds ≡ s.rules.workarounds)
  unfolding release_request delete_firewall_egress_rules_for_lock
  failed_release_leaves_rules e fails some_rules =
      let done =
        release_fails fs now s principal request_id released_by row out releaser locks events known
          asked released (delete_rules fs now) (without_egress row s.rules) e
          (rules-Fails fs now row locks s.rules e fails some_rules) in
      (
        done.0,
        done.1.0,
        ap (λ t. select (of_lock row.namespace row.resource_id) t.egress.rules) done.1.1
            ∙ select-delete (of_lock row.namespace row.resource_id) s.rules.egress.rules,
        ap (λ t. t.access) done.1.1,
        ap (λ t. t.workarounds) done.1.1,
      )
