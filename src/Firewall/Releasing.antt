-- ===== src/Firewall/Releasing.antt =====
-- How a release goes through the rules of a lock: with an executor that answers, and with one that
-- fails at the first set.
use vm_forgeyard.Prelude.{ℕ, ◌≡◌, ◌<◌, refl, ap, Bool, true, not, some, ◌=ℕ◌, length, err, arith}
use vm_forgeyard.Prelude.Actions.{pure, when, ◌>>◌}
use vm_forgeyard.Prelude.Actions.Keeps.{Keeps}
use vm_forgeyard.Prelude.Actions.Returns.{Returns}
use vm_forgeyard.Prelude.Actions.Triples.{
  Achieves, Fails, Achieves-pure, Achieves-bind, Achieves-then, Achieves-when, Fails-when,
  Fails-bind, Fails-first,
}
use vm_forgeyard.Prelude.Rows.{select}
use vm_forgeyard.Lock.{LockRequest, LockTables}
use vm_forgeyard.Firewall.{RuleTables}
use vm_forgeyard.Firewall.Rules.{of_lock, delete_firewall_egress_rules_for_lock}
use vm_forgeyard.Firewall.Access.{delete_firewall_access_rules_for_lock}
use vm_forgeyard.Firewall.Workarounds.{delete_endpoint_workaround_rules_for_lock}
use vm_forgeyard.Firewall.Reconciliation.{
  LockService, Raised, Handler, FirewallServices, FirewallPayload, reconcile_firewall_egress,
  reconcile_firewall_access,
}
use vm_forgeyard.Firewall.Syncing.{
  HasTables, Runs, HasSources, egress-Keeps, egress-Returns, egress_failed, access-Keeps,
  access-Returns,
}
use vm_forgeyard.Firewall.Endpoints.{
  remove_egress, remove_access, remove_workarounds, clear_access, clear_rules, delete_rules,
  delete_control_rules,
}

-- The tables of rules after each deletion.
abbrev pub without_egress : LockRequest → RuleTables → RuleTables
without_egress row t = (delete_firewall_egress_rules_for_lock t row.namespace row.resource_id).0

abbrev pub without_access : LockRequest → RuleTables → RuleTables
without_access row t = (delete_firewall_access_rules_for_lock t row.namespace row.resource_id).0

abbrev pub without_workarounds : LockRequest → RuleTables → RuleTables
without_workarounds row t =
    (delete_endpoint_workaround_rules_for_lock t row.namespace row.resource_id).0

-- The number of egress rules of the lock.
abbrev pub egress_count : LockRequest → RuleTables → ℕ
egress_count row t = length (select (of_lock row.namespace row.resource_id) t.egress.rules)

module _ (row : LockRequest) (locks : LockTables) (rules : RuleTables) where
  egress-Achieves :
      Achieves
        (HasTables locks rules)
        (remove_egress row)
        (λ n s. (n ≡ egress_count row rules) × HasTables locks (without_egress row rules) s)
  unfolding remove_egress delete_firewall_egress_rules_for_lock
  egress-Achieves = record {
    at = λ s h. (
      egress_count row s.rules,
      refl,
      (ap (egress_count row) h.1, (h.0, ap (without_egress row) h.1)),
    );
  }

  access-Achieves :
      Achieves
        (HasTables locks rules)
        (remove_access row)
        (λ n. HasTables locks (without_access row rules))
  unfolding remove_access
  access-Achieves = record { at = λ s h. (_, refl, (h.0, ap (without_access row) h.1)) }

  workarounds-Achieves :
      Achieves
        (HasTables locks rules)
        (remove_workarounds row)
        (λ n. HasTables locks (without_workarounds row rules))
  unfolding remove_workarounds
  workarounds-Achieves = record { at = λ s h. (_, refl, (h.0, ap (without_workarounds row) h.1)) }

  -- A set that is made to follow the rules, if some were deleted.
  sync-Achieves :
      (b : Bool) {A : Type 0} (m : Handler A)
      → Returns m
      → Keeps (HasTables locks rules) m
      → Achieves (HasTables locks rules) (when b (m >> pure tt)) (λ _. HasTables locks rules)
  sync-Achieves b m returns keeps = Achieves-when (HasTables locks rules) b (m >> pure tt) (
      Achieves-then (HasTables locks rules) (HasTables locks rules) m (pure tt)
        (λ _. HasTables locks rules)
        (record { at = λ s h. ((returns.at s).0, (returns.at s).1, keeps.at s h) })
        (Achieves-pure (HasTables locks rules) tt))

  sync-Fails :
      (b : Bool) {A : Type 0} (m : Handler A) (e : Raised)
      → b ≡ true
      → ((s : LockService) → (m s).1 ≡ err e)
      → Keeps (HasTables locks rules) m
      → Fails (HasTables locks rules) (when b (m >> pure tt)) e (HasTables locks rules)
  sync-Fails b m e hit fails keeps =
      Fails-when (HasTables locks rules) (HasTables locks rules) b (m >> pure tt) e hit (
        Fails-first (HasTables locks rules) (HasTables locks rules) m (λ _. pure tt) e
          (record { at = λ s h. (fails s, keeps.at s h) }))

module _ (fs : FirewallServices) (now : ℕ) (row : LockRequest) (locks : LockTables)
    (rules : RuleTables) where
  clear-Achieves :
      Runs fs
      → HasSources fs
      → Achieves
          (HasTables locks rules)
          (clear_rules fs now row)
          (λ _. HasTables locks (without_access row (without_egress row rules)))
  unfolding clear_rules clear_access
  clear-Achieves runs sources =
      let kept = without_egress row rules in
      let left = without_access row kept in
      Achieves-bind _ (remove_egress row) _ _ _ (egress-Achieves row locks rules) (λ n.
        Achieves-then _ (HasTables locks kept)
          (when (not (n =ℕ 0)) (reconcile_firewall_egress fs now >> pure tt)) _ _
          (record {
            at = λ s h.
                (sync-Achieves row locks kept (not (n =ℕ 0)) (reconcile_firewall_egress fs now)
                    (egress-Returns fs now locks kept runs) (egress-Keeps fs now locks kept)).at
                  s h.1;
          })
          (Achieves-bind _ (remove_access row) _ _ _ (access-Achieves row locks kept) (λ m.
            sync-Achieves row locks left (not (m =ℕ 0)) (reconcile_firewall_access fs now)
              (access-Returns fs now locks left runs sources) (access-Keeps fs now locks left))))

  pub rules-Achieves :
      Runs fs
      → HasSources fs
      → Achieves (HasTables locks rules) (delete_rules fs now (some row)) (λ _.
        HasTables locks (without_workarounds row (without_access row (without_egress row rules))))
  unfolding delete_rules
  rules-Achieves runs sources =
      let left = without_access row (without_egress row rules) in
      Achieves-then _ (HasTables locks left) (clear_rules fs now row) _ _
        (clear-Achieves runs sources)
        (Achieves-then _ (HasTables locks (without_workarounds row left)) (remove_workarounds row)
          (pure tt) (λ _. HasTables locks (without_workarounds row left))
          (workarounds-Achieves row locks left) (Achieves-pure _ tt))

  pub control-Achieves :
      Runs fs
      → HasSources fs
      → Achieves
          (HasTables locks rules)
          (delete_control_rules fs now (some row))
          (λ _. HasTables locks (without_access row (without_egress row rules)))
  unfolding delete_control_rules
  control-Achieves runs sources = clear-Achieves runs sources

  clear-Fails :
      (e : Raised)
      → ((p : FirewallPayload) → fs.run "sync-firewall-egress" p ≡ err e)
      → 0 < egress_count row rules
      → Fails
          (HasTables locks rules)
          (clear_rules fs now row)
          e
          (HasTables locks (without_egress row rules))
  unfolding clear_rules
  clear-Fails e fails some_rules =
      let kept = without_egress row rules in
      Fails-bind _ (remove_egress row) _ _ _ e (egress-Achieves row locks rules) (λ n.
        Fails-first _ (HasTables locks kept)
          (when (not (n =ℕ 0)) (reconcile_firewall_egress fs now >> pure tt))
          (λ _. clear_access fs now row) e
          (record {
            at = λ s h.
                (sync-Fails row locks kept (not (n =ℕ 0)) (reconcile_firewall_egress fs now) e
                    (ground (arith, h.0, some_rules)) (egress_failed fs now locks kept e fails)
                    (egress-Keeps fs now locks kept)).at
                  s h.1;
          }))

  pub rules-Fails :
      (e : Raised)
      → ((p : FirewallPayload) → fs.run "sync-firewall-egress" p ≡ err e)
      → 0 < egress_count row rules
      → Fails
          (HasTables locks rules)
          (delete_rules fs now (some row))
          e
          (HasTables locks (without_egress row rules))
  unfolding delete_rules
  rules-Fails e fails some_rules =
      Fails-first _ _ (clear_rules fs now row) _ e (clear-Fails e fails some_rules)
