-- ===== src/Control/Load.antt =====
-- The use of the host, and its use with one machine counted whatever its state.
use vm_forgeyard.Prelude.{
  ℕ, ◌+◌, ◌≤◌, ◌≡◌, refl, ap, sym, subst, ◌∙◌, inl, inr, String, Bool, true, false, not, ◌||◌, some,
  List, [], ◌∷◌, ◌==◌, if◌then◌else◌, length, map, Bool-cases, All, arith, eq_iff,
}
use mathlib.Core.Option.{some-injective}
use vm_forgeyard.Prelude.Rows.{update, fetch}
use vm_forgeyard.Prelude.Keys.{Apart}
use vm_forgeyard.Vm.{VmInstance, with_vm_id, is_running_state}
use vm_forgeyard.Vm.Queries.{sum, counted}
use vm_forgeyard.Vm.Keys.{same_id}

-- What a machine adds to the use of the host, if it is counted.
abbrev pub weight : (VmInstance → ℕ) → Bool → VmInstance → ℕ
weight f true vm = f vm
weight f false vm = 0

-- The use of the host when a machine is counted as running whatever its state.
unfoldable pub load_with : (VmInstance → ℕ) → String → List VmInstance → ℕ
load_with f vm_id [] = 0
load_with f vm_id (vm ∷ vms) =
    weight f (is_running_state vm.power_state || vm.vm_id == vm_id) vm + load_with f vm_id vms

-- The use of the host.
unfoldable pub load : (VmInstance → ℕ) → List VmInstance → ℕ
load f [] = 0
load f (vm ∷ vms) = weight f (is_running_state vm.power_state) vm + load f vms

pub load-sum : (f : VmInstance → ℕ) (vms : List VmInstance) → load f vms ≡ sum (map f (counted vms))
unfolding load counted
load-sum f [] = refl
load-sum f (vm ∷ vms) = elim (Bool-cases (is_running_state vm.power_state)) [
  | inl e ↦ rw e (omega (arith, load-sum f vms))
  | inr e ↦ rw e (omega (arith, load-sum f vms))
]

pub load-length : (vms : List VmInstance) → load (λ _. 1) vms ≡ length (counted vms)
unfolding load counted
load-length [] = refl
load-length (vm ∷ vms) = elim (Bool-cases (is_running_state vm.power_state)) [
  | inl e ↦ rw e (omega (arith, load-length vms))
  | inr e ↦ rw e (omega (arith, load-length vms))
]

pub load-bound :
    (f : VmInstance → ℕ) (vm_id : String) (vms : List VmInstance)
    → load f vms ≤ load_with f vm_id vms
unfolding load load_with
load-bound f vm_id [] = omega arith
load-bound f vm_id (vm ∷ vms) = elim (Bool-cases (is_running_state vm.power_state)) [
  | inl e ↦ rw e (omega (arith, load-bound f vm_id vms))
  | inr e ↦ rw e (omega (arith, load-bound f vm_id vms))
]

-- Without a row of the machine it adds nothing.
load_with-absent :
    (f : VmInstance → ℕ) (vm_id : String) (vms : List VmInstance)
    → All (λ (r : VmInstance). (r.vm_id == vm_id) ≡ false) vms
    → load_with f vm_id vms ≡ load f vms
unfolding load load_with
load_with-absent f vm_id [] h = refl
load_with-absent f vm_id (vm ∷ vms) h = elim (Bool-cases (is_running_state vm.power_state)) [
  | inl e ↦ rw e (omega (arith, load_with-absent f vm_id vms h.1))
  | inr e ↦ rw (e, h.0) (omega (arith, load_with-absent f vm_id vms h.1))
]

-- With one row it adds at most that of the machine, and nothing if it is counted already.
pub load_with-known :
    (f : VmInstance → ℕ) (vm_id : String) (vms : List VmInstance) (vm : VmInstance)
    → Apart same_id vms
    → fetch (with_vm_id vm_id) vms ≡ some vm
    → load_with f vm_id vms ≡ load f vms + weight f (not (is_running_state vm.power_state)) vm
unfolding load load_with
load_with-known f vm_id [] vm apart h = cc
load_with-known f vm_id (r ∷ rs) vm apart h = elim (Bool-cases (r.vm_id == vm_id)) [
  | inl e ↦
      let same = (eq_iff r.vm_id vm_id).0 e in
      let rest =
        load_with-absent f vm_id rs
          (subst (λ id. All (λ (x : VmInstance). (x.vm_id == id) ≡ false) rs) same apart.0) in
      subst
        (λ (x : VmInstance).
          load_with f vm_id (r ∷ rs)
          ≡ load f (r ∷ rs) + weight f (not (is_running_state x.power_state)) x)
        (some-injective r vm (rw e at h))
        (elim (Bool-cases (is_running_state r.power_state)) [
          | inl g ↦ rw g (omega (arith, rest))
          | inr g ↦ rw (g, e) (omega (arith, rest))
        ])
  | inr e ↦
      let rest = load_with-known f vm_id rs vm apart.1 (rw e at h) in
      elim (Bool-cases (is_running_state r.power_state)) [
        | inl g ↦ rw g (omega (arith, rest))
        | inr g ↦ rw (g, e) (omega (arith, rest))
      ]
]

weight-hit : (f : VmInstance → ℕ) (b : Bool) (r : VmInstance) → weight f (b || true) r ≡ f r
weight-hit f true r = refl
weight-hit f false r = refl

weight-known :
    (f : VmInstance → ℕ) (b : Bool) (vm_id : String) (r : VmInstance)
    → (r.vm_id == vm_id) ≡ true
    → weight f (b || r.vm_id == vm_id) r ≡ f r
weight-known f b vm_id r h = rw h (weight-hit f b r)

weight_with : (VmInstance → ℕ) → String → VmInstance → ℕ
weight_with f vm_id r = weight f (is_running_state r.power_state || r.vm_id == vm_id) r

-- Updates of the machine that leave what it needs leave the load.
module _ (f : VmInstance → ℕ) (vm_id : String) (change : VmInstance → VmInstance)
    (same : (r : VmInstance) → f (change r) ≡ f r)
    (key : (r : VmInstance) → (change r).vm_id ≡ r.vm_id) where
  weight_with-change :
      (b : Bool) (r : VmInstance)
      → (b ≡ true → (r.vm_id == vm_id) ≡ true)
      → weight_with f vm_id (if b then change r else r) ≡ weight_with f vm_id r
  unfolding weight_with
  weight_with-change false r hit = refl
  weight_with-change true r hit =
      let changed =
        weight-known f (is_running_state (change r).power_state) vm_id (change r)
          (ap (λ id. id == vm_id) (key r) ∙ hit refl) in
      let was = weight-known f (is_running_state r.power_state) vm_id r (hit refl) in
      changed ∙ same r ∙ sym was

  pub load_with-update :
      (vms : List VmInstance)
      → load_with f vm_id (update (with_vm_id vm_id) change vms) ≡ load_with f vm_id vms
  unfolding load_with weight_with
  load_with-update [] = refl
  load_with-update (r ∷ rs) =
      omega (arith, load_with-update rs, weight_with-change (r.vm_id == vm_id) r (λ e. e))
