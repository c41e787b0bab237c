-- ===== src/Lock/Invariant/Holders.antt =====
-- The holder of a resource under each statement that writes `lock_resources`.
use vm_forgeyard.Prelude.{
  ℕ, ◌≡◌, refl, ap, inl, inr, String, Bool, true, false, Option, none, List, [], ◌∷◌, ◌++◌, ◌==◌,
  is_some, arith, eq_iff, eq_refl, Bool-cases,
}
use vm_forgeyard.Prelude.Rows.{fetch, update}
use vm_forgeyard.Lock.{LockResource, of_resource, set_holder, insert_resource}
use vm_forgeyard.Lock.Requests.{is_holder, held_by}
use vm_forgeyard.Lock.Invariant.Defs.{holder}

-- Equality of texts, as the tests of three texts need it.
pub same_text : (a b c : String) → (a == b) ≡ true → (a == c) ≡ (b == c)
same_text a b c h = ap (λ (t : String). t == c) ((eq_iff a b).0 h)

pub text_sym : (a b : String) → (a == b) ≡ (b == a)
text_sym a b = ground (arith, eq_iff a b, eq_iff b a)

-- A new resource row has no holder, and no other holder changes.
holder_new :
    (row : LockResource) (rs : List LockResource) (r : String)
    → row.holder_namespace ≡ none
    → holder (rs ++ row ∷ []) r ≡ holder rs r
holder_new row [] r e = elim (Bool-cases (row.resource_id == r)) [ inl f ↦ rw f e | inr f ↦ rw f ]
holder_new row (x ∷ rs) r e = elim (Bool-cases (x.resource_id == r)) [
  | inl f ↦ rw f
  | inr f ↦ rw f (holder_new row rs r e)
]

pub holder-insert_resource :
    (now : ℕ) (new : String) (rs : List LockResource) (r : String)
    → holder (insert_resource now new rs) r ≡ holder rs r
unfolding insert_resource
holder-insert_resource now new rs r = elim (Bool-cases (is_some (fetch (of_resource new) rs))) [
  | inl e ↦ rw e
  | inr e ↦ rw e (holder_new _ rs r refl)
]

known_new :
    (row : LockResource) (rs : List LockResource)
    → is_some (fetch (of_resource row.resource_id) (rs ++ row ∷ [])) ≡ true
known_new row [] = rw (eq_refl row.resource_id)
known_new row (x ∷ rs) = elim (Bool-cases (x.resource_id == row.resource_id)) [
  | inl f ↦ rw f
  | inr f ↦ rw f (known_new row rs)
]

pub known-insert_resource :
    (now : ℕ) (new : String) (rs : List LockResource)
    → is_some (fetch (of_resource new) (insert_resource now new rs)) ≡ true
unfolding insert_resource
known-insert_resource now new rs = elim (Bool-cases (is_some (fetch (of_resource new) rs))) [
  | inl e ↦ rw e e
  | inr e ↦ rw e (known_new _ rs)
]

-- An update that spares the row of a resource leaves its holder.
pub holder-update_other :
    (test : LockResource → Bool) (h : Option String) (now : ℕ) (rs : List LockResource) (r : String)
    → ((x : LockResource) → (x.resource_id == r) ≡ true → test x ≡ false)
    → holder (update test (set_holder h now) rs) r ≡ holder rs r
holder-update_other test h now [] r spares = refl
holder-update_other test h now (x ∷ rs) r spares = elim (Bool-cases (x.resource_id == r)) [
  | inl f ↦ rw (spares x f, f)
  | inr f ↦ elim (Bool-cases (test x)) [
    | inl e ↦ rw (e, f) (holder-update_other test h now rs r spares)
    | inr e ↦ rw (e, f) (holder-update_other test h now rs r spares)
  ]
]

pub other_resource :
    (res r : String) (x : LockResource)
    → (res == r) ≡ false
    → (x.resource_id == r) ≡ true
    → of_resource res x ≡ false
other_resource res r x ne e =
    ground (arith, eq_iff res r, eq_iff x.resource_id r, eq_iff x.resource_id res)

pub holder-set_self :
    (h : Option String) (now : ℕ) (res : String) (rs : List LockResource)
    → is_some (fetch (of_resource res) rs) ≡ true
    → holder (update (of_resource res) (set_holder h now) rs) res ≡ h
holder-set_self h now res [] k = cc
holder-set_self h now res (x ∷ rs) k = elim (Bool-cases (x.resource_id == res)) [
  | inl e ↦ rw (e, e)
  | inr e ↦ rw (e, e) (holder-set_self h now res rs (rw e at k))
]

pub holder-clear_self :
    (now : ℕ) (res n : String) (rs : List LockResource)
    → is_holder n (holder rs res) ≡ true
    → holder (update (held_by res n) (set_holder none now) rs) res ≡ none
holder-clear_self now res n [] k = refl
holder-clear_self now res n (x ∷ rs) k = elim (Bool-cases (x.resource_id == res)) [
  | inl e ↦ rw e (rw (rw e at k) (rw e))
  | inr e ↦ rw (e, e) (holder-clear_self now res n rs (rw e at k))
]

pub holder-clear_kept :
    (now : ℕ) (res n : String) (rs : List LockResource)
    → is_holder n (holder rs res) ≡ false
    → holder (update (held_by res n) (set_holder none now) rs) res ≡ holder rs res
holder-clear_kept now res n [] k = refl
holder-clear_kept now res n (x ∷ rs) k = elim (Bool-cases (x.resource_id == res)) [
  | inl e ↦ rw e (rw (rw e at k) (rw e))
  | inr e ↦ rw (e, e) (holder-clear_kept now res n rs (rw e at k))
]

-- A resource keeps its row.
pub known-update :
    (test : LockResource → Bool) (h : Option String) (now : ℕ) (rs : List LockResource) (r : String)
    → is_some (fetch (of_resource r) (update test (set_holder h now) rs))
      ≡ is_some (fetch (of_resource r) rs)
known-update test h now [] r = refl
known-update test h now (x ∷ rs) r = elim (Bool-cases (test x)) [
  | inl e ↦ elim (Bool-cases (x.resource_id == r)) [
    | inl f ↦ rw (e, f)
    | inr f ↦ rw (e, f) (known-update test h now rs r)
  ]
  | inr e ↦ elim (Bool-cases (x.resource_id == r)) [
    | inl f ↦ rw (e, f)
    | inr f ↦ rw (e, f) (known-update test h now rs r)
  ]
]

-- What is held has a row.
pub known_of_holder :
    (rs : List LockResource) (r : String)
    → is_some (holder rs r) ≡ true
    → is_some (fetch (of_resource r) rs) ≡ true
known_of_holder [] r h = h
known_of_holder (x ∷ rs) r h = elim (Bool-cases (x.resource_id == r)) [
  | inl f ↦ rw f
  | inr f ↦ rw f (known_of_holder rs r (rw f at h))
]
