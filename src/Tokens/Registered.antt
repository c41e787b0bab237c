-- ===== src/Tokens/Registered.antt =====
-- What a registration in the place of a revoked token does to the table.
use vm_forgeyard.Prelude.{
  ℕ, ◌≡◌, refl, ap, sym, subst, ◌∙◌, inl, inr, String, Bool, true, false, ◌||◌, Option, none, some,
  List, [], ◌∷◌, ◌++◌, ◌==◌, is_some, ok, ok-injective, Bool-cases, Result-cases, arith, eq_iff,
  eq_refl,
}
use mathlib.Core.Option.{some-injective}
use vm_forgeyard.Prelude.Rows.{
  fetch, update, any, fetch-append, fetch-update_key, fetch-update_other, fetch-meets, All-every,
}
use vm_forgeyard.Tokens.{
  AuthToken, with_token_id, with_username, new_token, insert_token, reissue, taken_by_other,
  reissue_token, replace_row, replace_revoked_auth_token, get_auth_token_by_username,
}

module _ (now : ℕ) (token_id username role : String) (namespace : Option String)
    (secret_hash : String) where
  abbrev pub issued : AuthToken
  unfolding new_token
  issued = new_token now token_id username role namespace secret_hash

  -- A row that is appended is found by its name, and the rows of the other names are as they were.
  fetch-append_other :
      (test : AuthToken → Bool) (ts : List AuthToken) (row : AuthToken)
      → test row ≡ false
      → fetch test (ts ++ row ∷ []) ≡ fetch test ts
  fetch-append_other test [] row h = rw h
  fetch-append_other test (r ∷ ts) row h = elim (Bool-cases (test r)) [
    | inl e ↦ rw e
    | inr e ↦ rw e (fetch-append_other test ts row h)
  ]

  -- The table after a registration, with the row of the name.
  abbrev pub IsRegistered : List AuthToken → List AuthToken → Type 0
  IsRegistered before after =
      (get_auth_token_by_username after username ≡ some issued)
      × ((row : AuthToken)
          → get_auth_token_by_username before username ≡ some row
          → is_some row.revoked_at ≡ true)
      × ((other : String)
          → (username == other) ≡ false
          → get_auth_token_by_username after other ≡ get_auth_token_by_username before other)

  reissued_row :
      (r : AuthToken)
      → with_username username r ≡ true
      → reissue now token_id role namespace secret_hash r ≡ issued
  unfolding new_token
  reissued_row r h =
      ap (λ name. new_token now token_id name role namespace secret_hash)
        ((eq_iff r.username username).0 h)

  inserted-IsRegistered :
      (ts after : List AuthToken)
      → fetch (with_username username) ts ≡ none
      → insert_token ts issued ≡ ok after
      → IsRegistered ts after
  unfolding insert_token new_token get_auth_token_by_username
  inserted-IsRegistered ts after free h =
      elim (Bool-cases (any (with_token_id token_id) ts || any (with_username username) ts)) [
        | inl e ↦ cc (rw e at h)
        | inr e ↦ subst (IsRegistered ts) (ok-injective (ts ++ issued ∷ []) after (rw e at h)) (
          fetch-append (with_username username) ts issued free (eq_refl username),
          λ row k. cc,
          λ other k. fetch-append_other (with_username other) ts issued k,
        )
      ]

  reissued-IsRegistered :
      (ts after : List AuthToken) (row : AuthToken)
      → fetch (with_username username) ts ≡ some row
      → is_some row.revoked_at ≡ true
      → reissue_token now ts token_id username role namespace secret_hash ≡ ok after
      → IsRegistered ts after
  unfolding reissue_token get_auth_token_by_username
  reissued-IsRegistered ts after row found revoked h =
      let change = reissue now token_id role namespace secret_hash in
      elim (Bool-cases (any (taken_by_other token_id username) ts)) [
        | inl e ↦ cc (rw e at h)
        | inr e ↦
            subst (IsRegistered ts)
              (ok-injective (update (with_username username) change ts) after (rw e at h))
              (
                fetch-update_key (with_username username) (with_username username) change ts
                      (λ r. refl)
                    ∙ rw (found, fetch-meets (with_username username) ts row found)
                        (ap (λ r. some r)
                          (reissued_row row (fetch-meets (with_username username) ts row found))),
                λ r k.
                    subst (λ x. is_some x.revoked_at ≡ true) (some-injective row r (sym found ∙ k))
                      revoked,
                λ other k.
                    fetch-update_other (with_username other) (with_username username) change ts
                      (All-every _ (λ r g. ground (arith, k, g, eq_iff r.username username)) ts)
                      (λ r g. ground (arith, k, g, eq_iff r.username username)),
              )
      ]

  replaced-IsRegistered :
      (ts after : List AuthToken) (found : Option AuthToken)
      → fetch (with_username username) ts ≡ found
      → replace_row now ts token_id username role namespace secret_hash found ≡ ok after
      → IsRegistered ts after
  unfolding replace_row
  replaced-IsRegistered ts after none known h = inserted-IsRegistered ts after known h
  replaced-IsRegistered ts after (some row) known h = elim (Bool-cases (is_some row.revoked_at)) [
    | inl e ↦ reissued-IsRegistered ts after row known e (rw e at h)
    | inr e ↦ cc (rw e at h)
  ]

  -- A registration of a username that returns gives the row with the new id and the new hash, not
  -- revoked, and this is the row of the username in the table; if the username had a row before, that
  -- one was revoked; and the row of every other username is as it was.
  pub registered_lem :
      (ts : List AuthToken) (r : List AuthToken × AuthToken)
      → replace_revoked_auth_token now ts token_id username role namespace secret_hash ≡ ok r
      → (r.1 ≡ issued) × IsRegistered ts r.0
  unfolding replace_revoked_auth_token get_auth_token_by_username
  registered_lem ts r h =
      elim (Result-cases (
        replace_row now ts token_id username role namespace secret_hash
          (fetch (with_username username) ts))) [
            | inl e ↦ cc (rw e.1 at h)
            | inr e ↦
                let all =
                  replaced-IsRegistered ts e.0 (fetch (with_username username) ts) refl e.1 in
                let same = ok-injective (e.0, issued) r (rw (e.1, all.0) at h) in
                subst (λ x. (x.1 ≡ issued) × IsRegistered ts x.0) same (refl, all)
          ]
