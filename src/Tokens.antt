-- ===== src/Tokens.antt =====
-- src/kvm_control/db.py: the tables of tokens and of self-registration keys, and the methods of
-- `Registry` on them. `now` is the time of the call; the order of listings is left out.
pub mod Revoked
pub mod Registered
mod Tests
use vm_forgeyard.Prelude.{
  ℕ, String, Bool, true, false, not, ◌&&◌, ◌||◌, Option, none, some, List, [], ◌∷◌, ◌++◌, ◌==◌,
  if◌then◌else◌, is_some, is_none, Result, ok, err, ◌>>=◌, or_raise,
}
use vm_forgeyard.Prelude.Rows.{fetch, update, any}

pub record AuthToken : Type 0 where
  pub token_id : String
  pub username : String
  pub role : String
  pub namespace : Option String
  pub secret_hash : String
  pub created_at : ℕ
  pub last_used_at : Option ℕ
  pub revoked_at : Option ℕ

pub record RegistrationKey : Type 0 where
  pub key_id : String
  pub name : String
  pub secret_hash : String
  pub source_cidrs : List String
  pub created_at : ℕ
  pub last_used_at : Option ℕ
  pub revoked_at : Option ℕ

-- `type_error` is `dict(None)`.
pub data TokenError : Type 0 where
  integrity_error type_error : TokenError
  value_error : String → TokenError

abbrev pub with_token_id : String → AuthToken → Bool
with_token_id token_id r = r.token_id == token_id

abbrev pub with_username : String → AuthToken → Bool
with_username username r = r.username == username

abbrev pub with_key_id : String → RegistrationKey → Bool
with_key_id key_id r = r.key_id == key_id

abbrev pub with_name : String → RegistrationKey → Bool
with_name name r = r.name == name

unfoldable pub new_token : ℕ → String → String → String → Option String → String → AuthToken
new_token now token_id username role namespace secret_hash = record {
  token_id = token_id;
  username = username;
  role = role;
  namespace = namespace;
  secret_hash = secret_hash;
  created_at = now;
  last_used_at = none;
  revoked_at = none;
}

-- INSERT: the id and the username are unique.
unfoldable pub insert_token : List AuthToken → AuthToken → Result TokenError (List AuthToken)
insert_token ts row =
    if any (with_token_id row.token_id) ts || any (with_username row.username) ts
    then err integrity_error
    else ok (ts ++ row ∷ [])

unfoldable pub create_auth_token :
    ℕ
    → List AuthToken
    → String
    → String
    → String
    → Option String
    → String
    → Result TokenError (List AuthToken × AuthToken)
unfolding insert_token new_token
create_auth_token now ts token_id username role namespace secret_hash = do
  ts' ← insert_token ts (new_token now token_id username role namespace secret_hash)
  row ← or_raise (fetch (with_token_id token_id) ts') type_error
  ok (ts', row)

-- UPDATE ... WHERE username: the new id must not be that of another row.
abbrev pub reissue : ℕ → String → String → Option String → String → AuthToken → AuthToken
reissue now token_id role namespace secret_hash r = record r {
  token_id = token_id;
  role = role;
  namespace = namespace;
  secret_hash = secret_hash;
  created_at = now;
  last_used_at = none;
  revoked_at = none;
}

-- Whether a row of another user has the id.
abbrev pub taken_by_other : String → String → AuthToken → Bool
taken_by_other token_id username r = r.token_id == token_id && not (r.username == username)

unfoldable pub reissue_token :
    ℕ
    → List AuthToken
    → String
    → String
    → String
    → Option String
    → String
    → Result TokenError (List AuthToken)
reissue_token now ts token_id username role namespace secret_hash =
    if any (taken_by_other token_id username) ts
    then err integrity_error
    else ok (update (with_username username) (reissue now token_id role namespace secret_hash) ts)

-- The three cases of the row that has the username.
unfoldable pub replace_row :
    ℕ
    → List AuthToken
    → String
    → String
    → String
    → Option String
    → String
    → Option AuthToken
    → Result TokenError (List AuthToken)
unfolding insert_token reissue_token new_token
replace_row now ts token_id username role namespace secret_hash none =
    insert_token ts (new_token now token_id username role namespace secret_hash)
replace_row now ts token_id username role namespace secret_hash (some existing) =
    if is_some existing.revoked_at
    then reissue_token now ts token_id username role namespace secret_hash
    else err (value_error "repository is already registered")

unfoldable pub replace_revoked_auth_token :
    ℕ
    → List AuthToken
    → String
    → String
    → String
    → Option String
    → String
    → Result TokenError (List AuthToken × AuthToken)
unfolding replace_row
replace_revoked_auth_token now ts token_id username role namespace secret_hash = do
  ts' ←
      replace_row now ts token_id username role namespace secret_hash
        (fetch (with_username username) ts)
  row ← or_raise (fetch (with_username username) ts') type_error
  ok (ts', row)

unfoldable pub get_auth_token : List AuthToken → String → Option AuthToken
get_auth_token ts token_id = fetch (with_token_id token_id) ts

unfoldable pub get_auth_token_by_username : List AuthToken → String → Option AuthToken
get_auth_token_by_username ts username = fetch (with_username username) ts

unfoldable pub mark_auth_token_used : ℕ → List AuthToken → String → List AuthToken
mark_auth_token_used now ts token_id =
    update (with_token_id token_id) (λ r. record r { last_used_at = some now }) ts

-- WHERE token_id = ? AND revoked_at IS NULL
abbrev pub unrevoked : String → AuthToken → Bool
unrevoked token_id r = r.token_id == token_id && is_none r.revoked_at

unfoldable pub revoke_auth_token : ℕ → List AuthToken → String → List AuthToken × Option AuthToken
revoke_auth_token now ts token_id =
    let ts' = update (unrevoked token_id) (λ r. record r { revoked_at = some now }) ts in
    (ts', fetch (with_token_id token_id) ts')

unfoldable pub create_registration_key :
    ℕ
    → List RegistrationKey
    → String
    → String
    → String
    → List String
    → Result TokenError (List RegistrationKey × RegistrationKey)
create_registration_key now ks key_id name secret_hash source_cidrs =
    let row : RegistrationKey = record {
      key_id = key_id;
      name = name;
      secret_hash = secret_hash;
      source_cidrs = source_cidrs;
      created_at = now;
      last_used_at = none;
      revoked_at = none;
    } in
    if any (with_key_id key_id) ks || any (with_name name) ks
    then err integrity_error
    else ok (ks ++ row ∷ [], row)

unfoldable pub get_registration_key : List RegistrationKey → String → Option RegistrationKey
get_registration_key ks key_id = fetch (with_key_id key_id) ks

unfoldable pub mark_registration_key_used : ℕ → List RegistrationKey → String → List RegistrationKey
mark_registration_key_used now ks key_id =
    update (with_key_id key_id) (λ r. record r { last_used_at = some now }) ks

unfoldable pub revoke_registration_key :
    ℕ → List RegistrationKey → String → List RegistrationKey × Option RegistrationKey
revoke_registration_key now ks key_id =
    let ks' =
      update (λ r. r.key_id == key_id && is_none r.revoked_at)
        (λ r. record r { revoked_at = some now }) ks in
    (ks', fetch (with_key_id key_id) ks')
