-- ===== src/Auth/AuthService.antt =====
-- src/auth/AuthService.cpp, with what it uses of src/security/TokenManager.cpp: registration, login
-- and logout. A password is its bytes. SHA-256 and the check of a password are parameters; random
-- texts and readings of the clock are arguments. The text of an exception is left empty.
pub mod Strength
pub mod Guards
pub mod Tokens
use project_chat.Common.{
  ℕ, zero, suc, ◌+◌, ◌*◌, String, Bool, true, false, not, ◌&&◌, ◌||◌, Option, none, some, List, [],
  ◌∷◌, length, ltb, leb, eqb, if◌then◌else◌, is_empty,
}
use project_chat.Storage.Results.{is_ok}
use project_chat.Storage.UserTypes.{UserAuthInfo, StoredUserSession}
use project_chat.Storage.Repos.{UserRepo, UserSessionRepo, UserProfileRepo}

pub record AuthService (D : Type 0) : Type 0 where
  pub user_repo : UserRepo D
  pub user_session_repo : UserSessionRepo D
  pub user_profile_repo : UserProfileRepo D
  pub verify_password : List ℕ → String → String → Bool
  pub sha256_hex : String → String

pub data AuthStatus : Type 0 where
  ok invalid_argument user_not_found bad_password user_disabled already_exist : AuthStatus
  weak_password invalid_token token_expired token_revoked internal : AuthStatus

pub record IssuedToken : Type 0 where
  pub raw_token : String
  pub token_hash : String
  pub expire_at_ms : ℕ

pub record AuthResult : Type 0 where
  pub ok : Bool
  pub status : AuthStatus
  pub user : Option UserAuthInfo
  pub message : String
  pub issued_token : Option IssuedToken
  pub token_expire_at_ms : Option ℕ

pub record LogoutResult : Type 0 where
  pub ok : Bool
  pub status : AuthStatus
  pub revoked_now : Bool
  pub already_logged_out : Bool

abbrev pub failed : AuthStatus → String → AuthResult
failed status message = record {
  ok = false;
  status = status;
  user = none;
  message = message;
  issued_token = none;
  token_expire_at_ms = none;
}

abbrev pub not_logged_out : AuthStatus → LogoutResult
not_logged_out status = record {
  ok = false;
  status = status;
  revoked_now = false;
  already_logged_out = false;
}

-- `std::isupper`, `std::islower` and `std::isdigit` in the C locale.
abbrev pub is_upper : ℕ → Bool
is_upper c = leb 65 c && leb c 90

abbrev pub is_lower : ℕ → Bool
is_lower c = leb 97 c && leb c 122

abbrev pub is_digit : ℕ → Bool
is_digit c = leb 48 c && leb c 57

-- The loop over the characters, with the three flags.
pub has_all : Bool → Bool → Bool → List ℕ → Bool
has_all upper lower digit [] = false
has_all upper lower digit (c ∷ cs) =
    let upper' = upper || is_upper c in
    let lower' = lower || (not (is_upper c) && is_lower c) in
    let digit' = digit || (not (is_upper c) && (not (is_lower c) && is_digit c)) in
    let rest = has_all upper' lower' digit' cs in
    if upper' && (lower' && digit') then true else rest

pub validate_password_strength : List ℕ → Bool
unfolding has_all
validate_password_strength password =
    if ltb (length password) 8 || ltb 32 (length password)
    then false
    else has_all false false false password

module _ {D : Type 0} (a : AuthService D) where
  -- `TokenManager::hashToken`
  pub hash_token : String → String
  hash_token raw_token = if is_empty raw_token then "" else a.sha256_hex raw_token

  -- `TokenManager::issueToken`, of a random text at a time.
  pub issue_token : String → ℕ → IssuedToken
  issue_token raw_token now_ms = record {
    raw_token = raw_token;
    token_hash = a.sha256_hex raw_token;
    expire_at_ms = now_ms + 7 * 24 * 3600 * 1000;
  }

  -- From the successful `createUser` on.
  pub create_profile : D → String → String → AuthResult × D
  create_profile d account_id username =
      elim (a.user_repo.find_auth_info_by_account_id d account_id) [
        | none ↦ (failed user_not_found "", d)
        | some user ↦
            let (created, d') =
              a.user_profile_repo.create_default_profile d user.user_id user.account_id username in
            (
              if is_ok created.status
                  then record {
                    ok = true;
                    status = AuthStatus.ok;
                    user = some user;
                    message = "";
                    issued_token = none;
                    token_expire_at_ms = none;
                  }
                  else failed internal "Failed to create userProfile",
              d',
            )
      ]

  -- The loop of at most `n` more attempts; where no id is left, the generator throws.
  pub create_attempts : ℕ → D → String → String × String → List String → AuthResult × D
  unfolding create_profile
  create_attempts zero d username hashed account_ids = (failed internal "", d)
  create_attempts (suc n) d username hashed [] = (failed internal "", d)
  create_attempts (suc n) d username (hash, salt) (account_id ∷ account_ids) =
      let (created, d') = a.user_repo.create_user d account_id username hash salt in
      let rest = create_attempts n d' username (hash, salt) account_ids in
      if is_ok created.status then create_profile d' account_id username else rest

  -- The hash of the password is `none` where the hashing throws.
  pub register_user : D → String → List ℕ → Option (String × String) → List String → AuthResult × D
  unfolding create_attempts
  register_user d username password hashed account_ids =
      if is_empty username
      then (failed invalid_argument "username is empty", d)
      else if eqb (length password) 0
      then (failed invalid_argument "password is empty", d)
      else if not (validate_password_strength password)
      then (failed weak_password "password is too weak", d)
      else elim hashed [
        | none ↦ (failed internal "", d)
        | some h ↦ create_attempts 5 d username h account_ids
      ]

  -- From the right password on, with a reading of the clock for the token and one for the session.
  pub save_session : D → UserAuthInfo → String → ℕ → ℕ → AuthResult × D
  unfolding issue_token
  save_session d user raw_token issued_ms now_ms =
      let token = issue_token raw_token issued_ms in
      let (saved, d') = a.user_session_repo.create_session d (record {
        user_id = user.user_id;
        account_id = user.account_id;
        username = user.username;
        token_hash = token.token_hash;
        expire_at_ms = token.expire_at_ms;
        create_at_ms = now_ms;
        last_seen_at_ms = now_ms;
        revoked = false;
        revoked_at_ms = none;
      }) in
      (
        if is_ok saved.status
            then record {
              ok = true;
              status = AuthStatus.ok;
              user = some user;
              message = "";
              issued_token = some token;
              token_expire_at_ms = some token.expire_at_ms;
            }
            else failed internal saved.message,
        d',
      )

  pub login : D → String → List ℕ → String → ℕ → ℕ → AuthResult × D
  unfolding save_session
  login d account_id password raw_token issued_ms now_ms =
      if is_empty account_id || eqb (length password) 0
      then (failed invalid_argument "username or password is empty", d)
      else elim (a.user_repo.find_auth_info_by_account_id d account_id) [
        | none ↦ (failed user_not_found "", d)
        | some user ↦
            if not (eqb user.status 0)
            then (failed user_disabled "", d)
            else if not (a.verify_password password user.password_hash user.password_salt)
            then (failed bad_password "password is wrong", d)
            else save_session d user raw_token issued_ms now_ms
      ]

  -- From the session that is found on.
  pub resume : D → StoredUserSession → ℕ → AuthResult × D
  resume d session now_ms =
      let (touched, d') = a.user_session_repo.touch_session d session.token_hash now_ms in
      if session.revoked
      then (failed token_revoked "", d)
      else if leb session.expire_at_ms now_ms
      then (failed token_expired "", d)
      else if not (is_ok touched.status)
      then (failed internal "Failed to update lastSeenAtMs", d')
      else (
        record {
          ok = true;
          status = AuthStatus.ok;
          user = some (record {
            user_id = session.user_id;
            account_id = session.account_id;
            username = session.username;
            password_hash = "";
            password_salt = "";
            status = 0;
          });
          message = "";
          issued_token = none;
          token_expire_at_ms = some session.expire_at_ms;
        },
        d',
      )

  pub login_by_token : D → String → ℕ → AuthResult × D
  unfolding hash_token resume
  login_by_token d raw_token now_ms =
      let token_hash = hash_token raw_token in
      if is_empty raw_token
      then (failed invalid_argument "rawToken is empty", d)
      else if is_empty token_hash
      then (failed invalid_token "Failed to get tokenHash", d)
      else elim (a.user_session_repo.find_by_token_hash d token_hash) [
        | none ↦ (failed invalid_token "", d)
        | some session ↦ resume d session now_ms
      ]

  pub logout : D → String → ℕ → LogoutResult × D
  unfolding hash_token
  logout d raw_token now_ms =
      let token_hash = hash_token raw_token in
      let (revoked, d') = a.user_session_repo.revoke_session d token_hash now_ms in
      if is_empty raw_token || is_empty token_hash
      then (not_logged_out invalid_token, d)
      else elim (a.user_session_repo.find_by_token_hash d token_hash) [
        | none ↦ (not_logged_out invalid_token, d)
        | some session ↦
            if session.revoked
            then (
              record {
                ok = true;
                status = AuthStatus.ok;
                revoked_now = false;
                already_logged_out = true;
              },
              d,
            )
            else if is_ok revoked.status
            then (
              record {
                ok = true;
                status = AuthStatus.ok;
                revoked_now = true;
                already_logged_out = false;
              },
              d',
            )
            else (not_logged_out internal, d')
      ]
