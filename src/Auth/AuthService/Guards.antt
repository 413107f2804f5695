-- ===== src/Auth/AuthService/Guards.antt =====
-- What has to hold before a login or a registration changes anything.
use project_chat.Common.{
  ℕ, String, ◌≡◌, refl, true, false, not, ◌||◌, ◌⊎◌, inl, inr, Option, some, List, arith, eqb,
  length, is_empty, if-cases, Option-both,
}
use project_chat.Storage.UserTypes.{UserAuthInfo}
use project_chat.Auth.AuthService.{
  AuthService, AuthResult, login, validate_password_strength, register_user,
}

module _ {D : Type 0} (a : AuthService D) where
  pub record Admitted (d : D) (account_id : String) (password : List ℕ) : Type 0 where
    pub user : UserAuthInfo
    pub known : a.user_repo.find_auth_info_by_account_id d account_id ≡ some user
    pub enabled : user.status ≡ 0
    pub verified : a.verify_password password user.password_hash user.password_salt ≡ true

  -- Refused without a change, or admitted.
  pub record IsGuarded (P : Type 0) (d : D) (out : AuthResult × D) : Type 0 where
    pub outcome : ((out.0.ok ≡ false) × (out.1 ≡ d)) ⊎ P

  login-IsGuarded :
      (d : D) (account_id : String) (password : List ℕ) (raw : String) (issued now : ℕ)
      → IsGuarded (Admitted d account_id password) d (login a d account_id password raw issued now)
  unfolding login
  login-IsGuarded d account_id password raw issued now =
      let P = IsGuarded (Admitted d account_id password) d in
      if-cases P (is_empty account_id || eqb (length password) 0)
        (λ _. record { outcome = inl (refl, refl) })
        (λ _.
          Option-both P (a.user_repo.find_auth_info_by_account_id d account_id)
            (λ _. record { outcome = inl (refl, refl) })
            (λ user known.
              if-cases P (not (eqb user.status 0)) (λ _. record { outcome = inl (refl, refl) })
                (λ enabled.
                  if-cases P
                    (not (a.verify_password password user.password_hash user.password_salt))
                    (λ _. record { outcome = inl (refl, refl) })
                    (λ verified. record {
                      outcome = inr (record {
                        user = user;
                        known = known;
                        enabled = ground (arith, enabled);
                        verified = ground (arith, verified);
                      });
                    }))))

  register_user-IsGuarded :
      (d : D) (username : String) (password : List ℕ) (hashed : Option (String × String))
      (ids : List String)
      → IsGuarded
          (validate_password_strength password ≡ true)
          d
          (register_user a d username password hashed ids)
  unfolding register_user
  register_user-IsGuarded d username password hashed ids =
      let P = IsGuarded (validate_password_strength password ≡ true) d in
      if-cases P (is_empty username) (λ _. record { outcome = inl (refl, refl) })
        (λ _.
          if-cases P (eqb (length password) 0) (λ _. record { outcome = inl (refl, refl) })
            (λ _.
              if-cases P (not (validate_password_strength password))
                (λ _. record { outcome = inl (refl, refl) })
                (λ strong.
                  Option-both P hashed (λ _. record { outcome = inl (refl, refl) })
                    (λ h _. record { outcome = inr (ground (arith, strong)) }))))

  -- A login fails without a change, or the account is known and enabled and its password
  -- verifies; a registration fails without a change, or its password is strong.
  pub entry-IsGuarded :
      (d : D) (username account_id : String) (password : List ℕ) (hashed : Option (String × String))
      (ids : List String) (raw : String) (issued now : ℕ)
      → IsGuarded (Admitted d account_id password) d (login a d account_id password raw issued now)
        × IsGuarded
            (validate_password_strength password ≡ true)
            d
            (register_user a d username password hashed ids)
  entry-IsGuarded d username account_id password hashed ids raw issued now = (
    login-IsGuarded d account_id password raw issued now,
    register_user-IsGuarded d username password hashed ids,
  )
