-- ===== src/Auth/AuthService/Tokens.antt =====
-- A token from its issue by a login to its revocation by a logout.
use mathlib.Core.Option
use project_chat.Common.{
  ℕ, ◌+◌, ◌*◌, ◌<◌, ◌≤◌, String, ◌≡◌, refl, true, false, not, ◌||◌, inl, inr, none, some, arith, ap,
  ◌∙◌, eqb, length, is_empty, List, if-cases, Option-both, Bool-cases, leb_of_lt, le→leb,
}
use project_chat.Storage.Results.{is_ok}
use project_chat.Storage.UserTypes.{UserAuthInfo, StoredUserSession}
use project_chat.Auth.AuthService.{
  AuthService, AuthResult, LogoutResult, token_revoked, token_expired, hash_token, issue_token,
  save_session, login, resume, login_by_token, logout, not_logged_out, invalid_token, internal,
}

-- A table of sessions finds one that was saved, and not revoked, under the hash of its token.
pub record FindsSaved {D : Type 0} (a : AuthService D) : Type 0 where
  pub saved :
      (d : D) (s : StoredUserSession)
      → s.revoked ≡ false
      → s.revoked_at_ms ≡ none
      → is_ok (a.user_session_repo.create_session d s).0.status ≡ true
      → a.user_session_repo.find_by_token_hash
          (a.user_session_repo.create_session d s).1
          s.token_hash
        ≡ some s

-- A table of sessions finds one that was revoked as revoked.
pub record FindsRevoked {D : Type 0} (a : AuthService D) : Type 0 where
  pub revoked :
      (d : D) (hash : String) (now : ℕ) (s : StoredUserSession)
      → a.user_session_repo.find_by_token_hash d hash ≡ some s
      → is_ok (a.user_session_repo.revoke_session d hash now).0.status ≡ true
      → (s' : StoredUserSession) × (a.user_session_repo.find_by_token_hash
            (a.user_session_repo.revoke_session d hash now).1
            hash
          ≡ some s')
        × (s'.revoked ≡ true)

module _ {D : Type 0} (a : AuthService D) (raw : String) where
  -- A login by a token whose session is known is its resumption.
  login_by_token-resume :
      (d : D) (s : StoredUserSession) (t : ℕ)
      → (is_empty raw || is_empty (hash_token a raw)) ≡ false
      → a.user_session_repo.find_by_token_hash d (hash_token a raw) ≡ some s
      → login_by_token a d raw t ≡ resume a d s t
  unfolding login_by_token
  login_by_token-resume d s t hashed known = ground (arith, hashed, known)

  resume-revoked :
      (d : D) (s : StoredUserSession) (t : ℕ)
      → s.revoked ≡ true
      → ((resume a d s t).0.status ≡ token_revoked)
        × ((resume a d s t).0.ok ≡ false)
        × ((resume a d s t).1 ≡ d)
  unfolding resume
  resume-revoked d s t r = rw (r, resume) (refl, refl, refl)

  -- After a logout that was answered with success the token opens nothing any more.
  pub record IsShut (out : LogoutResult × D) : Type 0 where
    pub shut :
        out.0.ok ≡ true
        → (t : ℕ)
        → ((login_by_token a out.1 raw t).0.status ≡ token_revoked)
          × ((login_by_token a out.1 raw t).0.ok ≡ false)
          × ((login_by_token a out.1 raw t).1 ≡ out.1)

  refused-IsShut : (r : LogoutResult) (d : D) → r.ok ≡ false → IsShut (r, d)
  refused-IsShut r d bad = record { shut = λ good. absurd (ground (arith, good, bad)) }

  shut_by :
      (d : D) (s : StoredUserSession) (t : ℕ)
      → (is_empty raw || is_empty (hash_token a raw)) ≡ false
      → a.user_session_repo.find_by_token_hash d (hash_token a raw) ≡ some s
      → s.revoked ≡ true
      → ((login_by_token a d raw t).0.status ≡ token_revoked)
        × ((login_by_token a d raw t).0.ok ≡ false)
        × ((login_by_token a d raw t).1 ≡ d)
  shut_by d s t hashed known r =
      rw (login_by_token-resume d s t hashed known) (resume-revoked d s t r)

  -- After a logout that is answered with success its token is answered as revoked at any time,
  -- and changes nothing, given a table of sessions that finds a revoked one as revoked.
  pub logout-IsShut : FindsRevoked a → (d : D) (now : ℕ) → IsShut (logout a d raw now)
  unfolding logout
  logout-IsShut keeps d now =
      let hash = hash_token a raw in
      if-cases IsShut (is_empty raw || is_empty hash)
        (λ _. refused-IsShut (not_logged_out invalid_token) d refl)
        (λ hashed.
          Option-both IsShut (a.user_session_repo.find_by_token_hash d hash)
            (λ _. refused-IsShut (not_logged_out invalid_token) d refl)
            (λ s known.
              if-cases IsShut s.revoked
                (λ r. record { shut = λ ok t. shut_by d s t hashed known r })
                (λ r.
                  if-cases IsShut (is_ok (a.user_session_repo.revoke_session d hash now).0.status)
                    (λ done.
                      let (s', known', r') = keeps.revoked d hash now s known done in
                      record { shut = λ ok t. shut_by _ s' t hashed known' r' })
                    (λ undone. refused-IsShut (not_logged_out internal) _ refl))))

  -- A session as a login saves it.
  abbrev session_of : UserAuthInfo → ℕ → ℕ → StoredUserSession
  session_of user issued now = record {
    user_id = user.user_id;
    account_id = user.account_id;
    username = user.username;
    token_hash = a.sha256_hex raw;
    expire_at_ms = issued + 7 * 24 * 3600 * 1000;
    create_at_ms = now;
    last_seen_at_ms = now;
    revoked = false;
    revoked_at_ms = none;
  }

  abbrev identity : UserAuthInfo → ℕ × String × String
  identity u = (u.user_id, u.account_id, u.username)

  -- A token works for its account for seven days, and not after.
  pub record Opens (issued : ℕ) (out : AuthResult × D) : Type 0 where
    pub late :
        out.0.ok ≡ true
        → (t : ℕ) → issued + 7 * 24 * 3600 * 1000 ≤ t
        → (login_by_token a out.1 raw t).0.status ≡ token_expired
    pub timely :
        out.0.ok ≡ true
        → (t : ℕ) → t < issued + 7 * 24 * 3600 * 1000
        → is_ok (a.user_session_repo.touch_session out.1 (a.sha256_hex raw) t).0.status ≡ true
        → ((login_by_token a out.1 raw t).0.ok ≡ true)
          × (Option.map identity (login_by_token a out.1 raw t).0.user
              ≡ Option.map identity out.0.user)

  resume-late :
      (d : D) (user : UserAuthInfo) (issued now t : ℕ)
      → issued + 7 * 24 * 3600 * 1000 ≤ t
      → (resume a d (session_of user issued now) t).0.status ≡ token_expired
  unfolding resume
  resume-late d user issued now t late = rw (le→leb _ _ late, resume) refl

  refused-Opens : (issued : ℕ) (r : AuthResult) (d : D) → r.ok ≡ false → Opens issued (r, d)
  refused-Opens issued r d bad = record {
    late = λ good. absurd (ground (arith, good, bad));
    timely = λ good. absurd (ground (arith, good, bad));
  }

  resume-timely :
      (d : D) (user : UserAuthInfo) (issued now t : ℕ)
      → t < issued + 7 * 24 * 3600 * 1000
      → is_ok (a.user_session_repo.touch_session d (a.sha256_hex raw) t).0.status ≡ true
      → ((resume a d (session_of user issued now) t).0.ok ≡ true)
        × (Option.map identity (resume a d (session_of user issued now) t).0.user
            ≡ some (identity user))
  unfolding resume
  resume-timely d user issued now t timely touched =
      rw (leb_of_lt _ _ timely, touched, resume) (refl, refl)

  save_session-Opens :
      FindsSaved a
      → (is_empty raw || is_empty (hash_token a raw)) ≡ false
      → (hash_token a raw ≡ a.sha256_hex raw)
      → (d : D) (user : UserAuthInfo) (issued now : ℕ)
      → Opens issued (save_session a d user raw issued now)
  unfolding save_session issue_token
  save_session-Opens keeps hashed same d user issued now =
      let s = session_of user issued now in
      let saved = a.user_session_repo.create_session d s in
      elim (Bool-cases (is_ok saved.0.status)) [
        | inr undone ↦ rw (undone, save_session) (refused-Opens issued _ saved.1 refl)
        | inl done ↦
            let again = λ (t : ℕ). login_by_token-resume saved.1 s t hashed (
              ap (a.user_session_repo.find_by_token_hash saved.1) same
              ∙ keeps.saved d s refl refl done) in
            rw (done, save_session)
              (record {
                late = λ good t late. rw (again t) (resume-late saved.1 user issued now t late);
                timely = λ good t timely touched.
                    rw (again t) (resume-timely saved.1 user issued now t timely touched);
              })
      ]

  hash_token_lem : is_empty raw ≡ false → hash_token a raw ≡ a.sha256_hex raw
  unfolding hash_token
  hash_token_lem given = rw given refl

  -- When a login succeeds with a token whose text and hash are not empty, the token logs the
  -- same account in at any time in the seven days after its issue at which the session can be
  -- touched, and from then on it is answered as expired, given a table of sessions that finds
  -- a session that was saved in it without a revocation.
  pub login-Opens :
      FindsSaved a
      → is_empty raw ≡ false
      → is_empty (a.sha256_hex raw) ≡ false
      → (d : D) (account_id : String) (password : List ℕ) (issued now : ℕ)
      → Opens issued (login a d account_id password raw issued now)
  unfolding login
  login-Opens keeps given hashed d account_id password issued now =
      let same = hash_token_lem given in
      let P = Opens issued in
      if-cases P (is_empty account_id || eqb (length password) 0)
        (λ _. refused-Opens issued _ d refl)
        (λ _.
          Option-both P (a.user_repo.find_auth_info_by_account_id d account_id)
            (λ _. refused-Opens issued _ d refl)
            (λ user known.
              if-cases P (not (eqb user.status 0)) (λ _. refused-Opens issued _ d refl)
                (λ _.
                  if-cases P
                    (not (a.verify_password password user.password_hash user.password_salt))
                    (λ _. refused-Opens issued _ d refl)
                    (λ _.
                      save_session-Opens keeps (ground (arith, given, hashed, same)) same d user
                        issued now))))
