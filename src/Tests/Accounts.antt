-- ===== src/Tests/Accounts.antt =====
-- The service for accounts at concrete inputs, over tables of one user.
use project_chat.Common.{
  ℕ, ◌≡◌, refl, String, true, ◌&&◌, none, some, List, [], ◌∷◌, arith, leb, length, ◌==◌, string_key,
  text_iff, if◌then◌else◌,
}
use project_chat.Common.Map.{Map, find, assign, find-assign}
use project_chat.Storage.Results.{RepoResult, ok, not_found}
use project_chat.Storage.UserTypes.{UserAuthInfo, StoredUserSession}
use project_chat.Auth.AuthService.{
  AuthService, is_upper, is_lower, is_digit, validate_password_strength, login, logout,
  register_user,
}
use project_chat.Auth.AuthService.Strength.{any, validate_password_strength_lem}
use project_chat.Auth.AuthService.Guards.{Admitted, IsGuarded, entry-IsGuarded}
use project_chat.Auth.AuthService.Tokens.{
  FindsSaved, FindsRevoked, IsShut, Opens, logout-IsShut, login-Opens,
}

abbrev Sessions : Type 0
Sessions = Map String StoredUserSession

abbrev done : RepoResult
done = record { status = ok; message = "" }

abbrev missing : RepoResult
missing = record { status = not_found; message = "" }

abbrev ann : UserAuthInfo
ann = record {
  user_id = 7;
  account_id = "im1";
  username = "ann";
  password_hash = "h";
  password_salt = "s";
  status = 0;
}

abbrev revoke : Sessions → String → ℕ → RepoResult × Sessions
revoke d h now = elim (find h d) [
  | none ↦ (missing, d)
  | some s ↦ (done, assign h (record s { revoked = true }) d)
]

abbrev service : AuthService Sessions
service = record {
  user_repo = record {
    create_user = λ d i n h s. (done, d);
    find_auth_info_by_account_id = λ d i. if i == "im1" then some ann else none;
  };
  user_session_repo = record {
    create_session = λ d s. (done, assign s.token_hash s d);
    find_by_token_hash = λ d h. find h d;
    touch_session = λ d h t. (done, d);
    revoke_session = revoke;
  };
  user_profile_repo = record {
    find_by_account_id = λ d i. none;
    find_by_account_ids = λ d is. [];
    create_default_profile = λ d u i n. (done, d);
  };
  verify_password = λ p h s. true;
  sha256_hex = λ raw. "digest";
}

revoke_lem :
    (d : Sessions) (h : String) (now : ℕ) (s : StoredUserSession)
    → find h d ≡ some s
    → (s' : StoredUserSession) × (find h (revoke d h now).1 ≡ some s') × (s'.revoked ≡ true)
revoke_lem d h now s known =
    let t : StoredUserSession = record s { revoked = true } in
    let after : find h (revoke d h now).1 ≡ some t =
      rw (known, revoke) (ground (arith, find-assign h h t d, text_iff h h)) in
    (t, after, refl)

service-FindsSaved : FindsSaved service
service-FindsSaved = record {
  saved = λ d s open_still never h.
      ground (arith, find-assign s.token_hash s.token_hash s d, text_iff s.token_hash s.token_hash);
}

service-FindsRevoked : FindsRevoked service
service-FindsRevoked = record { revoked = λ d h now s known r. revoke_lem d h now s known }

-- Passw0rd
abbrev password : List ℕ
password = 80 ∷ 97 ∷ 115 ∷ 115 ∷ 119 ∷ 48 ∷ 114 ∷ 100 ∷ []

validate_password_strength_lem_example : validate_password_strength password ≡ (
    (leb 8 (length password) && leb (length password) 32)
    && (any is_upper password && (any is_lower password && any is_digit password)))
validate_password_strength_lem_example = validate_password_strength_lem password

entry-IsGuarded_example :
    IsGuarded service
      (Admitted service [] "im1" password)
      []
      (login service [] "im1" password "raw" 5 6)
    × IsGuarded service
        (validate_password_strength password ≡ true)
        []
        (register_user service [] "ann" password (some ("h", "s")) ("im1" ∷ []))
entry-IsGuarded_example =
    entry-IsGuarded service [] "ann" "im1" password (some ("h", "s")) ("im1" ∷ []) "raw" 5 6

login-Opens_example : Opens service "raw" 5 (login service [] "im1" password "raw" 5 6)
login-Opens_example = login-Opens service "raw" service-FindsSaved refl refl [] "im1" password 5 6

logout-IsShut_example :
    IsShut service "raw" (logout service (login service [] "im1" password "raw" 5 6).1 "raw" 9)
logout-IsShut_example =
    logout-IsShut service "raw" service-FindsRevoked (login service [] "im1" password "raw" 5 6).1 9
