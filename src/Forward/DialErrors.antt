-- ===== src/Forward/DialErrors.antt =====
-- internal/forward/ssh.go and internal/forward/password.go: how the error of a dial is classified and
-- worded. An error is its message; the error of an unknown host key is a type of its own.
use portato.Prelude.{
  ◌≡◌, refl, ◌∙◌, Bool, true, ◌||◌, ◌&&◌, none, some, ◌++◌, Text, lit, if◌then◌else◌, Bool-cases,
  inl, inr,
}
use portato.Prelude.Search.{has_prefix, find_text, contains}

pub data DialError : Type 0 where
  -- the host and the fingerprint
  unknown_host : Text → Text → DialError
  other : Text → DialError

-- Error()
unfoldable pub message_of : DialError → Text
message_of (unknown_host host fingerprint) =
    host
    ++ (lit ": host key not in known_hosts ("
        ++ (fingerprint ++ lit "); add it to known_hosts or set accept_new_hosts: true"))
message_of (other m) = m

-- isAuthFailed of an error that is not nil
unfoldable pub is_auth_failed : Text → Bool
unfolding contains
is_auth_failed m =
    contains (lit "unable to authenticate") m || contains (lit "no supported methods remain") m

unfoldable pub is_timeout : Text → Bool
unfolding contains
is_timeout m = contains (lit "i/o timeout") m || contains (lit "deadline exceeded") m

unfoldable pub worded : Text → Text
unfolding is_auth_failed is_timeout contains
worded m =
    if is_auth_failed m
    then lit "auth failed: " ++ m
    else if contains (lit "connection refused") m
    then lit "connect refused: " ++ m
    else if is_timeout m
    then lit "connect timeout: " ++ m
    else lit "ssh dial: " ++ m

unfoldable pub map_dial_error : DialError → DialError
unfolding worded
map_dial_error (unknown_host host fingerprint) = unknown_host host fingerprint
map_dial_error (other m) = other (worded m)

-- passwordAuthAvailable
unfoldable pub password_auth_available : Text → Bool
unfolding find_text contains
password_auth_available m = elim (find_text (lit "attempted methods [") m) [
  | none ↦ true
  | some rest ↦ contains (lit "password") rest
]

prefix-is_auth_failed :
    (m : Text)
    → (is_auth_failed (lit "auth failed: " ++ m) ≡ is_auth_failed m)
      × (is_auth_failed (lit "connect refused: " ++ m) ≡ is_auth_failed m)
      × (is_auth_failed (lit "connect timeout: " ++ m) ≡ is_auth_failed m)
      × (is_auth_failed (lit "ssh dial: " ++ m) ≡ is_auth_failed m)
unfolding is_auth_failed contains has_prefix
prefix-is_auth_failed m = (refl, refl, refl, refl)

prefix-password_auth_available :
    (m : Text) → password_auth_available (lit "auth failed: " ++ m) ≡ password_auth_available m
unfolding password_auth_available find_text has_prefix
prefix-password_auth_available m = refl

-- The wording that the user sees keeps the classification, which the password loop reads off the
-- worded message: it is an authentication failure exactly if the server's message is, and then it
-- tells whether the server takes passwords as the server's message does.
pub worded-classified :
    (m : Text)
    → (is_auth_failed (worded m) ≡ is_auth_failed m)
      × ((is_auth_failed m && password_auth_available (worded m))
          ≡ (is_auth_failed m && password_auth_available m))
unfolding worded
worded-classified m =
    let (auth, refused, timeout, dial) = prefix-is_auth_failed m in
    elim (Bool-cases (is_auth_failed m)) [
      | inl failed ↦ (rw failed (auth ∙ failed), rw failed (prefix-password_auth_available m))
      | inr fine ↦ elim (Bool-cases (contains (lit "connection refused") m)) [
        | inl h ↦ (rw (fine, h) (refused ∙ fine), rw fine refl)
        | inr h ↦ elim (Bool-cases (is_timeout m)) [
          | inl t ↦ (rw (fine, h, t) (timeout ∙ fine), rw fine refl)
          | inr t ↦ (rw (fine, h, t) (dial ∙ fine), rw fine refl)
        ]
      ]
    ]
