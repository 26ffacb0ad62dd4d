-- ===== src/Forward/Probe/Outcomes.antt =====
-- How internal/forward/probe.go classifies the errors that internal/forward/ssh.go words.
use portato.Prelude.{
  ◌≡◌, refl, Bool, ◌||◌, ◌++◌, Text, lit, if◌then◌else◌, Bool-cases, inl, inr, arith,
}
use portato.Prelude.Search.{has_prefix, contains}
use portato.Forward.DialErrors.{
  DialError, unknown_host, other, is_auth_failed, is_timeout, worded, map_dial_error,
}
use portato.Forward.Probe.{
  ProbeOutcome, auth_unavailable, auth_failed, host_key, connect_failed, other_failure, outcome_of,
  classify_probe_dial_err,
}

abbrev says_auth_failed : Text → Bool
says_auth_failed m = is_auth_failed m || contains (lit "auth failed") m

abbrev says_connect_failed : Text → Bool
says_connect_failed m =
    contains (lit "connection refused") m
    || is_timeout m
    || contains (lit "connect refused") m
    || contains (lit "connect timeout") m
    || contains (lit "no such host") m

-- The outcome, read off the error before it is worded.
abbrev pub expected : DialError → ProbeOutcome
expected (unknown_host host fingerprint) = host_key
expected (other m) =
    if says_auth_failed m
    then auth_failed
    else if contains (lit "no ssh auth method available") m
    then auth_unavailable
    else if says_connect_failed m
    then connect_failed
    else other_failure

outcome_of-auth : (m : Text) → outcome_of (lit "auth failed: " ++ m) ≡ auth_failed
unfolding outcome_of contains has_prefix
outcome_of-auth m = refl

-- The prefixes of the other wordings.
outcome_of-refused :
    (m : Text)
    → outcome_of (lit "connect refused: " ++ m) ≡ (
        if contains (lit "auth failed") m
        then auth_failed
        else if contains (lit "no ssh auth method available") m
        then auth_unavailable
        else connect_failed)
unfolding outcome_of contains has_prefix
outcome_of-refused m = refl

outcome_of-timeout :
    (m : Text)
    → outcome_of (lit "connect timeout: " ++ m) ≡ (
        if contains (lit "auth failed") m
        then auth_failed
        else if contains (lit "no ssh auth method available") m
        then auth_unavailable
        else connect_failed)
unfolding outcome_of contains has_prefix
outcome_of-timeout m = ground arith

outcome_of-dial :
    (m : Text)
    → outcome_of (lit "ssh dial: " ++ m) ≡ (
        if contains (lit "auth failed") m
        then auth_failed
        else if contains (lit "no ssh auth method available") m
        then auth_unavailable
        else if contains (lit "connect refused") m
            || contains (lit "connect timeout") m
            || contains (lit "no such host") m
        then connect_failed
        else other_failure)
unfolding outcome_of contains has_prefix
outcome_of-dial m = refl

outcome_of-worded : (m : Text) → outcome_of (worded m) ≡ expected (other m)
unfolding worded
outcome_of-worded m = elim (Bool-cases (is_auth_failed m)) [
  | inl failed ↦ rw failed (outcome_of-auth m)
  | inr fine ↦ elim (Bool-cases (contains (lit "connection refused") m)) [
    | inl h ↦ rw (fine, h) (outcome_of-refused m)
    | inr h ↦ elim (Bool-cases (is_timeout m)) [
      | inl t ↦ rw (fine, h, t) (outcome_of-timeout m)
      | inr t ↦ rw (fine, h, t) (outcome_of-dial m)
    ]
  ]
]

-- What the probe makes of any error of a dial, whose wording it reads: an unknown host key is one; any
-- other error is an authentication failure when the server's message is one or says so, and otherwise
-- a missing method, or a failed connection when the message tells of a refusal, a timeout or an
-- unknown host. No other error, and so no mismatch of a host key, is classified as of the host key.
pub classify-map_dial_error :
    (e : DialError) → (classify_probe_dial_err (map_dial_error e)).outcome ≡ expected e
unfolding classify_probe_dial_err map_dial_error
classify-map_dial_error (unknown_host host fingerprint) = refl
classify-map_dial_error (other m) = outcome_of-worded m
