-- ===== src/Forward/Probe/Tests.antt =====
-- The outcome of a refused connection, and of a host key that does not match.
use portato.Prelude.{◌≡◌, refl, lit}
use portato.Prelude.Search.{has_prefix, contains}
use portato.Forward.DialErrors.{
  DialError, other, worded, is_auth_failed, is_timeout, map_dial_error,
}
use portato.Forward.Probe.{other_failure, outcome_of, classify_probe_dial_err}
use portato.Forward.Probe.Outcomes.{expected, classify-map_dial_error}

abbrev refused : DialError
refused = other (lit "dial tcp: connection refused")

classify-map_dial_error_example :
    (classify_probe_dial_err (map_dial_error refused)).outcome ≡ expected refused
classify-map_dial_error_example = classify-map_dial_error refused

mismatch_is_other :
    (classify_probe_dial_err (
      map_dial_error
        (other (lit "ssh: handshake failed: host key mismatch for h: expected f")))).outcome
    ≡ other_failure
unfolding classify_probe_dial_err map_dial_error worded outcome_of is_auth_failed is_timeout
    contains has_prefix
mismatch_is_other = refl
