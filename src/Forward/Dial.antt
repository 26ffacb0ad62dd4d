-- ===== src/Forward/Dial.antt =====
-- internal/forward/ssh.go: the dial through a chain of jumps, the check of a host key, and the methods
-- of the keys. What the network, the handshake and the third-party ssh package answer is an argument.
-- A client is the number of its dial.
pub mod Chain
mod Tests
use portato.Prelude.{
  ℕ, suc, ◌+◌, ◌≡◌, Bool, true, false, not, ◌&&◌, Option, none, some, List, [], ◌∷◌, ◌++◌, map,
  Text, lit, is_empty, if◌then◌else◌,
}
use portato.Config.Types.{Tuber, Hop}
use portato.Forward.DialErrors.{DialError, unknown_host, other, map_dial_error}

-- The methods that a handshake offers: those of the keys, a password, or none.
pub data Auths : Type 0 where
  no_auths : Auths
  keys : Auths
  password : Text → Auths

-- One hop of the chain and what it offers.
pub record Link : Type 0 where
  pub target : Hop
  pub auths : Auths

-- What a hop answers: the connection fails, the handshake fails, or both succeed.
pub data HopAnswer : Type 0 where
  unreached : DialError → HopAnswer
  rejected : DialError → HopAnswer
  reached : HopAnswer

-- Each handshake that ran with its hop and its methods, and each client that was closed.
pub record Trace : Type 0 where
  pub handshakes : List Link
  pub closed : List ℕ

-- A client with the clients that its leash closes when it ends, or an error.
pub data DialResult : Type 0 where
  client : ℕ → List ℕ → DialResult
  error : DialError → DialResult

abbrev pub target_of : Tuber → Hop
target_of t = record { user = t.user; host = t.host; port = t.port }

unfoldable pub chain_of : Tuber → Auths → Auths → List Link
chain_of t intermed final =
    map (λ j. record { target = j; auths = intermed }) t.jumps
    ++ record { target = target_of t; auths = final } ∷ []

abbrev pub finished : List ℕ → DialResult
finished [] = error (other (lit "no hops"))
finished (last ∷ earlier) = client last earlier

-- A hop, after the clients `dialed`, the last one first, and before the rest of the chain. closeAll
-- closes the clients that are up.
abbrev pub after_hop : Link → List ℕ → Trace × DialResult → HopAnswer → Trace × DialResult
after_hop h dialed (rest, result) (unreached e) =
    (record { handshakes = []; closed = dialed }, error (map_dial_error e))
after_hop h dialed (rest, result) (rejected e) =
    (record { handshakes = h ∷ []; closed = dialed }, error (map_dial_error e))
after_hop h dialed (rest, result) reached =
    (record rest { handshakes = h ∷ rest.handshakes }, result)

-- The loop over the chain.
unfoldable pub dial_chain : List Link → (ℕ → HopAnswer) → List ℕ → ℕ → Trace × DialResult
dial_chain [] answers dialed i = (record { handshakes = []; closed = [] }, finished dialed)
dial_chain (h ∷ hs) answers dialed i =
    after_hop h dialed (dial_chain hs answers (i ∷ dialed) (suc i)) (answers i)

-- dialOnce
unfoldable pub dial_once : Tuber → Auths → HopAnswer → Trace × DialResult
dial_once t auths a =
    let link : Link = record { target = target_of t; auths = auths } in
    elim a [
      | unreached e ↦ (record { handshakes = []; closed = [] }, error (map_dial_error e))
      | rejected e ↦ (record { handshakes = link ∷ []; closed = [] }, error (map_dial_error e))
      | reached ↦ (record { handshakes = link ∷ []; closed = [] }, client 0 [])
    ]

abbrev pub no_jumps : List Hop → Bool
no_jumps [] = true
no_jumps (j ∷ js) = false

-- dialConn, after hostKeyCallback has succeeded.
unfoldable pub dial_conn : Tuber → Auths → Auths → (ℕ → HopAnswer) → Trace × DialResult
unfolding dial_once chain_of dial_chain
dial_conn t intermed final answers =
    if no_jumps t.jumps
    then dial_once t final (answers 0)
    else dial_chain (chain_of t intermed final) answers [] 0

-- The answer of the known-hosts file to a key: known, another key is known (with the fingerprints of
-- those), or another error.
pub data KeyCheck : Type 0 where
  known : KeyCheck
  wanted : List Text → KeyCheck
  check_failed : DialError → KeyCheck

pub data KeyVerdict : Type 0 where
  accepted : KeyVerdict
  refused : DialError → KeyVerdict

-- Whether a line was appended to the file, and whether the key was reported to the sink.
pub record KeyEffects : Type 0 where
  pub appended : Bool
  pub recorded : Bool

abbrev mismatch : Text → Text → DialError
mismatch host want = other (lit "host key mismatch for " ++ (host ++ (lit ": expected " ++ want)))

-- wrapHostKey; `fingerprint` is the key's, `appends` whether the file takes the line.
unfoldable pub wrap_host_key : Bool → Bool → Text → Text → KeyCheck → KeyEffects × KeyVerdict
wrap_host_key accept_new appends host fingerprint known =
    (record { appended = false; recorded = false }, accepted)
wrap_host_key accept_new appends host fingerprint (check_failed e) =
    (record { appended = false; recorded = false }, refused e)
wrap_host_key accept_new appends host fingerprint (wanted (want ∷ more)) =
    (record { appended = false; recorded = false }, refused (mismatch host want))
wrap_host_key accept_new appends host fingerprint (wanted []) =
    if accept_new && appends
    then (record { appended = true; recorded = false }, accepted)
    else (record { appended = false; recorded = true }, refused (unknown_host host fingerprint))

abbrev listed_keys : Option (List Text) → List Text
listed_keys none = []
listed_keys (some ks) = ks

-- The signers that authMethods' callback hands out, the agent's first; a source that fails is `none`.
unfoldable pub offered_keys : List (Option (List Text)) → List Text
offered_keys [] = []
offered_keys (source ∷ sources) = listed_keys source ++ offered_keys sources

-- authMethods: no method without a source. The agent's signers, and the identity's when it loads.
unfoldable pub auth_methods : Option (Option (List Text)) → Option Text → Option (List Text)
unfolding offered_keys
auth_methods none none = none
auth_methods (some agent) none = some (offered_keys (agent ∷ []))
auth_methods none (some identity) = some (offered_keys (some (identity ∷ []) ∷ []))
auth_methods (some agent) (some identity) = some (offered_keys (agent ∷ some (identity ∷ []) ∷ []))
