-- ===== src/Forward/Dial/Chain.antt =====
-- The chain of jumps that dialConn of internal/forward/ssh.go dials.
use portato.Prelude.{ℕ, zero, suc, ◌≡◌, ◌<◌, Bool, true, false, ◌&&◌, List, [], ◌∷◌, ◌++◌}
use portato.Forward.DialErrors.{DialError, map_dial_error}
use portato.Forward.Dial.{
  Link, HopAnswer, unreached, rejected, reached, Trace, DialResult, client, error,
}

-- The clients of the first `n` dials, the last one first.
abbrev pub count_down : ℕ → List ℕ
count_down zero = []
count_down (suc n) = n ∷ count_down n

abbrev is_reached : HopAnswer → Bool
is_reached reached = true
is_reached _ = false

-- The first `n` hops were reached.
abbrev pub reached_before : (ℕ → HopAnswer) → ℕ → Bool
reached_before answers zero = true
reached_before answers (suc n) = is_reached (answers n) && reached_before answers n

-- The answer fails, and the error is its wording.
abbrev pub FailsWith : DialError → HopAnswer → Type 0
FailsWith e (unreached d) = e ≡ map_dial_error d
FailsWith e (rejected d) = e ≡ map_dial_error d
FailsWith e reached = ⊥

-- Either all hops are up, and the leash has all clients but the last; or a hop failed, and the clients
-- of the hops before it, which are all that were up, are closed.
abbrev pub IsSettled : ℕ → (ℕ → HopAnswer) → Trace → DialResult → Type 0
IsSettled total answers t (client c leash) =
    (t.closed ≡ []) × (c ∷ leash ≡ count_down total) × (reached_before answers total ≡ true)
IsSettled total answers t (error e) =
    (n : ℕ) × (n < total)
    × FailsWith e (answers n)
    × (t.closed ≡ count_down n)
    × (reached_before answers n ≡ true)

-- The handshakes went down the chain.
abbrev pub IsAlong : List Link → Trace → Type 0
IsAlong chain t = (rest : List Link) × (t.handshakes ++ rest ≡ chain)

-- What is proved of the dial of a chain.
abbrev IsDone : List Link → ℕ → (ℕ → HopAnswer) → Trace × DialResult → Type 0
IsDone chain total answers p = IsSettled total answers p.0 p.1 × IsAlong chain p.0
