-- ===== src/Config/Ports/Bump.antt =====
-- BumpLocalPort of internal/config/ports.go on an address that is a bare port.
use portato.Prelude.{
  ℕ, ◌+◌, ◌^◌, ◌<◌, ◌≡◌, refl, ap, ◌∙◌, true, false, some, List, [], ◌∷◌, length, Text, is_empty,
  trim_space, arith,
}
use portato.Prelude.Int.{ℤ, pos}
use portato.Prelude.Decimal.{atoi, itoa}
use portato.Prelude.Trims.{trim_space-trim_space}
use portato.Config.Ports.{local_port, uses, next_free, bump_local_port}
use portato.Config.Ports.NextFree.{all_used, next_free-Found, from-le}

local_port-atoi : (s : Text) (p : ℤ) → atoi (trim_space s) ≡ some p → local_port s ≡ some p
unfolding local_port
local_port-atoi s p bare = rw (filled (trim_space s) bare, bare) refl
  where
    filled : (t : Text) → atoi t ≡ some p → is_empty t ≡ false
    filled [] h = absurd (unfold atoi in cc)
    filled (c ∷ t) h = refl

bump-bare :
    (local : Text) (p : ℤ) (used : List ℤ)
    → atoi (trim_space local) ≡ some p
    → bump_local_port local used ≡ itoa (next_free (length used) used p)
unfolding bump_local_port
bump-bare local p used bare = ground (
  arith,
  local_port-atoi (trim_space local) p (ap atoi (trim_space-trim_space local) ∙ bare),
  bare,
)

-- BumpLocalPort of a bare port gives the digits of a number, the first one from the given port on that
-- is not used, when there is room for it below 2^63. Nothing keeps the number below 65536.
pub bump_local_port-bare :
    (local : Text) (p : ℕ) (used : List ℤ)
    → atoi (trim_space local) ≡ some (pos p)
    → p + length used < 2 ^ 63
    → (n : ℕ) × (bump_local_port local used ≡ itoa (pos (p + n)))
      × (uses used (pos (p + n)) ≡ false)
      × (all_used n p used ≡ true)
bump_local_port-bare local p used bare room =
    let r = next_free-Found (length used) p used (from-le p used) in
    (r.steps, bump-bare local (pos p) used bare ∙ ap itoa r.ended, r.free, r.passed)
