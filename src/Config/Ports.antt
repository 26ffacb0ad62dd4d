-- ===== src/Config/Ports.antt =====
-- internal/config/ports.go: the port of a local address, and the next free one.
pub mod NextFree
pub mod Bump
use portato.Prelude.{
  ℕ, zero, suc, ◌+◌, ◌≡◌, Bool, true, false, ◌||◌, Option, none, some, List, [], ◌∷◌, ◌++◌, length,
  Text, is_empty, trim_space, split_last, if◌then◌else◌,
}
use portato.Prelude.Int.{ℤ, pos, inc, eqb_ℤ}
use portato.Prelude.Decimal.{atoi, itoa}
use portato.Config.Types.{Tuber}

abbrev port_after : Option (Text × Text) → Option ℤ
port_after none = none
port_after (some (host, port)) = atoi port

abbrev or_else : Option ℤ → Option ℤ → Option ℤ
or_else (some p) q = some p
or_else none q = q

-- LocalPort; `none` for ok = false
unfoldable pub local_port : Text → Option ℤ
local_port local =
    let s = trim_space local in
    if is_empty s then none else or_else (atoi s) (port_after (split_last b':' s))

-- A set of ports stands for the map whose values are all true.
abbrev pub uses : List ℤ → ℤ → Bool
uses [] p = false
uses (q ∷ used) p = eqb_ℤ q p || uses used p

unfoldable pub used_local_ports : List Tuber → List ℤ
used_local_ports [] = []
used_local_ports (t ∷ rest) =
    let ports = used_local_ports rest in
    elim (local_port t.local) [ none ↦ ports | some p ↦ p ∷ ports ]

-- for used[port] { port++ }, on fuel: each round passes one of the used ports.
unfoldable pub next_free : ℕ → List ℤ → ℤ → ℤ
next_free zero used port = port
next_free (suc f) used port =
    let rest = next_free f used (inc port) in if uses used port then rest else port

abbrev with_port : Text → ℤ → Option (Text × Text) → Text
with_port s port none = s
with_port s port (some (host, old)) = host ++ (b':' ∷ itoa port)

abbrev in_format : Text → ℤ → Option ℤ → Text
in_format s port (some bare) = itoa port
in_format s port none = with_port s port (split_last b':' s)

unfoldable pub bump_local_port : Text → List ℤ → Text
unfolding next_free
bump_local_port local used =
    let s = trim_space local in
    elim (local_port s) [
      | none ↦ local
      | some port ↦ in_format s (next_free (length used) used port) (atoi s)
    ]
