-- ===== src/Forward/Dial/Tests.antt =====
-- A dial through one jump, whose target refuses the connection.
use portato.Prelude.{ℕ, zero, suc, [], ◌∷◌, lit}
use portato.Prelude.Int.{pos}
use portato.Config.Types.{Tuber}
use portato.Forward.Fixtures.{db}
use portato.Forward.DialErrors.{other}
use portato.Forward.Dial.{HopAnswer, unreached, reached}

abbrev jumping : Tuber
jumping = record db { jumps = record { user = lit "me"; host = lit "j"; port = pos 22 } ∷ [] }

abbrev refusing : ℕ → HopAnswer
refusing zero = reached
refusing (suc n) = unreached (other (lit "connection refused"))
