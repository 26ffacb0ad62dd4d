-- ===== src/Controller/Accounts.antt =====
-- internal/controller/local.go, and the same loops in internal/daemon/server.go: what a secret or a
-- host key that the user gives for a tuber belongs to.
use portato.Prelude.{Bool, ◌&&◌, not, List, [], ◌∷◌, Text, text_eq, is_empty, if◌then◌else◌}
use portato.Config.Types.{Config, Tuber}
use portato.Config.Resolved.{resolved_identity, password_account_key}
use portato.Forward.State.{Status}

unfoldable pub pending_host_line : List Status → Text → Text
pending_host_line [] name = []
pending_host_line (st ∷ sts) name =
    let rest = pending_host_line sts name in
    if text_eq st.name name then st.pending_host_line else rest

-- The first pending need of the name, else what its configuration says.
abbrev pub pending_or : (Status → Text) → (Tuber → Text) → List Status → List Tuber → Text → Text
pending_or need of_config (st ∷ sts) ts name =
    if text_eq st.name name && not (is_empty (need st))
    then need st
    else pending_or need of_config sts ts name
pending_or need of_config [] [] name = []
pending_or need of_config [] (t ∷ ts) name =
    if text_eq t.name name then of_config t else pending_or need of_config [] ts name

unfoldable pub identity_path_for : (Text → Text) → List Status → Config → Text → Text
unfolding resolved_identity
identity_path_for expand sts c name =
    pending_or (λ st. st.pending_passphrase) (λ t. resolved_identity expand t c.defaults) sts
      c.tubers name

unfoldable pub account_key_for : List Status → Config → Text → Text
unfolding password_account_key
account_key_for sts c name =
    pending_or (λ st. st.pending_password) password_account_key sts c.tubers name

-- The first tuber of the name.
unfoldable pub set_enabled : Text → Bool → List Tuber → List Tuber
set_enabled name enabled [] = []
set_enabled name enabled (t ∷ ts) =
    let rest = set_enabled name enabled ts in
    if text_eq t.name name then record t { enabled = enabled } ∷ ts else t ∷ rest
