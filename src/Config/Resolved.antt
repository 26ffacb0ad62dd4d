-- ===== src/Config/Resolved.antt =====
-- internal/config/config.go: what a tuber uses of its own fields and of the defaults.
use portato.Prelude.{Bool, not, Text, lit, ◌++◌, ◌∷◌, is_empty, trim_space, if◌then◌else◌}
use portato.Prelude.Decimal.{itoa}
use portato.Config.Types.{Tuber, Defaults}

abbrev pub is_blank : Text → Bool
is_blank s = is_empty (trim_space s)

-- `expand` is expandTilde, whose home and path join are the operating system's.
unfoldable pub resolved_identity : (Text → Text) → Tuber → Defaults → Text
resolved_identity expand t d =
    if not (is_blank t.identity)
    then expand t.identity
    else if not (is_blank t.ssh_identity)
    then t.ssh_identity
    else if not (is_blank d.identity)
    then expand d.identity
    else lit ""

unfoldable pub password_account_key : Tuber → Text
password_account_key t = lit "password:" ++ (t.user ++ (b'@' ∷ (t.host ++ (b':' ∷ itoa t.port))))

unfoldable pub resolved_socks5_user : Tuber → Defaults → Text
resolved_socks5_user t d = if not (is_blank t.socks5_user) then t.socks5_user else d.socks5_user

unfoldable pub resolved_socks5_password : Tuber → Defaults → Text
resolved_socks5_password t d =
    if not (is_blank t.socks5_password) then t.socks5_password else d.socks5_password

-- `default_hosts` is the file in the home directory, or the relative one when there is no home.
unfoldable pub resolved_known_hosts : (Text → Text) → Text → Defaults → Text
resolved_known_hosts expand default_hosts d =
    if is_blank d.known_hosts then default_hosts else expand d.known_hosts
