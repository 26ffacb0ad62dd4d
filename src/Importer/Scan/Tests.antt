-- ===== src/Importer/Scan/Tests.antt =====
-- The scan of a small ssh configuration with an included file.
use portato.Prelude.{
  ◌≡◌, refl, true, some, List, [], ◌∷◌, Text, lit, text_eq, split_first, split_last, contains_char,
}
use portato.Prelude.Decimal.{atoi, digits_value}
use portato.Config.Addr.{split_host_port}
use portato.Config.Validate.Accepted.{distinct}
use portato.Importer.Plan.{split_bind, valid_port}
use portato.Importer.Scan.{
  kv, include, Host, scan, parse_forward, valid_bind_port, valid_host_port, loopback_bind,
}
use portato.Importer.Scan.Found.{AllForwards, keys_of, scan-AllForwards}

abbrev db_host : Host
db_host = record {
  first_word = lit "Host";
  patterns = lit "db" ∷ lit "*.db" ∷ [];
  nodes = kv (lit "LocalForward") (lit "5432 10.0.0.5:5432") ∷ include (lit "more") ∷ [];
}

abbrev preamble : Host
preamble = record {
  first_word = lit "RemoteForward";
  patterns = [];
  nodes = kv (lit "RemoteForward") (lit "8080 localhost:80") ∷ [];
}

abbrev files : Text → List (List Host)
files line = (preamble ∷ []) ∷ []

scan-AllForwards_example :
    AllForwards (scan files (some (db_host ∷ [])))
    × (distinct (keys_of (scan files (some (db_host ∷ [])))) ≡ true)
scan-AllForwards_example = scan-AllForwards files (some (db_host ∷ []))

-- A listen side that starts with a colon gets a second one.
remote_with_colon :
    parse_forward (lit "remote") (lit ":80" ∷ lit "h:1" ∷ [])
    ≡ some (lit "h:1", lit "127.0.0.1::80")
unfolding parse_forward valid_bind_port valid_host_port loopback_bind split_bind valid_port
    split_host_port split_last split_first contains_char text_eq atoi digits_value
remote_with_colon = refl
