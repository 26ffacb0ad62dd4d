-- ===== src/Forward/HostKeyAlgos/Tests.antt =====
-- The algorithms of a host with an RSA and an ED25519 key, by a library that compares names.
use portato.Prelude.{◌||◌, ◌≡◌, refl, true, none, List, [], ◌∷◌, Text, lit, text_eq, any}
use portato.Config.Validate.{seen_in}
use portato.Config.Validate.Accepted.{distinct}
use portato.Forward.HostKeyAlgos.{Library, algos_from}
use portato.Forward.HostKeyAlgos.Offered.{line_offers, algos_from-offered}

abbrev names_only : Library
names_only = record { matches = text_eq; decode = λ s. none; mac = λ salt s. s; normalize = λ s. s }

abbrev lines : List Text
lines =
    lit "db,!old ssh-rsa AAAA"
    ∷ lit "# a comment"
    ∷ lit "db ssh-ed25519 BBBB"
    ∷ lit "web ecdsa-sha2-nistp256 CCCC"
    ∷ []

algos_from-offered_example :
    ((a : Text)
      → seen_in a (algos_from names_only [] lines (lit "db") (lit "22") (lit "db"))
        ≡ (seen_in a [] || any (line_offers names_only (lit "db") (lit "22") (lit "db") a) lines))
    × (distinct (algos_from names_only [] lines (lit "db") (lit "22") (lit "db")) ≡ true)
algos_from-offered_example =
    algos_from-offered names_only (lit "db") (lit "22") (lit "db") [] lines refl
