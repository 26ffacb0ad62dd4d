-- ===== src/Forward/HostKeyAlgos/Offered.antt =====
-- Which algorithms internal/forward/ssh.go offers for a host.
use portato.Prelude.{
  ◌≡◌, refl, sym, ap, ap₂, is_empty, lit, ◌∙◌, Bool, true, false, not, ◌&&◌, ◌||◌, Option, none,
  some, List, [], ◌∷◌, ◌++◌, map, any, Text, text_eq, text_eq_iff, text_eq_self, trim_space,
  split_on, if◌then◌else◌, ◌==◌, arith, Bool-cases, inl, inr,
}
use portato.Prelude.Search.{has_prefix}
use portato.Prelude.Words.{fields}
use portato.Config.Validate.{seen_in}
use portato.Config.Validate.Accepted.{distinct}
use portato.Forward.HostKeyAlgos.{
  Library, algos_for_key_type, add, host_pattern_matches, host_matches_from, host_matches_any,
  key_type_of, algos_from, is_hash, salt_of, hash_of, of_fields, split_bracket, hashed_host_matches,
}

seen_in-append :
    (a : Text) (xs : List Text) (b : Text)
    → seen_in a (xs ++ b ∷ []) ≡ (seen_in a xs || text_eq b a)
seen_in-append a [] b = ground arith
seen_in-append a (x ∷ xs) b = ground (arith, seen_in-append a xs b)

distinct-append :
    (xs : List Text) (b : Text)
    → distinct xs ≡ true
    → seen_in b xs ≡ false
    → distinct (xs ++ b ∷ []) ≡ true
distinct-append [] b d n = refl
distinct-append (x ∷ xs) b d n =
    ground (arith, distinct-append xs b, seen_in-append x xs b, text_eq_iff b x, text_eq_self x)

seen_in-same :
    (a b : Text) (xs : List Text) → text_eq b a ≡ true → seen_in b xs ≡ true → seen_in a xs ≡ true
seen_in-same a b xs e h = ap (λ s. seen_in s xs) (sym ((text_eq_iff b a).0 e)) ∙ h

seen_in-add :
    (a : Text) (algos more : List Text)
    → seen_in a (add algos more) ≡ (seen_in a algos || seen_in a more)
unfolding add
seen_in-add a algos [] = ground arith
seen_in-add a algos (b ∷ more) = elim (Bool-cases (seen_in b algos)) [
  | inl known ↦ rw known (ground (arith, seen_in-add a algos more, seen_in-same a b algos))
  | inr new ↦
      rw new (ground (arith, seen_in-add a (algos ++ b ∷ []) more, seen_in-append a algos b))
]

distinct-add : (algos more : List Text) → distinct algos ≡ true → distinct (add algos more) ≡ true
unfolding add
distinct-add algos [] d = d
distinct-add algos (b ∷ more) d = elim (Bool-cases (seen_in b algos)) [
  | inl known ↦ rw known (distinct-add algos more d)
  | inr new ↦ rw new (distinct-add (algos ++ b ∷ []) more (distinct-append algos b d new))
]

pattern_step :
    (bang negated plain matched x y same found : Bool)
    → same ≡ (not x && (matched || y))
    → found ≡ (not x && (true || y))
    → (if bang then (if negated then false else same) else if plain then found else same)
      ≡ (not ((bang && negated) || x) && (matched || ((not bang && plain) || y)))
pattern_step true true plain matched x y same found e f = refl
pattern_step true false plain matched x y same found e f = e
pattern_step false negated true true x y same found e f = f
pattern_step false negated true false x y same found e f = f
pattern_step false negated false matched x y same found e f = e

module _ (L : Library) (host port target : Text) where
  abbrev has_hash : Option Text → Option Text → Bool
  has_hash none hash = false
  has_hash (some salt) none = false
  has_hash (some salt) (some hash) = text_eq (L.mac salt target) hash

  -- Salt and hash of a hashed name, decoded, are those of the host.
  abbrev pub is_hash_of : List Text → Bool
  is_hash_of (a ∷ one ∷ salt ∷ hash ∷ []) =
      text_eq one (lit "1") && has_hash (L.decode salt) (L.decode hash)
  is_hash_of _ = false

  abbrev is_bracketed : Option (Text × Text) → Bool
  is_bracketed none = false
  is_bracketed (some (h, p)) = text_eq h host && text_eq p port

  -- A pattern names the host: a hashed name of it, its name and port in brackets, or a name that
  -- matches on port 22.
  abbrev pub names_host : Text → Bool
  names_host p =
      if has_prefix (lit "|1|") p
      then is_hash_of (split_on b'|' p)
      else if has_prefix (lit "[") p
      then is_bracketed (split_bracket (portato.Prelude.drop 1 p))
      else L.matches p host && text_eq port (lit "22")

  decoded-has_hash :
      (salt hash : Option Text)
      → (elim salt [
        | none ↦ false
        | some s ↦ elim hash [ none ↦ false | some want ↦ text_eq (L.mac s target) want ]
      ])
        ≡ has_hash salt hash
  decoded-has_hash none hash = refl
  decoded-has_hash (some s) none = refl
  decoded-has_hash (some s) (some h) = refl

  parts-is_hash_of :
      (parts : List Text)
      → (is_hash parts && (elim (L.decode (salt_of parts)) [
        | none ↦ false
        | some s ↦ elim (L.decode (hash_of parts)) [
          | none ↦ false
          | some want ↦ text_eq (L.mac s target) want
        ]
      ]))
        ≡ is_hash_of parts
  parts-is_hash_of [] = refl
  parts-is_hash_of (a ∷ []) = refl
  parts-is_hash_of (a ∷ b ∷ []) = refl
  parts-is_hash_of (a ∷ b ∷ c ∷ []) = refl
  parts-is_hash_of (a ∷ b ∷ c ∷ d ∷ []) =
      ap (λ x. text_eq b (lit "1") && x) (decoded-has_hash (L.decode c) (L.decode d))
  parts-is_hash_of (a ∷ b ∷ c ∷ d ∷ e ∷ ws) = refl

  hashed_host_matches-is_hash_of :
      (p : Text) → hashed_host_matches L p target ≡ is_hash_of (split_on b'|' p)
  unfolding hashed_host_matches
  hashed_host_matches-is_hash_of p = parts-is_hash_of (split_on b'|' p)

  host_pattern_matches-names_host :
      (p : Text) → host_pattern_matches L p host port target ≡ names_host p
  unfolding host_pattern_matches
  host_pattern_matches-names_host p = rw (hashed_host_matches-is_hash_of p) refl

  -- A pattern with an exclamation mark whose rest names the host, and a pattern without one that does.
  abbrev pub excludes : Text → Bool
  excludes [] = false
  excludes (c ∷ p) = (c == b'!') && names_host p

  abbrev pub includes : Text → Bool
  includes [] = false
  includes (c ∷ p) = not (c == b'!') && names_host (c ∷ p)

  host_matches_from-any :
      (matched : Bool) (ps : List Text)
      → host_matches_from L matched ps host port target
        ≡ (not (any excludes ps) && (matched || any includes ps))
  unfolding host_matches_from
  host_matches_from-any matched [] = ground arith
  host_matches_from-any matched ([] ∷ ps) = host_matches_from-any matched ps
  host_matches_from-any matched ((c ∷ p) ∷ ps) =
      pattern_step (c == b'!') (host_pattern_matches L p host port target)
        (host_pattern_matches L (c ∷ p) host port target) matched (any excludes ps)
        (any includes ps) (host_matches_from L matched ps host port target)
        (host_matches_from L true ps host port target) (host_matches_from-any matched ps)
        (host_matches_from-any true ps)
      ∙ ap₂
          (λ x y.
            not (((c == b'!') && x) || any excludes ps)
            && (matched || ((not (c == b'!') && y) || any includes ps)))
          (host_pattern_matches-names_host p) (host_pattern_matches-names_host (c ∷ p))

  pub host_matches_any_lem :
      (patterns : Text)
      → host_matches_any L patterns host port target ≡ (
          not (any excludes (map trim_space (split_on b',' patterns)))
          && any includes (map trim_space (split_on b',' patterns)))
  unfolding host_matches_any
  host_matches_any_lem patterns =
      host_matches_from-any false (map trim_space (split_on b',' patterns))

  abbrev pub is_of_host : Text → Bool
  is_of_host patterns =
      not (any excludes (map trim_space (split_on b',' patterns)))
      && any includes (map trim_space (split_on b',' patterns))

  -- A key type offers itself, and RSA its two SHA-2 variants as well.
  abbrev pub type_offers : Text → Text → Bool
  type_offers keytype a =
      text_eq keytype a
      || (text_eq keytype (lit "ssh-rsa")
          && (text_eq (lit "rsa-sha2-512") a || text_eq (lit "rsa-sha2-256") a))

  abbrev pub fields_offer : Text → List Text → Bool
  fields_offer a (hosts ∷ keytype ∷ key ∷ more) =
      not (has_prefix (lit "@") hosts) && is_of_host hosts && type_offers keytype a
  fields_offer a _ = false

  -- The line is no comment, has at least three fields and no marker, its patterns include the host and
  -- do not exclude it, and its key type offers the algorithm.
  abbrev pub line_offers : Text → Text → Bool
  line_offers a l =
      not (is_empty (trim_space l))
      && not (has_prefix (lit "#") (trim_space l))
      && fields_offer a (fields (trim_space l))

  abbrev offered_by : Text → Option Text → Bool
  offered_by a none = false
  offered_by a (some keytype) = seen_in a (algos_for_key_type keytype)

  offered_by-type_offers :
      (a keytype : Text) → seen_in a (algos_for_key_type keytype) ≡ type_offers keytype a
  unfolding algos_for_key_type
  offered_by-type_offers a keytype = elim (Bool-cases (text_eq keytype (lit "ssh-rsa"))) [
    | inl rsa ↦
        rw rsa (ground (arith, ap (λ k. text_eq k a) ((text_eq_iff keytype (lit "ssh-rsa")).0 rsa)))
    | inr other ↦ rw other (ground arith)
  ]

  of_fields-offered :
      (a : Text) (ws : List Text)
      → offered_by a (of_fields L ws host port target) ≡ fields_offer a ws
  of_fields-offered a [] = refl
  of_fields-offered a (w ∷ []) = refl
  of_fields-offered a (w ∷ v ∷ []) = refl
  of_fields-offered a (hosts ∷ keytype ∷ key ∷ more) =
      elim (Bool-cases (has_prefix (lit "@") hosts)) [
        | inl marked ↦ rw marked refl
        | inr plain ↦
            rw (plain, host_matches_any_lem hosts)
              (elim (Bool-cases (is_of_host hosts)) [
                | inl of ↦ rw of (offered_by-type_offers a keytype)
                | inr away ↦ rw away refl
              ])
      ]

  key_type_of-offered :
      (a l : Text) → offered_by a (key_type_of L l host port target) ≡ line_offers a l
  unfolding key_type_of
  key_type_of-offered a l = elim (Bool-cases (is_empty (trim_space l))) [
    | inl blank ↦ rw (key_type_of, blank) refl
    | inr filled ↦ elim (Bool-cases (has_prefix (lit "#") (trim_space l))) [
      | inl comment ↦ rw (key_type_of, filled, comment) refl
      | inr line ↦ rw (key_type_of, filled, line) (of_fields-offered a (fields (trim_space l)))
    ]
  ]

  -- Whatever the lines of a known_hosts file: an algorithm is offered to a host exactly when it was
  -- already or a line offers it, that is: the line is no comment, has three fields and no marker, its
  -- patterns include the host and do not exclude it, and its key type is the algorithm or, for RSA, has
  -- it as a SHA-2 variant. None is offered twice.
  pub algos_from-offered :
      (algos ls : List Text)
      → distinct algos ≡ true
      → ((a : Text)
          → seen_in a (algos_from L algos ls host port target)
            ≡ (seen_in a algos || any (line_offers a) ls))
        × (distinct (algos_from L algos ls host port target) ≡ true)
  unfolding algos_from
  algos_from-offered algos [] d = (λ a. ground arith, d)
  algos_from-offered algos (l ∷ ls) d = restate (
      by_line (key_type_of L l host port target) (algos_from-offered algos ls d) (λ keytype.
        algos_from-offered (add algos (algos_for_key_type keytype)) ls
          (distinct-add algos (algos_for_key_type keytype) d)))
    where
      Offers : List Text → List Text → (Text → Bool) → Type 0
      Offers before after offers =
          ((a : Text) → seen_in a after ≡ (seen_in a before || offers a)) × (distinct after ≡ true)

      restate :
          Offers algos
            (algos_from L algos (l ∷ ls) host port target)
            (λ a. offered_by a (key_type_of L l host port target) || any (line_offers a) ls)
          → Offers algos
              (algos_from L algos (l ∷ ls) host port target)
              (λ a. line_offers a l || any (line_offers a) ls)
      restate (each, apart) = (
        λ a.
            each a
            ∙ ap (λ x. seen_in a algos || (x || any (line_offers a) ls)) (key_type_of-offered a l),
        apart,
      )

      by_line :
          (o : Option Text)
          → Offers algos (algos_from L algos ls host port target) (λ a. any (line_offers a) ls)
          → ((keytype : Text)
              → Offers
                  (add algos (algos_for_key_type keytype))
                  (algos_from L (add algos (algos_for_key_type keytype)) ls host port target)
                  (λ a. any (line_offers a) ls))
          → Offers algos
              (elim o [
                | none ↦ algos_from L algos ls host port target
                | some keytype ↦
                    algos_from L (add algos (algos_for_key_type keytype)) ls host port target
              ])
              (λ a. offered_by a o || any (line_offers a) ls)
      by_line none skipped taken = skipped
      by_line (some keytype) skipped taken = (
        λ a. ground (arith, (taken keytype).0 a, seen_in-add a algos (algos_for_key_type keytype)),
        (taken keytype).1,
      )
