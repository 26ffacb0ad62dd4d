-- ===== src/Importer/Scan/Found.antt =====
-- The candidates that the scan of internal/importer/importer.go finds.
use portato.Prelude.{
  ℕ, zero, suc, ◌≡◌, refl, sym, ◌∙◌, ◌⊎◌, inl, inr, true, false, ◌&&◌, ◌||◌, Option, none, some,
  List, [], ◌∷◌, ◌++◌, Text, lit, text_eq, text_eq_iff, text_eq_self, if◌then◌else◌, arith,
  Bool-cases,
}
use portato.Prelude.Words.{fields}
use portato.Config.Validate.{seen_in}
use portato.Config.Validate.Accepted.{distinct}
use portato.Importer.Plan.{Candidate}
use portato.Importer.Scan.{
  Node, kv, include, other, Host, Block, Scanned, Scanner, valid_bind_port, valid_host_port,
  loopback_bind, parse_forward, forward_type, candidate_key, take_candidate, candidate_of,
  line_candidate, take_line, take_forwards, take_owned, Walk, walk_files, walk_includes, owner_of,
  walk_hosts, walk_config, max_include_depth, scan,
}

-- A listen side and a destination, each declared with a port from 1 to 65535, in the places that the
-- type says.
abbrev pub IsForward : Text → Text → Text → Type 0
IsForward typ local remote =
    ((typ ≡ lit "dynamic") × (valid_bind_port local ≡ true) × (remote ≡ []))
    ⊎ (((typ ≡ lit "local") × (valid_bind_port local ≡ true) × (valid_host_port remote ≡ true))
        ⊎ ((typ ≡ lit "remote")
            × (valid_host_port local ≡ true)
            × ((bind : Text) × (valid_bind_port bind ≡ true) × (remote ≡ loopback_bind bind))))

abbrev pub keys_of : List Scanned → List Text
keys_of [] = []
keys_of (c ∷ cs) = candidate_key c.candidate ∷ keys_of cs

abbrev pub AllForwards : List Scanned → Type 0
AllForwards [] = Unit {0}
AllForwards (c ∷ cs) =
    IsForward c.candidate.type c.candidate.local c.candidate.remote × AllForwards cs

-- Every candidate is a forward, no two have the same key, and the keys are those that were seen.
abbrev IsValid : Scanner → Type 0
IsValid s =
    AllForwards s.cands
    × (distinct (keys_of s.cands) ≡ true)
    × ((k : Text) → seen_in k s.seen ≡ seen_in k (keys_of s.cands))

abbrev GivesForward : Text → Option (Text × Text) → Type 0
GivesForward typ none = Unit {0}
GivesForward typ (some (local, remote)) = IsForward typ local remote

two_sided :
    (typ f g : Text)
    → valid_bind_port f ≡ true
    → valid_host_port g ≡ true
    → (text_eq typ (lit "local") || text_eq typ (lit "remote")) ≡ true
    → GivesForward typ
        (if text_eq typ (lit "local") then some (f, g) else some (g, loopback_bind f))
two_sided typ f g bind dest kind = elim (Bool-cases (text_eq typ (lit "local"))) [
  | inl l ↦ rw l (inr (inl ((text_eq_iff typ (lit "local")).0 l, bind, dest)))
  | inr l ↦
      rw l
        (inr (inr ((text_eq_iff typ (lit "remote")).0 (ground (arith, l)), dest, (f, bind, refl))))
]

parse_forward-IsForward : (typ : Text) (fs : List Text) → GivesForward typ (parse_forward typ fs)
unfolding parse_forward
parse_forward-IsForward typ [] = tt
parse_forward-IsForward typ (f ∷ []) =
    elim (Bool-cases (text_eq typ (lit "dynamic") && valid_bind_port f)) [
      | inl h ↦
          rw h
            (inl ((text_eq_iff typ (lit "dynamic")).0 (ground (arith, h)), ground (arith, h), refl))
      | inr h ↦ rw h tt
    ]
parse_forward-IsForward typ (f ∷ g ∷ []) =
    elim (Bool-cases (
      (text_eq typ (lit "local") || text_eq typ (lit "remote"))
      && valid_bind_port f
      && valid_host_port g)) [
        | inl h ↦
            rw h (two_sided typ f g (ground (arith, h)) (ground (arith, h)) (ground (arith, h)))
        | inr h ↦ rw h tt
      ]
parse_forward-IsForward typ (f ∷ g ∷ x ∷ fs) = tt

abbrev CandidateForward : Option Candidate → Type 0
CandidateForward none = Unit {0}
CandidateForward (some c) = IsForward c.type c.local c.remote

line_candidate-IsForward : (b : Block) (n : Node) → CandidateForward (line_candidate b n)
unfolding line_candidate
line_candidate-IsForward b (include line) = tt
line_candidate-IsForward b other = tt
line_candidate-IsForward b (kv key value) = by_type (forward_type key)
  where
    by_sides :
        (typ : Text) (o : Option (Text × Text))
        → GivesForward typ o
        → CandidateForward (candidate_of b typ o)
    by_sides typ none h = tt
    by_sides typ (some (l, r)) h = h

    by_type :
        (o : Option Text)
        → CandidateForward (elim o [
          | none ↦ none
          | some typ ↦ candidate_of b typ (parse_forward typ (fields value))
        ])
    by_type none = tt
    by_type (some typ) =
        by_sides typ (parse_forward typ (fields value)) (parse_forward-IsForward typ (fields value))

AllForwards-last :
    (cs : List Scanned) (c : Scanned)
    → AllForwards cs
    → IsForward c.candidate.type c.candidate.local c.candidate.remote
    → AllForwards (cs ++ c ∷ [])
AllForwards-last [] c h f = (f, tt)
AllForwards-last (d ∷ cs) c h f = (h.0, AllForwards-last cs c h.1 f)

seen_in-keys_last :
    (k : Text) (cs : List Scanned) (c : Scanned)
    → seen_in k (keys_of (cs ++ c ∷ []))
      ≡ (seen_in k (keys_of cs) || text_eq (candidate_key c.candidate) k)
seen_in-keys_last k [] c = ground arith
seen_in-keys_last k (d ∷ cs) c = ground (arith, seen_in-keys_last k cs c)

distinct-keys_last :
    (cs : List Scanned) (c : Scanned)
    → distinct (keys_of cs) ≡ true
    → seen_in (candidate_key c.candidate) (keys_of cs) ≡ false
    → distinct (keys_of (cs ++ c ∷ [])) ≡ true
distinct-keys_last [] c d n = refl
distinct-keys_last (x ∷ cs) c d n = ground (
  arith,
  distinct-keys_last cs c,
  seen_in-keys_last (candidate_key x.candidate) cs c,
  text_eq_iff (candidate_key c.candidate) (candidate_key x.candidate),
  text_eq_self (candidate_key x.candidate),
)

take_candidate-IsValid :
    (ps : List Text) (c : Candidate) (s : Scanner)
    → IsForward c.type c.local c.remote
    → IsValid s
    → IsValid (take_candidate ps c s)
unfolding take_candidate
take_candidate-IsValid ps c s f (all_forwards, apart, same) =
    elim (Bool-cases (seen_in (candidate_key c) s.seen)) [
      | inl dup ↦ rw (take_candidate, dup) (all_forwards, apart, same)
      | inr new ↦
          rw (take_candidate, new)
            (
              AllForwards-last s.cands found all_forwards f,
              distinct-keys_last s.cands found apart (sym (same (candidate_key c)) ∙ new),
              λ k. ground (arith, same k, seen_in-keys_last k s.cands found),
            )
    ]
  where
    found : Scanned
    found = record { candidate = c; patterns = ps }

take_forwards-IsValid :
    (b : Block) (ns : List Node) (s : Scanner) → IsValid s → IsValid (take_forwards b ns s)
unfolding take_forwards
take_forwards-IsValid b [] s v = v
take_forwards-IsValid b (n ∷ ns) s v =
    take_forwards-IsValid b ns (take_line b (line_candidate b n) s)
      (taken (line_candidate b n) (line_candidate-IsForward b n))
  where
    taken : (o : Option Candidate) → CandidateForward o → IsValid (take_line b o s)
    taken none f = v
    taken (some c) f = take_candidate-IsValid b.patterns c s f v

take_owned-IsValid :
    (o : Option Block) (ns : List Node) (s : Scanner) → IsValid s → IsValid (take_owned o ns s)
take_owned-IsValid none ns s v = v
take_owned-IsValid (some b) ns s v = take_forwards-IsValid b ns s v

-- A walk of included files that keeps the scanner valid.
abbrev KeepsValid : Walk → Type 0
KeepsValid walk =
    (o : Option Block) (hs : List Host) (s : Scanner) → IsValid s → IsValid (walk o hs s)

walk_files-IsValid :
    (walk : Walk) (o : Option Block) (fs : List (List Host)) (s : Scanner)
    → KeepsValid walk
    → IsValid s
    → IsValid (walk_files walk o fs s)
unfolding walk_files
walk_files-IsValid walk o [] s keep v = v
walk_files-IsValid walk o (f ∷ fs) s keep v =
    walk_files-IsValid walk o fs (walk o f s) keep (keep o f s v)

walk_includes-IsValid :
    (load : Text → List (List Host)) (walk : Walk) (o : Option Block) (ns : List Node) (s : Scanner)
    → KeepsValid walk
    → IsValid s
    → IsValid (walk_includes load walk o ns s)
unfolding walk_includes
walk_includes-IsValid load walk o [] s keep v = v
walk_includes-IsValid load walk o (include line ∷ ns) s keep v =
    walk_includes-IsValid load walk o ns (walk_files walk o (load line) s) keep
      (walk_files-IsValid walk o (load line) s keep v)
walk_includes-IsValid load walk o (kv key value ∷ ns) s keep v =
    walk_includes-IsValid load walk o ns s keep v
walk_includes-IsValid load walk o (other ∷ ns) s keep v =
    walk_includes-IsValid load walk o ns s keep v

walk_hosts-IsValid :
    (load : Text → List (List Host)) (walk : Walk)
    → KeepsValid walk
    → KeepsValid (walk_hosts load walk)
unfolding walk_hosts
walk_hosts-IsValid load walk keep o [] s v = v
walk_hosts-IsValid load walk keep o (h ∷ hs) s v =
    let b = owner_of h o in
    walk_hosts-IsValid load walk keep o hs
      (walk_includes load walk b h.nodes (take_owned b h.nodes s))
      (walk_includes-IsValid load walk b h.nodes (take_owned b h.nodes s) keep
        (take_owned-IsValid b h.nodes s v))

walk_config-IsValid : (n : ℕ) (load : Text → List (List Host)) → KeepsValid (walk_config n load)
unfolding walk_config
walk_config-IsValid zero load o hs s v =
    walk_hosts-IsValid (λ line. []) (λ b f t. t) (λ b f t w. w) o hs s v
walk_config-IsValid (suc n) load o hs s v =
    walk_hosts-IsValid load (walk_config n load) (walk_config-IsValid n load) o hs s v

-- Whatever the ssh configuration and its included files say, every candidate of a scan is local, remote
-- or dynamic, and no two have the same key (host, type, local and remote side). The local side of a
-- local or dynamic one is a listen side with a port from 1 to 65535; the remote side of a local one and
-- the local side of a remote one are a host and such a port, and a dynamic one has no remote side. The
-- remote side of a remote one is what loopback_bind makes of a listen side with such a port, which need
-- not be an address.
pub scan-AllForwards :
    (load : Text → List (List Host)) (o : Option (List Host))
    → AllForwards (scan load o) × (distinct (keys_of (scan load o)) ≡ true)
unfolding scan
scan-AllForwards load none = (tt, refl)
scan-AllForwards load (some hosts) =
    let (forwards, apart, same) =
      walk_config-IsValid max_include_depth load none hosts (record { cands = []; seen = [] })
        (tt, refl, λ k. refl) in
    (forwards, apart)
