-- ===== src/Importer/Scan.antt =====
-- internal/importer/importer.go: the scan of an ssh configuration for forwards. The third-party reader
-- gives a file as its blocks; `load` is what it makes of the files that an Include line names, and
-- leaves out those that it cannot read.
pub mod Found
mod Tests
use portato.Prelude.{
  ℕ, zero, suc, ◌+◌, ◌≡◌, Bool, true, false, not, ◌&&◌, ◌||◌, Option, none, some, List, [], ◌∷◌,
  ◌++◌, map, any, Text, lit, text_eq, is_empty, is_space, contains_char, if◌then◌else◌,
}
use portato.Prelude.Words.{fields}
use portato.Config.Addr.{split_host_port}
use portato.Config.Validate.{seen_in}
use portato.Importer.Plan.{Candidate, to_lower, valid_port, split_bind}

pub data Node : Type 0 where
  kv : Text → Text → Node
  include : Text → Node
  other : Node

-- A block: the first word of its header as it is rendered, its patterns, and its lines.
pub record Host : Type 0 where
  pub first_word : Text
  pub patterns : List Text
  pub nodes : List Node

pub record Block : Type 0 where
  pub ssh_host : Text
  pub patterns : List Text

-- A candidate with all concrete patterns of its block.
pub record Scanned : Type 0 where
  pub candidate : Candidate
  pub patterns : List Text

pub record Scanner : Type 0 where
  pub cands : List Scanned
  pub seen : List Text

-- strings.ToLower, by runes
abbrev pub lower : Text → Text
lower s = map to_lower s

unfoldable pub is_concrete : Text → Bool
is_concrete s =
    not (is_empty s || contains_char b'*' s || contains_char b'?' s || contains_char b'!' s)

unfoldable pub concrete : List Text → List Text
unfolding is_concrete
concrete [] = []
concrete (p ∷ ps) = let rest = concrete ps in if is_concrete p then p ∷ rest else rest

abbrev block_of : List Text → Option Block
block_of [] = none
block_of (p ∷ ps) = some (record { ssh_host = p; patterns = p ∷ ps })

unfoldable pub new_block : Host → Option Block
unfolding concrete
new_block h = block_of (concrete h.patterns)

unfoldable pub valid_bind_port : Text → Bool
unfolding split_bind
valid_bind_port s = elim (split_bind s) [ none ↦ false | some hp ↦ true ]

unfoldable pub valid_host_port : Text → Bool
unfolding valid_port
valid_host_port s = elim (split_host_port s) [
  | none ↦ false
  | some (h, p) ↦ not (is_empty h) && valid_port p
]

-- The host of a declared listen side; empty when it is missing.
abbrev bind_host : Option (Text × Text) → Text
bind_host none = []
bind_host (some (h, p)) = h

unfoldable pub loopback_bind : Text → Text
unfolding split_bind
loopback_bind bind =
    if is_empty (bind_host (split_bind bind)) then lit "127.0.0.1:" ++ bind else bind

-- Local and remote side of a directive; `none` for ok = false
unfoldable pub parse_forward : Text → List Text → Option (Text × Text)
unfolding valid_bind_port valid_host_port loopback_bind
parse_forward typ [] = none
parse_forward typ (f ∷ []) =
    if text_eq typ (lit "dynamic") && valid_bind_port f then some (f, []) else none
parse_forward typ (f ∷ g ∷ []) =
    if (text_eq typ (lit "local") || text_eq typ (lit "remote"))
      && valid_bind_port f
      && valid_host_port g
    then if text_eq typ (lit "local") then some (f, g) else some (g, loopback_bind f)
    else none
parse_forward typ (f ∷ g ∷ h ∷ fs) = none

unfoldable pub forward_type : Text → Option Text
forward_type key =
    if text_eq (lower key) (lit "localforward")
    then some (lit "local")
    else if text_eq (lower key) (lit "remoteforward")
    then some (lit "remote")
    else if text_eq (lower key) (lit "dynamicforward")
    then some (lit "dynamic")
    else none

unfoldable pub candidate_key : Candidate → Text
candidate_key c = c.ssh_host ++ (b'|' ∷ (c.type ++ (b'|' ∷ (c.local ++ (b'|' ∷ c.remote)))))

unfoldable pub take_candidate : List Text → Candidate → Scanner → Scanner
unfolding candidate_key
take_candidate patterns c s = if seen_in (candidate_key c) s.seen then s else record {
  cands = s.cands ++ record { candidate = c; patterns = patterns } ∷ [];
  seen = candidate_key c ∷ s.seen;
}

abbrev pub candidate_of : Block → Text → Option (Text × Text) → Option Candidate
candidate_of b typ none = none
candidate_of b typ (some (local, remote)) =
    some (record { ssh_host = b.ssh_host; type = typ; local = local; remote = remote })

-- The candidate of one line of a block.
unfoldable pub line_candidate : Block → Node → Option Candidate
unfolding forward_type parse_forward fields
line_candidate b (include line) = none
line_candidate b other = none
line_candidate b (kv key value) = elim (forward_type key) [
  | none ↦ none
  | some typ ↦ candidate_of b typ (parse_forward typ (fields value))
]

abbrev pub take_line : Block → Option Candidate → Scanner → Scanner
take_line b none s = s
take_line b (some c) s = take_candidate b.patterns c s

unfoldable pub take_forwards : Block → List Node → Scanner → Scanner
unfolding take_candidate line_candidate
take_forwards b [] s = s
take_forwards b (n ∷ ns) s = take_forwards b ns (take_line b (line_candidate b n) s)

abbrev pub take_owned : Option Block → List Node → Scanner → Scanner
take_owned none nodes s = s
take_owned (some b) nodes s = take_forwards b nodes s

-- The walk of the included files: a file at a time.
abbrev pub Walk : Type 0
Walk = Option Block → List Host → Scanner → Scanner

unfoldable pub walk_files : Walk → Option Block → List (List Host) → Scanner → Scanner
walk_files walk owner [] s = s
walk_files walk owner (f ∷ fs) s = walk_files walk owner fs (walk owner f s)

unfoldable pub walk_includes :
    (Text → List (List Host)) → Walk → Option Block → List Node → Scanner → Scanner
unfolding walk_files
walk_includes load walk owner [] s = s
walk_includes load walk owner (include line ∷ ns) s =
    walk_includes load walk owner ns (walk_files walk owner (load line) s)
walk_includes load walk owner (kv key value ∷ ns) s = walk_includes load walk owner ns s
walk_includes load walk owner (other ∷ ns) s = walk_includes load walk owner ns s

-- What a block's forwards and its includes belong to.
abbrev pub owner_of : Host → Option Block → Option Block
owner_of h owner =
    if text_eq h.first_word (lit "Match")
    then none
    else if text_eq h.first_word (lit "Host")
    then new_block h
    else owner

unfoldable pub walk_hosts :
    (Text → List (List Host)) → Walk → Option Block → List Host → Scanner → Scanner
unfolding walk_includes take_forwards new_block
walk_hosts load walk owner [] s = s
walk_hosts load walk owner (h ∷ hs) s =
    let b = owner_of h owner in
    walk_hosts load walk owner hs (walk_includes load walk b h.nodes (take_owned b h.nodes s))

-- walkConfig, with the depth that is left
unfoldable pub walk_config : ℕ → (Text → List (List Host)) → Walk
unfolding walk_hosts
walk_config zero load owner hosts s = walk_hosts (λ line. []) (λ b f t. t) owner hosts s
walk_config (suc n) load owner hosts s = walk_hosts load (walk_config n load) owner hosts s

abbrev pub max_include_depth : ℕ
max_include_depth = 5

-- Scan; `none` for a nil configuration
unfoldable pub scan : (Text → List (List Host)) → Option (List Host) → List Scanned
unfolding walk_config
scan load none = []
scan load (some hosts) =
    (walk_config max_include_depth load none hosts (record { cands = []; seen = [] })).cands

unfoldable pub wants : List Text → List Text → Bool
wants patterns [] = false
wants patterns (p ∷ ps) = seen_in (lower p) (map lower patterns) || wants patterns ps

unfoldable pub filter : List Scanned → List Text → List Scanned
unfolding wants
filter [] patterns = []
filter (c ∷ cs) patterns =
    let rest = filter cs patterns in if wants patterns c.patterns then c ∷ rest else rest

unfoldable pub blocks_from : List Text → List Scanned → List Text
blocks_from seen [] = []
blocks_from seen (c ∷ cs) =
    let h = c.candidate.ssh_host in
    if seen_in h seen then blocks_from seen cs else h ∷ blocks_from (h ∷ seen) cs

unfoldable pub blocks : List Scanned → List Text
unfolding blocks_from
blocks cs = blocks_from [] cs
