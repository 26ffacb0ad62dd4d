-- ===== src/Config/Validate/Accepted.antt =====
-- Which configurations Validate of internal/config/config.go accepts.
use portato.Prelude.{
  ℕ, ◌+◌, ◌≡◌, ◌↔◌, refl, Bool, true, false, not, ◌&&◌, ◌||◌, Option, none, some, List, [], ◌∷◌,
  length, all, map, Text, lit, text_eq, text_eq_iff, is_empty, trim_space, trim_left, trim_right,
  is_space, split_on, ltb, arith,
}
use portato.Config.Types.{Config, Tuber, Hop}
use portato.Config.Addr.{validate_host_port}
use portato.Config.Ssh.{parse_ssh}
use portato.Config.Names.{is_name_char, valid_name, ConfigError}
use portato.Config.Validate.{
  max_tags_per_tuber, max_tag_len, seen_in, check_tag, check_tags, validate_tags, out_of_range,
  check_hops, validate_jump, is_supported, validate_tuber, validate_from, validate,
}

-- No text stands twice.
abbrev pub distinct : List Text → Bool
distinct [] = true
distinct (s ∷ rest) = not (seen_in s rest) && distinct rest

abbrev pub disjoint : List Text → List Text → Bool
disjoint seen [] = true
disjoint seen (s ∷ rest) = not (seen_in s seen) && disjoint seen rest

pub disjoint-cons :
    (a : Text) (seen xs : List Text)
    → disjoint (a ∷ seen) xs ≡ (not (seen_in a xs) && disjoint seen xs)
disjoint-cons a seen [] = refl
disjoint-cons a seen (x ∷ xs) =
    ground (arith, disjoint-cons a seen xs, text_eq_iff a x, text_eq_iff x a)

pub disjoint-nil : (xs : List Text) → disjoint [] xs ≡ true
disjoint-nil [] = refl
disjoint-nil (x ∷ xs) = disjoint-nil xs

abbrev pub is_none : Option ConfigError → Bool
is_none none = true
is_none (some e) = false

abbrev pub tag_ok : Text → Bool
tag_ok tag = valid_name tag && not (ltb max_tag_len (length tag))

-- At most 16 tags, each a name of at most 32 characters, no two the same, spaces around them
-- apart.
unfoldable pub tags_ok : List Text → Bool
tags_ok tags =
    not (ltb max_tags_per_tuber (length tags))
    && all tag_ok (map trim_space tags)
    && distinct (map trim_space tags)

abbrev hop_in_range : Option Hop → Bool
hop_in_range none = false
hop_in_range (some hop) = not (is_empty hop.host) && not (out_of_range hop.port)

abbrev pub hop_ok : Text → Text → Bool
hop_ok current_user tok =
    not (is_empty (trim_space tok)) && hop_in_range (parse_ssh current_user (trim_space tok))

unfoldable pub jump_ok : Text → Text → Bool
jump_ok current_user jump =
    is_empty (trim_space jump) || all (hop_ok current_user) (split_on b',' (trim_space jump))

-- A tuber that Validate accepts, by itself.
unfoldable pub is_accepted : Text → Tuber → Bool
unfolding jump_ok tags_ok
is_accepted current_user t =
    valid_name t.name
    && is_supported t.type
    && not (is_empty (trim_space t.local))
    && (text_eq t.type (lit "dynamic") || not (is_empty (trim_space t.remote)))
    && (not (text_eq t.type (lit "local")) || validate_host_port t.remote)
    && not (is_empty (trim_space t.host))
    && not (out_of_range t.port)
    && jump_ok current_user t.jump
    && tags_ok t.tags

check_tags-none :
    (name : Text) (i : ℕ) (seen tags : List Text)
    → is_none (check_tags name i seen tags) ≡ (
        all tag_ok (map trim_space tags)
        && distinct (map trim_space tags)
        && disjoint seen (map trim_space tags))
unfolding check_tags check_tag valid_name
check_tags-none name i seen [] = refl
check_tags-none name i seen (tag ∷ tags) = ground (
  arith,
  check_tags-none name (i + 1) (trim_space tag ∷ seen) tags,
  disjoint-cons (trim_space tag) seen (map trim_space tags),
)

check_hops-none :
    (u name : Text) (n : ℕ) (toks : List Text)
    → is_none (check_hops u name n toks) ≡ all (hop_ok u) toks
unfolding check_hops
check_hops-none u name n [] = refl
check_hops-none u name n (tok ∷ toks) = ground (arith, check_hops-none u name (n + 1) toks)

pub validate_jump-none : (u name jump : Text) → is_none (validate_jump u name jump) ≡ jump_ok u jump
unfolding validate_jump jump_ok
validate_jump-none u name jump =
    ground (arith, check_hops-none u name 1 (split_on b',' (trim_space jump)))

validate_tags-none :
    (name : Text) (tags : List Text) → is_none (validate_tags name tags) ≡ tags_ok tags
unfolding validate_tags tags_ok
validate_tags-none name tags =
    ground (arith, check_tags-none name 1 [] tags, disjoint-nil (map trim_space tags))

name_char-space : (c : ℕ) → is_name_char c ≡ true → is_space c ≡ false
unfolding is_space
name_char-space c h = ground arith

valid_name-trim_space : (s : Text) → valid_name s ≡ true → is_empty (trim_space s) ≡ false
unfolding valid_name trim_space trim_left trim_right
valid_name-trim_space [] h = cc
valid_name-trim_space (c ∷ s) h = ground (arith, name_char-space c)

validate_tuber-none :
    (u : Text) (seen : List Text) (t : Tuber)
    → is_none (validate_tuber u seen t) ≡ (is_accepted u t && not (seen_in t.name seen))
unfolding validate_tuber is_accepted
validate_tuber-none u seen t = ground (
  arith,
  valid_name-trim_space t.name,
  validate_jump-none u t.name t.jump,
  validate_tags-none t.name t.tags,
)

abbrev pub names : List Tuber → List Text
names [] = []
names (t ∷ ts) = t.name ∷ names ts

validate_from-none :
    (u : Text) (seen : List Text) (ts : List Tuber)
    → is_none (validate_from u seen ts)
      ≡ (all (is_accepted u) ts && distinct (names ts) && disjoint seen (names ts))
unfolding validate_from
validate_from-none u seen [] = refl
validate_from-none u seen (t ∷ ts) = ground (
  arith,
  validate_tuber-none u seen t,
  validate_from-none u (t.name ∷ seen) ts,
  disjoint-cons t.name seen (names ts),
)

-- Validate returns no error exactly if every tuber is well formed by itself (its name, type,
-- addresses, ssh target, jump chain and tags) and no two tubers have the same name.
pub validate_iff :
    (u : Text) (c : Config)
    → (validate u c ≡ none) ↔ ((all (is_accepted u) c.tubers && distinct (names c.tubers)) ≡ true)
unfolding validate
validate_iff u c = ground (arith, validate_from-none u [] c.tubers, disjoint-nil (names c.tubers))
