-- ===== src/Config/Validate/Jump.antt =====
-- Validated jump chains of internal/config/config.go, as they are parsed for the dial.
use portato.Prelude.{
  ◌≡◌, refl, sym, ap, ◌∙◌, Bool, true, false, not, ◌&&◌, none, List, [], ◌∷◌, map, length, all,
  Text, is_empty, is_space, trim_space, split_on, arith,
}
use portato.Prelude.Trims.{trim_space-trim_space, split_on-trim_space}
use portato.Config.Types.{Hop}
use portato.Config.Ssh.{parse_ssh_explicit, parse_ssh, parse_hops, parse_jump_chain}
use portato.Config.Validate.{out_of_range, validate_jump}
use portato.Config.Validate.Accepted.{hop_ok, jump_ok, validate_jump-none}

abbrev pub hop_in_range : Hop → Bool
hop_in_range hop = not (is_empty hop.host) && not (out_of_range hop.port)

parse_ssh_explicit-trim_space :
    (u tok : Text) → parse_ssh_explicit u (trim_space tok) ≡ parse_ssh_explicit u tok
unfolding parse_ssh_explicit
parse_ssh_explicit-trim_space u tok = rw (trim_space-trim_space tok) refl

parse_ssh-trim_space : (u tok : Text) → parse_ssh u (trim_space tok) ≡ parse_ssh u tok
unfolding parse_ssh
parse_ssh-trim_space u tok = ground (arith, parse_ssh_explicit-trim_space u tok)

hop_ok-trim_space : (u tok : Text) → hop_ok u (trim_space tok) ≡ hop_ok u tok
hop_ok-trim_space u tok = rw (trim_space-trim_space tok) refl

hops_ok-trim_space :
    (u : Text) (toks : List Text) → all (hop_ok u) (map trim_space toks) ≡ all (hop_ok u) toks
hops_ok-trim_space u [] = refl
hops_ok-trim_space u (tok ∷ toks) =
    ap (λ b. b && all (hop_ok u) (map trim_space toks)) (hop_ok-trim_space u tok)
    ∙ ap (λ b. hop_ok u tok && b) (hops_ok-trim_space u toks)

parse_hops-all :
    (u : Text) (toks : List Text)
    → all (hop_ok u) toks ≡ true
    → (length (parse_hops u toks) ≡ length toks) × (all hop_in_range (parse_hops u toks) ≡ true)
unfolding parse_hops
parse_hops-all u [] h = (refl, refl)
parse_hops-all u (tok ∷ toks) h = ground (arith, parse_hops-all u toks, parse_ssh-trim_space u tok)

validated :
    (u name jump : Text)
    → validate_jump u name jump ≡ none
    → is_empty (trim_space jump) ≡ false
    → all (hop_ok u) (split_on b',' (trim_space jump)) ≡ true
unfolding jump_ok
validated u name jump accepted there =
    ground (arith, validate_jump-none u name jump, accepted, there)

-- Where Validate accepts the `jump:` of a tuber and it is not blank, parseJumpChain gives one hop for
-- each part between commas, each with a host and a port in range: it passes over none.
pub parse_jump_chain-validated :
    (u name jump : Text)
    → validate_jump u name jump ≡ none
    → is_empty (trim_space jump) ≡ false
    → (length (parse_jump_chain u jump) ≡ length (split_on b',' jump))
      × (all hop_in_range (parse_jump_chain u jump) ≡ true)
unfolding parse_jump_chain
parse_jump_chain-validated u name jump accepted there = rw there (
    parse_hops-all u (split_on b',' jump) (
      sym (hops_ok-trim_space u (split_on b',' jump))
      ∙ ap (all (hop_ok u)) (sym (split_on-trim_space b',' jump comma))
      ∙ hops_ok-trim_space u (split_on b',' (trim_space jump))
      ∙ validated u name jump accepted there))
  where
    comma : is_space b',' ≡ false
    comma = unfold is_space in refl
