-- ===== src/Config/Ssh/RoundTrip.antt =====
-- The hops that expandJumpHop of internal/config/config.go prints, and parseSSHExplicit.
use portato.Prelude.{
  ℕ, ◌^◌, ◌<◌, ◌≡◌, refl, true, false, ◌&&◌, some, [], ◌∷◌, ◌++◌, Text, is_empty, trim_space, arith,
}
use portato.Prelude.Int.{ℤ, pos}
use portato.Prelude.Decimal.{itoa, itoa_ℕ, itoa_ℕ-digits, atoi-itoa_ℕ}
use portato.Prelude.Splits.{lacks, lacks_of_digits, split_last-append}
use portato.Config.Ssh.{parse_ssh_explicit, hop_text}

lacks-append : (c : ℕ) (s t : Text) → lacks c (s ++ t) ≡ (lacks c s && lacks c t)
lacks-append c [] t = refl
lacks-append c (x ∷ s) t = ground (arith, lacks-append c s t)

hop_text-nonempty : (u h : Text) (p : ℤ) → is_empty (hop_text u h p) ≡ false
hop_text-nonempty [] h p = refl
hop_text-nonempty (c ∷ u) h p = refl

-- The text of a hop with no space around it, whose host has no `@`, parses to its user, host and
-- port, all explicit.
pub parse_ssh_explicit-hop_text :
    (current_user u h : Text) (p : ℕ)
    → trim_space (hop_text u h (pos p)) ≡ hop_text u h (pos p)
    → lacks b'@' h ≡ true
    → p < 2 ^ 63
    → parse_ssh_explicit current_user (hop_text u h (pos p))
      ≡ some
          (record { user = u; host = h; port = pos p; user_explicit = true; port_explicit = true })
unfolding parse_ssh_explicit itoa
parse_ssh_explicit-hop_text current_user u h p trimmed no_at small =
    rw
      (
        trimmed,
        hop_text-nonempty u h (pos p),
        split_last-append b'@' u (h ++ (b':' ∷ itoa_ℕ p)) no_later_at,
        split_last-append b':' h (itoa_ℕ p)
            (lacks_of_digits b':' (itoa_ℕ p) refl (itoa_ℕ-digits p)),
        atoi-itoa_ℕ p small,
      )
      refl
  where
    no_later_at : lacks b'@' (h ++ (b':' ∷ itoa_ℕ p)) ≡ true
    no_later_at = ground (
      arith,
      lacks-append b'@' h (b':' ∷ itoa_ℕ p),
      lacks_of_digits b'@' (itoa_ℕ p) refl (itoa_ℕ-digits p),
    )
