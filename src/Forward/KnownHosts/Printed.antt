-- ===== src/Forward/KnownHosts/Printed.antt =====
-- The errors of knownhosts.New with a line number, as internal/forward/knownhosts.go reads them.
use portato.Prelude.{
  ℕ, suc, ◌<◌, ◌^◌, ◌≡◌, refl, true, some, [], ◌∷◌, ◌++◌, Text, split_first, trim_space, arith,
}
use portato.Prelude.Decimal.{itoa_ℕ, itoa_ℕ-digits, atoi-itoa_ℕ}
use portato.Prelude.Splits.{lacks, lacks_of_digits}
use portato.Forward.KnownHosts.{after_prefix, prefix_of, parse_known_hosts_line_error}

-- The message of an error at the line `n`.
abbrev pub line_error : Text → ℕ → Text → Text
line_error path n reason = prefix_of path ++ (itoa_ℕ n ++ b':' ∷ reason)

after_prefix-append : (p s : Text) → after_prefix p (p ++ s) ≡ some s
unfolding after_prefix
after_prefix-append [] s = refl
after_prefix-append (c ∷ p) s = ground (arith, after_prefix-append p s)

split_first-append :
    (c : ℕ) (s t : Text) → lacks c s ≡ true → split_first c (s ++ c ∷ t) ≡ some (s, t)
unfolding split_first
split_first-append c [] t h = ground arith
split_first-append c (x ∷ s) t h = ground (arith, split_first-append c s t)

pub parse-line_error :
    (path : Text) (n : ℕ) (reason : Text)
    → suc n < 2 ^ 63
    → parse_known_hosts_line_error (line_error path (suc n) reason) path
      ≡ some (suc n, trim_space reason)
unfolding parse_known_hosts_line_error
parse-line_error path n reason h =
    rw
      (
        parse_known_hosts_line_error,
        after_prefix-append (prefix_of path) (itoa_ℕ (suc n) ++ b':' ∷ reason),
        split_first-append b':' (itoa_ℕ (suc n)) reason
            (lacks_of_digits b':' (itoa_ℕ (suc n)) refl (itoa_ℕ-digits (suc n))),
        atoi-itoa_ℕ (suc n) h,
      )
      refl
