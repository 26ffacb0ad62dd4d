-- ===== src/Config/Ports/NextFree.antt =====
-- The loop of BumpLocalPort of internal/config/ports.go.
use portato.Prelude.{
  ℕ, zero, suc, ◌+◌, ◌≤◌, ◌<◌, ◌≡◌, refl, Bool, true, false, ◌&&◌, leb, ap, sym, subst, ◌∙◌, List,
  [], ◌∷◌, length, if◌then◌else◌, arith, Bool-cases, inl, inr,
}
use portato.Prelude.Int.{ℤ, pos, negsuc}
use portato.Config.Ports.{uses, next_free}

-- The used ports from a number on.
abbrev pub from : ℕ → List ℤ → ℕ
from p [] = 0
from p (q ∷ used) =
    let rest = from p used in
    elim q [ pos n ↦ if leb p n then suc rest else rest | negsuc n ↦ rest ]

pub from-le : (p : ℕ) (used : List ℤ) → from p used ≤ length used
from-le p [] = omega arith
from-le p (pos n ∷ used) = ground (arith, from-le p used)
from-le p (negsuc n ∷ used) = ground (arith, from-le p used)

from_mono : (p : ℕ) (used : List ℤ) → from (suc p) used ≤ from p used
from_mono p [] = omega arith
from_mono p (pos n ∷ used) = ground (arith, from_mono p used)
from_mono p (negsuc n ∷ used) = ground (arith, from_mono p used)

from-uses : (p : ℕ) (used : List ℤ) → uses used (pos p) ≡ true → from (suc p) used < from p used
from-uses p [] h = cc
from-uses p (pos n ∷ used) h = ground (arith, from-uses p used, from_mono p used)
from-uses p (negsuc n ∷ used) h = ground (arith, from-uses p used)

-- Whether all of the `n` ports from a number on are used.
abbrev pub all_used : ℕ → ℕ → List ℤ → Bool
all_used zero p used = true
all_used (suc n) p used = uses used (pos p) && all_used n (suc p) used

-- The loop ends at the first port from `p` on that is not used.
pub record Found (f p : ℕ) (used : List ℤ) : Type 0 where
  pub steps : ℕ
  pub ended : next_free f used (pos p) ≡ pos (p + steps)
  pub free : uses used (pos (p + steps)) ≡ false
  pub passed : all_used steps p used ≡ true
  pub within : steps ≤ f

free-Found : (f p : ℕ) (used : List ℤ) → uses used (pos p) ≡ false → Found f p used
unfolding next_free
free-Found f p used h = record {
  steps = 0;
  ended = unused f ∙ ap pos (sym plus_zero);
  free = subst (λ n. uses used (pos n) ≡ false) (sym plus_zero) h;
  passed = refl;
  within = omega arith;
}
  where
    plus_zero : p + 0 ≡ p
    plus_zero = omega arith

    unused : (f : ℕ) → next_free f used (pos p) ≡ pos p
    unused zero = refl
    unused (suc f) = rw h refl

next-Found :
    (f p : ℕ) (used : List ℤ)
    → uses used (pos p) ≡ true
    → Found f (suc p) used
    → Found (suc f) p used
unfolding next_free
next-Found f p used h r = record {
  steps = suc r.steps;
  ended = rw h (ap (λ n. next_free f used (pos n)) one_more ∙ r.ended ∙ ap pos shift);
  free = subst (λ n. uses used (pos n) ≡ false) shift r.free;
  passed = ground (arith, r.passed);
  within = omega (arith, r.within);
}
  where
    one_more : p + 1 ≡ suc p
    one_more = omega arith

    shift : suc p + r.steps ≡ p + suc r.steps
    shift = omega arith

-- Enough fuel for the used ports from `p` on finds a free port.
pub next_free-Found : (f p : ℕ) (used : List ℤ) → from p used ≤ f → Found f p used
next_free-Found zero p used enough = elim (Bool-cases (uses used (pos p))) [
  | inl taken ↦ absurd (omega (arith, from-uses p used taken))
  | inr free ↦ free-Found zero p used free
]
next_free-Found (suc f) p used enough = elim (Bool-cases (uses used (pos p))) [
  | inl taken ↦
      next-Found f p used taken
        (next_free-Found f (suc p) used (omega (arith, from-uses p used taken)))
  | inr free ↦ free-Found (suc f) p used free
]

-- The search of BumpLocalPort from a port ends: at a port that is not used, with every port that it
-- passed in use.
pub next_free-first :
    (p : ℕ) (used : List ℤ)
    → (n : ℕ) × (next_free (length used) used (pos p) ≡ pos (p + n))
      × (uses used (pos (p + n)) ≡ false)
      × (all_used n p used ≡ true)
next_free-first p used =
    let r = next_free-Found (length used) p used (from-le p used) in
    (r.steps, r.ended, r.free, r.passed)
