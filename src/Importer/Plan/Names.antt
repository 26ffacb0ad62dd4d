-- ===== src/Importer/Plan/Names.antt =====
-- The loop of tuberName of internal/importer/plan.go.
use portato.Prelude.{
  ℕ, zero, suc, ◌+◌, ◌≤◌, ◌<◌, ◌≡◌, ◌≢◌, refl, sym, ap, ◌∙◌, true, false, not, some, List, [], ◌∷◌,
  ◌++◌, length, select, Text, text_eq, text_eq_iff, arith, Bool-cases, inl, inr,
}
use portato.Prelude.Decimal.{itoa_ℕ, digits_value, digits_value-itoa_ℕ}
use portato.Config.Validate.{seen_in}
use portato.Importer.Plan.{Candidate, suffixed, next_name, tuber_name}

append_cancel : (b s t : Text) → b ++ s ≡ b ++ t → s ≡ t
append_cancel [] s t h = h
append_cancel (c ∷ b) s t h = append_cancel b s t (cc)

append_longer : (b s : Text) (c : ℕ) → b ≢ b ++ c ∷ s
append_longer [] s c h = cc
append_longer (d ∷ b) s c h = append_longer b s c (cc)

some_inj : (m n : ℕ) → some m ≡ some n → m ≡ n
some_inj m n h = cc

suffixed_inj : (base : Text) (m n : ℕ) → suffixed base m ≡ suffixed base n → m ≡ n
suffixed_inj base m n h = some_inj m n (
    sym (digits_value-itoa_ℕ m)
    ∙ ap (digits_value 0) (tails (itoa_ℕ m) (itoa_ℕ n) (append_cancel base _ _ h))
    ∙ digits_value-itoa_ℕ n)
  where
    tails : (s t : Text) → ◌≡◌ {A = Text} (b'-' ∷ s) (b'-' ∷ t) → s ≡ t
    tails s t p = cc

-- No name from the next suffix on is the given one.
abbrev IsPassed : Text → ℕ → Text → Type 0
IsPassed base n name = (k : ℕ) → n ≤ k → text_eq name (suffixed base k) ≡ false

differs : (s t : Text) → s ≢ t → text_eq s t ≡ false
differs s t h = ground (arith, text_eq_iff s t)

base-IsPassed : (base : Text) (n : ℕ) → IsPassed base n base
base-IsPassed base n k le = differs base (suffixed base k) (append_longer base (itoa_ℕ k) b'-')

suffixed-IsPassed : (base : Text) (n : ℕ) → IsPassed base (n + 1) (suffixed base n)
suffixed-IsPassed base n k le =
    differs (suffixed base n) (suffixed base k)
      (λ h. absurd (omega (arith, suffixed_inj base n k h)))

abbrev others : Text → List Text → List Text
others name taken = select (λ s. not (text_eq name s)) taken

others-seen_in :
    (name s : Text) (taken : List Text)
    → text_eq name s ≡ false
    → seen_in s (others name taken) ≡ seen_in s taken
others-seen_in name s [] h = refl
others-seen_in name s (t ∷ taken) h =
    ground
      (arith, others-seen_in name s taken, text_eq_iff name t, text_eq_iff t s, text_eq_iff name s)

others-le : (name : Text) (taken : List Text) → length (others name taken) ≤ length taken
others-le name [] = omega arith
others-le name (t ∷ taken) = ground (arith, others-le name taken)

others-lt :
    (name : Text) (taken : List Text)
    → seen_in name taken ≡ true
    → length (others name taken) < length taken
others-lt name [] h = cc
others-lt name (t ∷ taken) h =
    ground
      (arith, others-le name taken, others-lt name taken, text_eq_iff t name, text_eq_iff name t)

-- The loop from another name neither meets the given one nor looks at it.
next_name-others :
    (f : ℕ) (base : Text) (n : ℕ) (name start : Text) (taken : List Text)
    → text_eq name start ≡ false
    → IsPassed base n name
    → (next_name f base n (others name taken) start ≡ next_name f base n taken start)
      × (text_eq name (next_name f base n taken start) ≡ false)
unfolding next_name
next_name-others zero base n name start taken h p = (refl, h)
next_name-others (suc f) base n name start taken h p = ground (
  arith,
  others-seen_in name start taken h,
  next_name-others f base (n + 1) name (suffixed base n) taken (p n (omega arith))
      (λ k le. p k (omega arith)),
  h,
)

next_name-free :
    (f : ℕ) (base : Text) (n : ℕ) (name : Text) (taken : List Text)
    → length taken ≤ f
    → IsPassed base n name
    → seen_in (next_name f base n taken name) taken ≡ false
unfolding next_name
next_name-free zero base n name [] le p = refl
next_name-free zero base n name (t ∷ taken) le p = absurd (omega arith)
next_name-free (suc f) base n name taken le p = elim (Bool-cases (seen_in name taken)) [
  | inr free ↦ rw free free
  | inl clash ↦
      let (same, apart) =
        next_name-others f base (n + 1) name (suffixed base n) taken (p n (omega arith))
          (λ k l. p k (omega arith)) in
      rw clash (
        sym (others-seen_in name (next_name f base (n + 1) taken (suffixed base n)) taken apart)
        ∙ ap (λ s. seen_in s (others name taken)) (sym same)
        ∙ next_name-free f base (n + 1) (suffixed base n) (others name taken)
            (omega (arith, others-lt name taken clash)) (suffixed-IsPassed base n))
]

-- The loop of tuberName ends, and its name is not taken.
pub tuber_name-free :
    (c : Candidate) (taken : List Text) → seen_in (tuber_name c taken) taken ≡ false
unfolding tuber_name
tuber_name-free c taken =
    next_name-free (length taken) _ 2 _ taken (omega arith) (base-IsPassed _ 2)
