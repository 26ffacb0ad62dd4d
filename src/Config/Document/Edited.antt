-- ===== src/Config/Document/Edited.antt =====
-- An edit of a list of named entries, the common specification of the edits in memory and of those
-- of the document (internal/config/patch.go), and how it treats two lists that agree entry by entry.
use portato.Prelude.{
  ℕ, zero, suc, ◌≡◌, refl, sym, ap, Bool, true, false, ◌||◌, Option, none, some, List, [], ◌∷◌,
  ◌++◌, length, get_elem?, set, Text, text_eq, if◌then◌else◌,
}
use portato.Prelude.Int.{ℤ, pos, pos_part, ◌+ℤ◌, ltb_ℤ, leb_ℤ}
use portato.Config.Names.{ConfigError, tuber_not_found, Checked, valid, failed}
use portato.Config.Patch.{next_index, swap, swapped_with, remove_at}

pub data Change (A : Type 0) : Type 0 where
  add : A → Change A
  replace : Text → A → Change A
  delete : Text → Change A
  move : Text → ℤ → Change A

abbrev pub at_found {ℓ κ} : {A : Type ℓ} {B : Type κ} → ConfigError → (A → B) → Option A → Checked B
at_found e f none = failed e
at_found e f (some a) = valid (f a)

abbrev pub moved {ℓ} : {A : Type ℓ} → ℤ → List A → ℕ → Option (List A)
moved delta xs i =
    let target = pos i +ℤ delta in
    if ltb_ℤ target (pos 0) || leb_ℤ (pos (length xs)) target
    then none
    else some (swap xs i (pos_part target))

module _ {A : Type 0} (name_of : A → Text) where
  -- The first entry with the name.
  unfoldable pub index_of : Text → List A → Option ℕ
  index_of name [] = none
  index_of name (x ∷ xs) =
      let later = index_of name xs in if text_eq (name_of x) name then some 0 else next_index later

  -- `none` for a move that changes nothing.
  abbrev pub edited : Change A → List A → Checked (Option (List A))
  edited (add a) xs = valid (some (xs ++ a ∷ []))
  edited (replace name a) xs =
      at_found (tuber_not_found name) (λ i. some (set xs i a)) (index_of name xs)
  edited (delete name) xs =
      at_found (tuber_not_found name) (λ i. some (remove_at i xs)) (index_of name xs)
  edited (move name delta) xs =
      at_found (tuber_not_found name) (λ i. moved delta xs i) (index_of name xs)

-- Two lists whose entries are related one by one.
abbrev pub All2 : {A B : Type 0} → (A → B → Type 0) → List A → List B → Type 0
All2 R [] [] = Unit {0}
All2 R [] (y ∷ ys) = ⊥
All2 R (x ∷ xs) [] = ⊥
All2 R (x ∷ xs) (y ∷ ys) = R x y × All2 R xs ys

module _ {A B : Type 0} (R : A → B → Type 0) where
  All2-length : (xs : List A) (ys : List B) → All2 R xs ys → length xs ≡ length ys
  All2-length [] [] h = refl
  All2-length [] (y ∷ ys) h = absurd h
  All2-length (x ∷ xs) [] h = absurd h
  All2-length (x ∷ xs) (y ∷ ys) h = ap (λ n. suc n) (All2-length xs ys h.1)

  All2-last :
      (xs : List A) (ys : List B) (a : A) (b : B)
      → R a b
      → All2 R xs ys
      → All2 R (xs ++ a ∷ []) (ys ++ b ∷ [])
  All2-last [] [] a b r h = (r, tt)
  All2-last [] (y ∷ ys) a b r h = absurd h
  All2-last (x ∷ xs) [] a b r h = absurd h
  All2-last (x ∷ xs) (y ∷ ys) a b r h = (h.0, All2-last xs ys a b r h.1)

  All2-set :
      (i : ℕ) (xs : List A) (ys : List B) (a : A) (b : B)
      → R a b
      → All2 R xs ys
      → All2 R (set xs i a) (set ys i b)
  All2-set i [] [] a b r h = tt
  All2-set i [] (y ∷ ys) a b r h = absurd h
  All2-set i (x ∷ xs) [] a b r h = absurd h
  All2-set zero (x ∷ xs) (y ∷ ys) a b r h = (r, h.1)
  All2-set (suc i) (x ∷ xs) (y ∷ ys) a b r h = (h.0, All2-set i xs ys a b r h.1)

  All2-remove_at :
      (i : ℕ) (xs : List A) (ys : List B) → All2 R xs ys → All2 R (remove_at i xs) (remove_at i ys)
  unfolding remove_at
  All2-remove_at i [] [] h = tt
  All2-remove_at i [] (y ∷ ys) h = absurd h
  All2-remove_at i (x ∷ xs) [] h = absurd h
  All2-remove_at zero (x ∷ xs) (y ∷ ys) h = h.1
  All2-remove_at (suc i) (x ∷ xs) (y ∷ ys) h = (h.0, All2-remove_at i xs ys h.1)

  abbrev Related : Option A → Option B → Type 0
  Related none none = Unit {0}
  Related none (some b) = ⊥
  Related (some a) none = ⊥
  Related (some a) (some b) = R a b

  All2-get_elem? :
      (i : ℕ) (xs : List A) (ys : List B) → All2 R xs ys → Related (get_elem? xs i) (get_elem? ys i)
  All2-get_elem? i [] [] h = tt
  All2-get_elem? i [] (y ∷ ys) h = absurd h
  All2-get_elem? i (x ∷ xs) [] h = absurd h
  All2-get_elem? zero (x ∷ xs) (y ∷ ys) h = h.0
  All2-get_elem? (suc i) (x ∷ xs) (y ∷ ys) h = All2-get_elem? i xs ys h.1

  All2-swap :
      (i j : ℕ) (xs : List A) (ys : List B) → All2 R xs ys → All2 R (swap xs i j) (swap ys i j)
  unfolding swap
  All2-swap i j xs ys h =
      swapped (get_elem? xs i) (get_elem? xs j) (get_elem? ys i) (get_elem? ys j)
        (All2-get_elem? i xs ys h) (All2-get_elem? j xs ys h)
    where
      swapped :
          (a b : Option A) (c d : Option B)
          → Related a c
          → Related b d
          → All2 R (swapped_with xs i j a b) (swapped_with ys i j c d)
      swapped (some a) (some b) (some c) (some d) p q =
          All2-set j (set xs i b) (set ys i d) a c p (All2-set i xs ys b d q h)
      swapped none b none d p q = h
      swapped (some a) none (some c) none p q = h
      swapped none b (some c) d p q = absurd p
      swapped (some a) b none d p q = absurd p
      swapped (some a) none (some c) (some d) p q = absurd q
      swapped (some a) (some b) (some c) none p q = absurd q

  abbrev pub RelatedLists : Option (List A) → Option (List B) → Type 0
  RelatedLists none none = Unit {0}
  RelatedLists none (some b) = ⊥
  RelatedLists (some a) none = ⊥
  RelatedLists (some xs) (some ys) = All2 R xs ys

  -- The same error, or results that are related.
  abbrev pub RelatedResults : Checked (Option (List A)) → Checked (Option (List B)) → Type 0
  RelatedResults (failed e) (failed e') = e ≡ e'
  RelatedResults (failed e) (valid o) = ⊥
  RelatedResults (valid o) (failed e) = ⊥
  RelatedResults (valid o) (valid o') = RelatedLists o o'

  abbrev pub RelatedChanges : Change A → Change B → Type 0
  RelatedChanges (add a) (add b) = R a b
  RelatedChanges (replace name a) (replace name' b) = (name ≡ name') × R a b
  RelatedChanges (delete name) (delete name') = name ≡ name'
  RelatedChanges (move name d) (move name' d') = (name ≡ name') × (d ≡ d')
  RelatedChanges _ _ = ⊥

module _ {A B : Type 0} (R : A → B → Type 0) (name_of : A → Text) (name_of' : B → Text)
    (named : (a : A) (b : B) → R a b → name_of a ≡ name_of' b) where
  pub index_of-All2 :
      (name : Text) (xs : List A) (ys : List B)
      → All2 R xs ys
      → index_of name_of name xs ≡ index_of name_of' name ys
  unfolding index_of
  index_of-All2 name [] [] h = refl
  index_of-All2 name [] (y ∷ ys) h = absurd h
  index_of-All2 name (x ∷ xs) [] h = absurd h
  index_of-All2 name (x ∷ xs) (y ∷ ys) h = rw (named x y h.0, index_of-All2 name xs ys h.1) refl

  moved-All2 :
      (delta : ℤ) (i : ℕ) (xs : List A) (ys : List B)
      → All2 R xs ys
      → RelatedLists R (moved delta xs i) (moved delta ys i)
  moved-All2 delta i xs ys h =
      rw (All2-length R xs ys h) (choose (ltb_ℤ target (pos 0) || leb_ℤ (pos (length ys)) target))
    where
      target : ℤ
      target = pos i +ℤ delta

      choose :
          (b : Bool)
          → RelatedLists R
              (if b then none else some (swap xs i (pos_part target)))
              (if b then none else some (swap ys i (pos_part target)))
      choose true = tt
      choose false = All2-swap R i (pos_part target) xs ys h

  found-All2 :
      (name : Text) (xs : List A) (ys : List B) (f : ℕ → Option (List A)) (g : ℕ → Option (List B))
      → All2 R xs ys
      → ((i : ℕ) → RelatedLists R (f i) (g i))
      → RelatedResults R
          (at_found (tuber_not_found name) f (index_of name_of name xs))
          (at_found (tuber_not_found name) g (index_of name_of' name ys))
  found-All2 name xs ys f g h each =
      rw (index_of-All2 name xs ys h) (both (index_of name_of' name ys))
    where
      both :
          (o : Option ℕ)
          → RelatedResults R
              (at_found (tuber_not_found name) f o)
              (at_found (tuber_not_found name) g o)
      both none = refl
      both (some i) = each i

  -- An edit keeps the relation, and fails on both lists or on neither.
  pub edited-All2 :
      (c : Change A) (d : Change B) (xs : List A) (ys : List B)
      → RelatedChanges R c d
      → All2 R xs ys
      → RelatedResults R (edited name_of c xs) (edited name_of' d ys)
  edited-All2 (add a) (add b) xs ys r h = All2-last R xs ys a b r h
  edited-All2 (replace name a) (replace name' b) xs ys r h = rw (sym r.0) (
      found-All2 name xs ys (λ i. some (set xs i a)) (λ i. some (set ys i b)) h
        (λ i. All2-set R i xs ys a b r.1 h))
  edited-All2 (delete name) (delete name') xs ys r h = rw (sym r) (
      found-All2 name xs ys (λ i. some (remove_at i xs)) (λ i. some (remove_at i ys)) h
        (λ i. All2-remove_at R i xs ys h))
  edited-All2 (move name d) (move name' d') xs ys r h =
      rw (sym r.0, sym r.1)
        (found-All2 name xs ys (moved d xs) (moved d ys) h (λ i. moved-All2 d i xs ys h))
  edited-All2 (add a) (replace _ _) xs ys r h = absurd r
  edited-All2 (add a) (delete _) xs ys r h = absurd r
  edited-All2 (add a) (move _ _) xs ys r h = absurd r
  edited-All2 (replace _ _) (add _) xs ys r h = absurd r
  edited-All2 (replace _ _) (delete _) xs ys r h = absurd r
  edited-All2 (replace _ _) (move _ _) xs ys r h = absurd r
  edited-All2 (delete _) (add _) xs ys r h = absurd r
  edited-All2 (delete _) (replace _ _) xs ys r h = absurd r
  edited-All2 (delete _) (move _ _) xs ys r h = absurd r
  edited-All2 (move _ _) (add _) xs ys r h = absurd r
  edited-All2 (move _ _) (replace _ _) xs ys r h = absurd r
  edited-All2 (move _ _) (delete _) xs ys r h = absurd r
