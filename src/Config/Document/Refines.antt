-- ===== src/Config/Document/Refines.antt =====
-- The edits of internal/config/patch.go in memory and in the file, side by side: what the file loads
-- as after an edit that the copy in memory has passed.
use portato.Prelude.{
  ℕ, ◌≡◌, refl, sym, subst, ◌∙◌, Bool, true, false, ◌||◌, Option, none, some, List, [], ◌∷◌, length,
  set, all, Text, if◌then◌else◌, arith,
}
use portato.Prelude.Int.{pos, pos_part, ◌+ℤ◌, ltb_ℤ, leb_ℤ}
use portato.Config.Types.{Config, Defaults, Tuber}
use portato.Config.Names.{
  tuber_not_found, Checked, valid, failed, then_check, then_check-valid, valid-inj,
}
use portato.Config.Prepare.{Env, prepare, prepare_tubers, resolve_tuber, with_type}
use portato.Config.Prepare.Idempotent.{has_target, prepare_tuber-settled, with_type-name}
use portato.Config.Prepare.Idempotent.Tubers.{resolve_tuber-name}
use portato.Config.Patch.{
  prepare_and_validate, with_tuber_added, with_tuber_replaced, with_tuber_removed, with_tuber_moved,
  tuber_index, remove_at, swap,
}
use portato.Config.Document.Edited.{
  Change, add, replace, delete, move, moved, at_found, edited, index_of, All2,
}
use portato.Config.Document.Loaded.{config_with}

abbrev pub name_of : Tuber → Text
name_of t = t.name

-- The edit in memory that a change asks for.
abbrev pub with_change : Checked Env → Change Tuber → Config → Checked Config
with_change loaded (add t) c = with_tuber_added loaded t c
with_change loaded (replace name t) c = with_tuber_replaced loaded name t c
with_change loaded (delete name) c = with_tuber_removed loaded name c
with_change loaded (move name delta) c = with_tuber_moved loaded name delta c

tuber_index-index_of :
    (name : Text) (ts : List Tuber) → tuber_index name ts ≡ index_of name_of name ts
unfolding tuber_index index_of
tuber_index-index_of name [] = refl
tuber_index-index_of name (t ∷ ts) = rw (tuber_index-index_of name ts) refl

-- The check of the copy, which a move out of bounds skips.
abbrev pub check_copy : Checked Env → Config → Option (List Tuber) → Checked Config
check_copy loaded c none = valid c
check_copy loaded c (some ts) = prepare_and_validate loaded (record c { tubers = ts })

-- The copy at the index of a name, or the error of the name.
at_index-check :
    (loaded : Checked Env) (cfg : Config) (name : Text) (f : ℕ → Option (List Tuber))
    (g : ℕ → Checked Config)
    → ((i : ℕ) → g i ≡ check_copy loaded cfg (f i))
    → (o : Option ℕ)
    → elim o [ none ↦ failed (tuber_not_found name) | some i ↦ g i ]
      ≡ then_check (at_found (tuber_not_found name) f o) (check_copy loaded cfg)
at_index-check loaded cfg name f g same none = refl
at_index-check loaded cfg name f g same (some i) = same i

pub with_change-edited :
    (loaded : Checked Env) (c : Change Tuber) (cfg : Config)
    → with_change loaded c cfg ≡ then_check (edited name_of c cfg.tubers) (check_copy loaded cfg)
unfolding index_of with_tuber_added with_tuber_replaced with_tuber_removed with_tuber_moved
with_change-edited loaded (add t) cfg = refl
with_change-edited loaded (replace name t) cfg = rw (tuber_index-index_of name cfg.tubers) (
    at_index-check loaded cfg name (λ i. some (set cfg.tubers i t))
      (λ i. prepare_and_validate loaded (record cfg { tubers = set cfg.tubers i t })) (λ i. refl)
      (index_of name_of name cfg.tubers))
with_change-edited loaded (delete name) cfg = rw (tuber_index-index_of name cfg.tubers) (
    at_index-check loaded cfg name (λ i. some (remove_at i cfg.tubers))
      (λ i. prepare_and_validate loaded (record cfg { tubers = remove_at i cfg.tubers }))
      (λ i. refl) (index_of name_of name cfg.tubers))
with_change-edited loaded (move name delta) cfg = rw (tuber_index-index_of name cfg.tubers) (
    at_index-check loaded cfg name (moved delta cfg.tubers)
      (λ i.
        let target = pos i +ℤ delta in
        if ltb_ℤ target (pos 0) || leb_ℤ (pos (length cfg.tubers)) target
        then valid cfg
        else prepare_and_validate loaded
            (record cfg { tubers = swap cfg.tubers i (pos_part target) }))
      (λ i.
        choose (ltb_ℤ (pos i +ℤ delta) (pos 0) || leb_ℤ (pos (length cfg.tubers)) (pos i +ℤ delta))
          (swap cfg.tubers i (pos_part (pos i +ℤ delta))))
      (index_of name_of name cfg.tubers))
  where
    choose :
        (b : Bool) (ts : List Tuber)
        → (if b then valid cfg else prepare_and_validate loaded (record cfg { tubers = ts }))
          ≡ check_copy loaded cfg (if b then none else some ts)
    choose true ts = refl
    choose false ts = refl

-- Two tubers that prepare makes the same, under the same name.
abbrev pub SamePrepared : Env → Tuber → Tuber → Type 0
SamePrepared env t u =
    (resolve_tuber env (with_type t) ≡ resolve_tuber env (with_type u)) × (t.name ≡ u.name)

prepare_tubers-All2 :
    (env : Env) (ts us : List Tuber)
    → All2 (SamePrepared env) ts us
    → prepare_tubers env ts ≡ prepare_tubers env us
unfolding prepare_tubers
prepare_tubers-All2 env [] [] h = refl
prepare_tubers-All2 env [] (u ∷ us) h = absurd h
prepare_tubers-All2 env (t ∷ ts) [] h = absurd h
prepare_tubers-All2 env (t ∷ ts) (u ∷ us) h = rw (h.0.0, prepare_tubers-All2 env ts us h.1) refl

-- A prepared list is prepared like the list that it came from.
pub prepared-All2 :
    (env : Env) (ts us : List Tuber)
    → all has_target ts ≡ true
    → prepare_tubers env ts ≡ valid us
    → All2 (SamePrepared env) ts us
unfolding prepare_tubers
prepared-All2 env [] us targets done = subst (All2 (SamePrepared env) []) (valid-inj done) tt
prepared-All2 env (t ∷ ts) us targets done =
    let (u, first, next) =
      then_check-valid (resolve_tuber env (with_type t))
        (λ u. then_check (prepare_tubers env ts) (λ us. valid (u ∷ us))) us done in
    let (vs, rest, both) =
      then_check-valid (prepare_tubers env ts) (λ us. valid (u ∷ us)) us next in
    subst (All2 (SamePrepared env) (t ∷ ts)) (valid-inj both) (
      (
        first ∙ sym (prepare_tuber-settled env t u (ground arith) first),
        sym (resolve_tuber-name env (with_type t) u first ∙ with_type-name t),
      ),
      prepared-All2 env ts vs (ground arith) rest,
    )

pub prepare_and_validate-All2 :
    (env : Env) (d : Defaults) (ts us : List Tuber)
    → All2 (SamePrepared env) ts us
    → prepare_and_validate (valid env) (config_with d ts)
      ≡ prepare_and_validate (valid env) (config_with d us)
unfolding prepare_and_validate prepare
prepare_and_validate-All2 env d ts us h = rw (prepare_tubers-All2 env ts us h) refl
