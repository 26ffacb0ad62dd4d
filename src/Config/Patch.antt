-- ===== src/Config/Patch.antt =====
-- internal/config/patch.go: the edits of a configuration in memory, which prepare and validate the
-- copy that they return.
pub mod Edits
use portato.Prelude.{
  ℕ, zero, suc, ◌+◌, ◌≡◌, Bool, true, false, ◌||◌, Option, none, some, List, [], ◌∷◌, ◌++◌, length,
  get_elem?, set, Text, text_eq, if◌then◌else◌,
}
use portato.Prelude.Int.{ℤ, pos, pos_part, ◌+ℤ◌, ltb_ℤ, leb_ℤ}
use portato.Config.Types.{Config, Tuber}
use portato.Config.Names.{ConfigError, tuber_not_found, Checked, valid, failed, then_check}
use portato.Config.Validate.{validate}
use portato.Config.Prepare.{Env, prepare}

abbrev pub checked_by : Config → Option ConfigError → Checked Config
checked_by c none = valid c
checked_by c (some e) = failed e

-- prepare, then Validate: the end of Load and of each edit. `loaded` is the ssh configuration that
-- loadUserSSHConfig reads, or its error.
unfoldable pub prepare_and_validate : Checked Env → Config → Checked Config
prepare_and_validate loaded out =
    then_check loaded
      (λ env. then_check (prepare env out) (λ c. checked_by c (validate env.current_user c)))

unfoldable pub with_tuber_added : Checked Env → Tuber → Config → Checked Config
unfolding prepare_and_validate
with_tuber_added loaded t c = prepare_and_validate loaded (record c { tubers = c.tubers ++ t ∷ [] })

abbrev pub next_index : Option ℕ → Option ℕ
next_index none = none
next_index (some i) = some (suc i)

-- The first tuber with the name; `none` for idx < 0.
unfoldable pub tuber_index : Text → List Tuber → Option ℕ
tuber_index name [] = none
tuber_index name (t ∷ ts) =
    let later = tuber_index name ts in if text_eq t.name name then some 0 else next_index later

unfoldable pub with_tuber_replaced : Checked Env → Text → Tuber → Config → Checked Config
unfolding tuber_index prepare_and_validate
with_tuber_replaced loaded name t c = elim (tuber_index name c.tubers) [
  | none ↦ failed (tuber_not_found name)
  | some i ↦ prepare_and_validate loaded (record c { tubers = set c.tubers i t })
]

-- append(ts[:i], ts[i+1:]...)
unfoldable pub remove_at {ℓ} : {A : Type ℓ} → ℕ → List A → List A
remove_at i [] = []
remove_at zero (t ∷ ts) = ts
remove_at (suc i) (t ∷ ts) = t ∷ remove_at i ts

unfoldable pub with_tuber_removed : Checked Env → Text → Config → Checked Config
unfolding tuber_index remove_at prepare_and_validate
with_tuber_removed loaded name c = elim (tuber_index name c.tubers) [
  | none ↦ failed (tuber_not_found name)
  | some i ↦ prepare_and_validate loaded (record c { tubers = remove_at i c.tubers })
]

-- ts[i], ts[j] = ts[j], ts[i], in bounds
abbrev pub swapped_with {ℓ} : {A : Type ℓ} → List A → ℕ → ℕ → Option A → Option A → List A
swapped_with ts i j (some a) (some b) = set (set ts i b) j a
swapped_with ts i j _ _ = ts

unfoldable pub swap {ℓ} : {A : Type ℓ} → List A → ℕ → ℕ → List A
swap ts i j = swapped_with ts i j (get_elem? ts i) (get_elem? ts j)

-- A move out of bounds returns the copy as it is.
unfoldable pub with_tuber_moved : Checked Env → Text → ℤ → Config → Checked Config
unfolding tuber_index swap prepare_and_validate
with_tuber_moved loaded name delta c = elim (tuber_index name c.tubers) [
  | none ↦ failed (tuber_not_found name)
  | some i ↦
      let target = pos i +ℤ delta in
      if ltb_ℤ target (pos 0) || leb_ℤ (pos (length c.tubers)) target
      then valid c
      else prepare_and_validate loaded (record c { tubers = swap c.tubers i (pos_part target) })
]
