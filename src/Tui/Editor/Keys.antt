-- ===== src/Tui/Editor/Keys.antt =====
-- What the keys of the form of internal/tui/editor.go can reach.
use portato.Prelude.{
  ℕ, ◌<◌, ◌≡◌, refl, sym, ◌∙◌, inl, inr, Bool, Option, none, some, List, [], ◌∷◌, Text, lit,
  text_eq, if◌then◌else◌, ◌==◌, arith, Bool-cases,
}
use portato.Config.Types.{Tuber}
use portato.Tui.Editor.{
  new_tuber_editor, password_index, Input, Mode, mode_edit, mode_new, TuberEditor, field_count,
  tuber,
}
use portato.Tui.Editor.Update.{
  Key, ctrl_s, esc, tab, enter, shift_tab, left, right, typed, Msg, window_size, key_press,
  paste_text, Call, no_call, add_tuber, update_tuber, set_focus, press_input, turn, cycle_left,
  cycle_right, call_of, after_call, validate, save_checked, try_save, handle_key, update, run,
}

-- The focus and both indices are in range.
abbrev pub IsInRange {ℓ} : {I : Type ℓ} → TuberEditor I → Type 0
IsInRange e = (e.focus < field_count) × (e.type_idx < 3) × (e.password_auth_idx < 3)

-- The form is still of the same tuber.
abbrev pub IsOf {ℓ} : {I : Type ℓ} → Tuber → Mode → Text → TuberEditor I → Type 0
IsOf src mode original e =
    (e.src ≡ src) × (e.mode ≡ mode) × (e.original ≡ original) × (e.enabled ≡ src.enabled)

cycle_left-below : (i : ℕ) → cycle_left 3 i < 3
cycle_left-below i = omega arith

cycle_right-below : (i : ℕ) → cycle_right 3 i < 3
cycle_right-below i = omega arith

module _ {ℓ} {I : Type ℓ} (V : Input I) where
  -- A call that saves the form `e` of the tuber: an addition or an update by the mode, of a tuber that
  -- the form validates, and that has the fields of `src` that have no input.
  abbrev pub IsSave : Tuber → Mode → Text → Call → Type ℓ
  IsSave src mode original no_call = Unit {ℓ}
  IsSave src mode original (add_tuber t) =
      (mode ≡ mode_new)
      × ((e : TuberEditor I) × IsOf src mode original e × (t ≡ tuber V e) × (validate V e ≡ []))
  IsSave src mode original (update_tuber o t) =
      (mode ≡ mode_edit)
      × (o ≡ original)
      × ((e : TuberEditor I) × IsOf src mode original e × (t ≡ tuber V e) × (validate V e ≡ []))

  -- The form after a message and the call of the message.
  abbrev IsKept : Tuber → Mode → Text → Call × TuberEditor I → Type ℓ
  IsKept src mode original p =
      IsInRange p.1 × IsOf src mode original p.1 × IsSave src mode original p.0

  save_checked-IsKept :
      (src : Tuber) (mode : Mode) (original : Text) (answer : Option Text) (e : TuberEditor I)
      (errs : List (Text × Text))
      → validate V e ≡ errs
      → IsInRange e
      → IsOf src mode original e
      → IsKept src mode original (save_checked V answer e errs)
  save_checked-IsKept src mode original answer e (err ∷ errs) v range same = (range, same, tt)
  save_checked-IsKept src mode original answer e [] v range same =
      let (kept, of) = after answer in (kept, of, call e.mode refl)
    where
      after :
          (a : Option Text)
          → IsInRange (after_call V a (record e { errs = [] }))
            × IsOf src mode original (after_call V a (record e { errs = [] }))
      after none = (range, same)
      after (some err) = (range, same)

      call : (m : Mode) → e.mode ≡ m → IsSave src mode original (call_of V m e.original (tuber V e))
      call mode_new is = (sym same.1 ∙ is, (e, same, refl, v))
      call mode_edit is = (sym same.1 ∙ is, same.2, (e, same, refl, v))

  turn-IsKept :
      (src : Tuber) (mode : Mode) (original : Text) (k : Key) (cycle : ℕ → ℕ → ℕ)
      (e : TuberEditor I)
      → ((i : ℕ) → cycle 3 i < 3)
      → IsInRange e
      → IsOf src mode original e
      → IsInRange (turn V k cycle e) × IsOf src mode original (turn V k cycle e)
  unfolding press_input
  turn-IsKept src mode original k cycle e below range same = elim (Bool-cases (e.focus == 1)) [
    | inl at ↦ rw at ((range.0, below e.type_idx, range.2), same)
    | inr away ↦ elim (Bool-cases (e.focus == 9)) [
      | inl at ↦ rw (away, at) ((range.0, range.1, below e.password_auth_idx), same)
      | inr off ↦ rw (away, off) (range, same)
    ]
  ]

  update-IsKept :
      (src : Tuber) (mode : Mode) (original : Text) (answer : Option Text) (m : Msg)
      (e : TuberEditor I)
      → IsInRange e
      → IsOf src mode original e
      → IsKept src mode original (update V answer m e)
  unfolding update handle_key set_focus press_input try_save
  update-IsKept src mode original answer (window_size w h) e range same = (range, same, tt)
  update-IsKept src mode original answer (paste_text s) e range same = (range, same, tt)
  update-IsKept src mode original answer (key_press ctrl_s) e range same =
      save_checked-IsKept src mode original answer e (validate V e) refl range same
  update-IsKept src mode original answer (key_press esc) e range same = (range, same, tt)
  update-IsKept src mode original answer (key_press tab) e range same =
      ((ground arith, range.1, range.2), same, tt)
  update-IsKept src mode original answer (key_press enter) e range same =
      ((ground arith, range.1, range.2), same, tt)
  update-IsKept src mode original answer (key_press shift_tab) e range same =
      ((ground arith, range.1, range.2), same, tt)
  update-IsKept src mode original answer (key_press left) e range same =
      let (kept, of) =
        turn-IsKept src mode original left cycle_left e cycle_left-below range same in
      (kept, of, tt)
  update-IsKept src mode original answer (key_press right) e range same =
      let (kept, of) =
        turn-IsKept src mode original right cycle_right e cycle_right-below range same in
      (kept, of, tt)
  update-IsKept src mode original answer (key_press (typed s)) e range same = (range, same, tt)

  abbrev pub AllSaves : Tuber → Mode → Text → List Call → Type ℓ
  AllSaves src mode original [] = Unit {ℓ}
  AllSaves src mode original (c ∷ cs) = IsSave src mode original c × AllSaves src mode original cs

  run-IsKept :
      (src : Tuber) (mode : Mode) (original : Text) (ms : List (Option Text × Msg))
      (e : TuberEditor I)
      → IsInRange e
      → IsOf src mode original e
      → AllSaves src mode original (run V ms e).0 × IsInRange (run V ms e).1
  unfolding run
  run-IsKept src mode original [] e range same = (tt, range)
  run-IsKept src mode original ((answer, m) ∷ ms) e range same =
      let (kept, of, save) = update-IsKept src mode original answer m e range same in
      let (saves, last) = run-IsKept src mode original ms (update V answer m e).1 kept of in
      ((save, saves), last)

  -- Any messages to a form that was opened on a tuber keep the focus on one of its fields and the two
  -- cycled values in range. Each call of the controller adds a tuber in a new form and updates the
  -- tuber that was opened in an edited one; the tuber that it saves is that of a form, still of the
  -- opened tuber, whose validation finds nothing.
  pub run-AllSaves :
      (mode : Mode) (t : Tuber) (existing : List Text) (ms : List (Option Text × Msg))
      → AllSaves t mode t.name (run V ms (new_tuber_editor V mode t existing)).0
        × IsInRange (run V ms (new_tuber_editor V mode t existing)).1
  unfolding new_tuber_editor
  run-AllSaves mode t existing ms =
      run-IsKept t mode t.name ms (new_tuber_editor V mode t existing)
        (
          omega arith,
          type_index-below (text_eq (lit "remote") t.type) (text_eq (lit "dynamic") t.type),
          password_index-below t.password_auth,
        )
        (refl, refl, refl, refl)
    where
      type_index-below : (a b : Bool) → (if a then 1 else if b then 2 else 0) < 3
      type_index-below a b = ground arith

      password_index-below : (o : Option Bool) → password_index o < 3
      password_index-below none = omega arith
      password_index-below (some b) = ground arith
