-- ===== src/Tui/Editor/Update.antt =====
-- internal/tui/editor.go: what a message makes of the form, its validation and its save.
use portato.Prelude.{
  ℕ, suc, ◌+◌, ◌-◌, ◌%◌, Bool, true, false, not, ◌&&◌, ◌||◌, Option, none, some, List, [], ◌∷◌,
  ◌++◌, Text, lit, text_eq, is_empty, trim_space, all, any, if◌then◌else◌, ltb, leb, ◌==◌,
}
use portato.Config.Types.{Tuber}
use portato.Tui.Editor.{
  Input, Mode, mode_edit, mode_new, Fields, TuberEditor, field_count, parse_editor_tags, tuber,
}

-- c - 1 for -1 as the direction and c + 1 for 1, plus n, modulo n
abbrev pub cycle_left : ℕ → ℕ → ℕ
cycle_left n i = (i + n - 1) % n

abbrev pub cycle_right : ℕ → ℕ → ℕ
cycle_right n i = (i + 1 + n) % n

-- k.String(), by the cases that handleKey tells apart
pub data Key : Type 0 where
  ctrl_s : Key
  esc : Key
  tab : Key
  enter : Key
  shift_tab : Key
  left : Key
  right : Key
  typed : Text → Key

pub data Msg : Type 0 where
  window_size : ℕ → ℕ → Msg
  key_press : Key → Msg
  paste_text : Text → Msg

-- The call of the controller that a save makes.
pub data Call : Type 0 where
  no_call : Call
  add_tuber : Tuber → Call
  update_tuber : Text → Tuber → Call

abbrev pub key_name : Key → Text
key_name ctrl_s = lit "ctrl+s"
key_name esc = lit "esc"
key_name tab = lit "tab"
key_name enter = lit "enter"
key_name shift_tab = lit "shift+tab"
key_name left = lit "left"
key_name right = lit "right"
key_name (typed s) = s

abbrev error_if : Bool → Text → Text → List (Text × Text)
error_if b key msg = if b then (key, msg) ∷ [] else []

-- validEditorName
unfoldable pub valid_editor_name : Text → Bool
valid_editor_name s =
    if is_empty s
    then false
    else all
        (λ r.
          (r == b'-')
          || (r == b'_')
          || (leb b'a' r && leb r b'z')
          || (leb b'A' r && leb r b'Z')
          || (leb b'0' r && leb r b'9'))
        s

abbrev is_edit : Mode → Bool
is_edit mode_edit = true
is_edit mode_new = false

-- A name that another tuber has.
abbrev pub is_taken : Mode → Text → List Text → Text → Bool
is_taken mode original existing name =
    any (λ n. text_eq n name && not (is_edit mode && text_eq n original)) existing

abbrev name_errors : Mode → Text → List Text → Text → List (Text × Text)
name_errors mode original existing name =
    if is_empty name
    then (lit "name", lit "required") ∷ []
    else if not (valid_editor_name name)
    then (lit "name", lit "letters, digits, - or _ only") ∷ []
    else error_if (is_taken mode original existing name) (lit "name") (lit "already exists")

module _ {ℓ} {I : Type ℓ} (V : Input I) where
  -- What is at textInputFor of an index, changed; the other indices have no text input.
  unfoldable pub update_input : ℕ → (I → I) → Fields I → Fields I
  update_input i f s =
      if i == 0
      then record s { name = f s.name }
      else if i == 2
      then record s { ssh = f s.ssh }
      else if i == 3
      then record s { local = f s.local }
      else if i == 4
      then record s { remote = f s.remote }
      else if i == 5
      then record s { identity = f s.identity }
      else if i == 6
      then record s { jump = f s.jump }
      else if i == 7
      then record s { socks5_user = f s.socks5_user }
      else if i == 8
      then record s { socks5_pass = f s.socks5_pass }
      else if i == 10
      then record s { tags = f s.tags }
      else s

  unfoldable pub set_focus : ℕ → TuberEditor I → TuberEditor I
  unfolding update_input
  set_focus idx e = record e {
    focus = idx;
    fields = update_input idx V.focus (update_input e.focus V.blur e.fields);
  }

  unfoldable pub press_input : Key → TuberEditor I → TuberEditor I
  unfolding update_input
  press_input k e = record e { fields = update_input e.focus (V.press (key_name k)) e.fields }

  -- The two fields whose value left and right change, or the text input.
  abbrev pub turn : Key → (ℕ → ℕ → ℕ) → TuberEditor I → TuberEditor I
  turn k cycle e =
      if e.focus == 1
      then record e { type_idx = cycle 3 e.type_idx }
      else if e.focus == 9
      then record e { password_auth_idx = cycle 3 e.password_auth_idx }
      else press_input k e

  unfoldable pub validate : TuberEditor I → List (Text × Text)
  unfolding valid_editor_name tuber parse_editor_tags
  validate e =
      let t = tuber V e in
      name_errors e.mode e.original e.existing (trim_space t.name)
      ++ (error_if (is_empty (trim_space t.local)) (lit "local") (lit "required")
          ++ (error_if (is_empty (trim_space t.ssh)) (lit "ssh") (lit "required")
              ++ (error_if (not (text_eq t.type (lit "dynamic")) && is_empty (trim_space t.remote))
                    (lit "remote") (lit "required for " ++ t.type)
                  ++ error_if
                      (any (λ tag. not (valid_editor_name tag))
                        (parse_editor_tags (V.value e.fields.tags)))
                      (lit "tags") (lit "letters, digits, - or _ only (comma-separated)"))))

  abbrev pub call_of : Mode → Text → Tuber → Call
  call_of mode_new original t = add_tuber t
  call_of mode_edit original t = update_tuber original t

  abbrev pub after_call : Option Text → TuberEditor I → TuberEditor I
  after_call none e = record e { saved = true; done = true }
  after_call (some err) e = record e { status = lit "error: " ++ err }

  -- `answer` is the error that the controller returns, if it is called.
  abbrev pub save_checked : Option Text → TuberEditor I → List (Text × Text) → Call × TuberEditor I
  save_checked answer e [] =
      (call_of e.mode e.original (tuber V e), after_call answer (record e { errs = [] }))
  save_checked answer e (err ∷ errs) =
      (no_call, record e { errs = err ∷ errs; status = lit "fix the highlighted fields" })

  unfoldable pub try_save : Option Text → TuberEditor I → Call × TuberEditor I
  unfolding validate
  try_save answer e = save_checked answer e (validate e)

  unfoldable pub handle_key : Option Text → Key → TuberEditor I → Call × TuberEditor I
  unfolding try_save set_focus press_input
  handle_key answer ctrl_s e = try_save answer e
  handle_key answer esc e = (no_call, record e { done = true })
  handle_key answer tab e =
      (no_call, set_focus (if ltb (suc e.focus) field_count then suc e.focus else 0) e)
  handle_key answer enter e =
      (no_call, set_focus (if ltb (suc e.focus) field_count then suc e.focus else 0) e)
  handle_key answer shift_tab e =
      (no_call, set_focus (if e.focus == 0 then field_count - 1 else e.focus - 1) e)
  handle_key answer left e = (no_call, turn left cycle_left e)
  handle_key answer right e = (no_call, turn right cycle_right e)
  handle_key answer (typed s) e = (no_call, press_input (typed s) e)

  unfoldable pub update : Option Text → Msg → TuberEditor I → Call × TuberEditor I
  unfolding handle_key update_input
  update answer (window_size w h) e = (no_call, record e { width = w; height = h })
  update answer (key_press k) e = handle_key answer k e
  update answer (paste_text s) e =
      (no_call, record e { fields = update_input e.focus (V.paste s) e.fields })

  -- The calls of a list of messages, each with what the controller would answer, and the form after
  -- them.
  unfoldable pub run : List (Option Text × Msg) → TuberEditor I → List Call × TuberEditor I
  unfolding update
  run [] e = ([], e)
  run ((answer, m) ∷ ms) e =
      let (c, e') = update answer m e in let (cs, e'') = run ms e' in (c ∷ cs, e'')
