-- ===== src/Tui/Editor/Tests.antt =====
-- The form with a text input that appends what is typed.
use portato.Prelude.{take, ℕ, ◌<◌, true, none, some, Option, List, [], ◌∷◌, ◌++◌, Text, lit}
use portato.Config.Types.{Tuber}
use portato.Forward.Fixtures.{db}
use portato.Tui.Editor.{Input, mode_edit, new_tuber_editor}
use portato.Tui.Editor.Update.{Msg, key_press, ctrl_s, tab, right, typed, run}
use portato.Tui.Editor.Keys.{IsInRange, AllSaves, run-AllSaves}

abbrev appending : Input Text
appending = record {
  make = λ n s. take n s;
  value = λ s. s;
  press = λ k s. s ++ k;
  paste = λ k s. s ++ k;
  blur = λ s. s;
  focus = λ s. s;
}

abbrev tagged : Tuber
tagged = record db { tags = lit "prod" ∷ lit "eu" ∷ [] }

abbrev messages : List (Option Text × Msg)
messages =
    (none, key_press (typed (lit "2")))
    ∷ (none, key_press tab)
    ∷ (none, key_press right)
    ∷ (none, key_press ctrl_s)
    ∷ []

run-AllSaves_example :
    AllSaves appending tagged mode_edit tagged.name
      (run appending messages (new_tuber_editor appending mode_edit tagged (lit "db" ∷ []))).0
    × IsInRange
        (run appending messages (new_tuber_editor appending mode_edit tagged (lit "db" ∷ []))).1
run-AllSaves_example = run-AllSaves appending mode_edit tagged (lit "db" ∷ []) messages
