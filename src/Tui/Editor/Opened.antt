-- ===== src/Tui/Editor/Opened.antt =====
-- A tuber that is opened in the form of internal/tui/editor.go.
use portato.Prelude.{ℕ, ◌&&◌, take, length, leb, ◌≡◌, Bool, ◌||◌, Text, lit, text_eq}
use portato.Config.Types.{Tuber}
use portato.Tui.Editor.{Input, join_tags, char_limit}

-- The text input cuts what it is given to its limit: CharLimit of the third-party input.
abbrev pub Cuts {ℓ} : {I : Type ℓ} → Input I → Type 0
Cuts V = (n : ℕ) (s : Text) → V.value (V.make n s) ≡ take n s

abbrev fits : Text → Bool
fits s = leb (length s) char_limit

-- No text of the form is longer than the limit, the joined tags included.
abbrev pub all_fit : Tuber → Bool
all_fit t =
    fits t.name
    && fits t.ssh
    && fits t.local
    && fits t.remote
    && fits t.identity
    && fits t.jump
    && fits t.socks5_user
    && fits t.socks5_password
    && fits (join_tags t.tags)

abbrev pub is_type : Text → Bool
is_type s = text_eq (lit "local") s || text_eq (lit "remote") s || text_eq (lit "dynamic") s
