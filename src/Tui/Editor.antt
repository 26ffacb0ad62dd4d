-- ===== src/Tui/Editor.antt =====
-- internal/tui/editor.go: the form that edits a tuber. A text field is the third-party text input, the
-- record Input; only its value is read. Placeholders, styles and the view are left out.
pub mod Update
pub mod Tags
pub mod Opened
pub mod Keys
mod Tests
use portato.Prelude.{
  ℕ, ◌≡◌, Bool, true, false, Option, none, some, List, [], ◌∷◌, ◌++◌, Text, lit, text_eq, is_empty,
  trim_space, split_on, all, if◌then◌else◌, ltb, ◌==◌,
}
use portato.Config.Types.{Tuber}
use portato.Config.Names.{valid_name}
use portato.Config.Validate.{seen_in}

-- The text input: a new one with a limit of characters and a value, its value, and what a key or a
-- pasted text makes of it.
pub record Input {ℓ} (I : Type ℓ) : Type ℓ where
  pub make : ℕ → Text → I
  pub value : I → Text
  pub press : Text → I → I
  pub paste : Text → I → I
  pub blur : I → I
  pub focus : I → I

pub data Mode : Type 0 where
  mode_edit : Mode
  mode_new : Mode

-- The text fields of the form.
pub record Fields {ℓ} (I : Type ℓ) : Type ℓ where
  pub name : I
  pub ssh : I
  pub local : I
  pub remote : I
  pub identity : I
  pub jump : I
  pub socks5_user : I
  pub socks5_pass : I
  pub tags : I

pub record TuberEditor {ℓ} (I : Type ℓ) : Type ℓ where
  pub mode : Mode
  pub original : Text
  pub src : Tuber
  pub enabled : Bool
  pub fields : Fields I
  pub type_idx : ℕ
  pub password_auth_idx : ℕ
  pub focus : ℕ
  pub width : ℕ
  pub height : ℕ
  pub existing : List Text
  pub errs : List (Text × Text)
  pub status : Text
  pub saved : Bool
  pub done : Bool

-- CharLimit of newInput
abbrev pub char_limit : ℕ
char_limit = 256

-- tuberTypes[i]
abbrev pub type_at : ℕ → Text
type_at i = if i == 0 then lit "local" else if i == 1 then lit "remote" else lit "dynamic"

-- The index of a type in tuberTypes; 0 for one that is not in it.
abbrev pub type_index : Text → ℕ
type_index s = if text_eq (lit "remote") s then 1 else if text_eq (lit "dynamic") s then 2 else 0

-- passwordAuthInherit, passwordAuthOn, passwordAuthOff
abbrev pub password_index : Option Bool → ℕ
password_index none = 0
password_index (some b) = if b then 1 else 2

abbrev pub password_at : ℕ → Option Bool
password_at i = if i == 1 then some true else if i == 2 then some false else none

abbrev pub field_count : ℕ
field_count = 11

-- strings.Join(tags, ", ")
unfoldable pub join_tags : List Text → Text
join_tags [] = []
join_tags (w ∷ []) = w
join_tags (w ∷ v ∷ ws) = w ++ (b',' ∷ b' ' ∷ join_tags (v ∷ ws))

unfoldable pub clean_tags : List Text → List Text → List Text
clean_tags seen [] = []
clean_tags seen (p ∷ ps) =
    let tag = trim_space p in
    let others = clean_tags seen ps in
    let rest = clean_tags (tag ∷ seen) ps in
    if is_empty tag then others else if seen_in tag seen then others else tag ∷ rest

unfoldable pub parse_editor_tags : Text → List Text
unfolding clean_tags
parse_editor_tags s = clean_tags [] (split_on b',' s)

module _ {ℓ} {I : Type ℓ} (V : Input I) where
  -- newInput
  abbrev pub new_input : Text → I
  new_input value = V.make char_limit value

  unfoldable pub new_tuber_editor : Mode → Tuber → List Text → TuberEditor I
  unfolding join_tags
  new_tuber_editor mode t existing = record {
    mode = mode;
    original = t.name;
    src = t;
    enabled = t.enabled;
    fields = record {
      name = new_input t.name;
      ssh = new_input t.ssh;
      local = new_input t.local;
      remote = new_input t.remote;
      identity = new_input t.identity;
      jump = new_input t.jump;
      socks5_user = new_input t.socks5_user;
      socks5_pass = new_input t.socks5_password;
      tags = new_input (join_tags t.tags);
    };
    type_idx = type_index t.type;
    password_auth_idx = password_index t.password_auth;
    focus = 0;
    width = 0;
    height = 0;
    existing = existing;
    errs = [];
    status = [];
    saved = false;
    done = false;
  }

  unfoldable pub tuber : TuberEditor I → Tuber
  unfolding parse_editor_tags
  tuber e = record (e.src) {
    name = V.value e.fields.name;
    type = type_at e.type_idx;
    ssh = V.value e.fields.ssh;
    local = V.value e.fields.local;
    remote = V.value e.fields.remote;
    identity = V.value e.fields.identity;
    jump = V.value e.fields.jump;
    socks5_user = V.value e.fields.socks5_user;
    socks5_password = V.value e.fields.socks5_pass;
    password_auth = password_at e.password_auth_idx;
    enabled = e.enabled;
    tags = parse_editor_tags (V.value e.fields.tags);
  }
