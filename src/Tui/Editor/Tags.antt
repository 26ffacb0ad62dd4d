-- ===== src/Tui/Editor/Tags.antt =====
-- The tags of internal/tui/editor.go, joined for the form and read back.
use portato.Prelude.{
  ℕ, ◌≡◌, refl, sym, ap, ap₂, ◌∙◌, Bool, true, false, not, ◌&&◌, ◌||◌, List, [], ◌∷◌, ◌++◌, map,
  Text, text_eq, text_eq_iff, is_empty, is_space, trim_space, trim_left, trim_right, split_on, all,
  if◌then◌else◌, leb, ◌==◌, arith,
}
use portato.Prelude.Trims.{trim_space-spaceless}
use portato.Prelude.Splits.{lacks, split_on-append, split_on-lacks}
use portato.Config.Names.{valid_name, is_name_char}
use portato.Config.Validate.{seen_in}
use portato.Config.Validate.Accepted.{distinct}
use portato.Tui.Editor.{join_tags, clean_tags, parse_editor_tags}

abbrev is_visible : ℕ → Bool
is_visible c = leb 33 c && leb c 126

is_visible-is_space : (c : ℕ) → is_visible c ≡ true → is_space c ≡ false
unfolding is_space
is_visible-is_space c h = ground arith

is_name_char-is_visible : (c : ℕ) → is_name_char c ≡ true → is_visible c ≡ true
is_name_char-is_visible c h = ground arith

is_name_char-spaceless :
    (s : Text) → all is_name_char s ≡ true → all (λ c. not (is_space c)) s ≡ true
is_name_char-spaceless [] h = refl
is_name_char-spaceless (c ∷ s) h =
    let here : is_name_char c ≡ true = and_left (is_name_char c) (all is_name_char s) h in
    let there : all is_name_char s ≡ true = and_right (is_name_char c) (all is_name_char s) h in
    rw (is_visible-is_space c (is_name_char-is_visible c here)) (is_name_char-spaceless s there)
  where
    and_left : (a b : Bool) → (a && b) ≡ true → a ≡ true
    and_left a b e = ground arith

    and_right : (a b : Bool) → (a && b) ≡ true → b ≡ true
    and_right a b e = ground arith

is_name_char-lacks : (s : Text) → all is_name_char s ≡ true → lacks b',' s ≡ true
is_name_char-lacks [] h = refl
is_name_char-lacks (c ∷ s) h = ground (arith, is_name_char-lacks s)

valid_name-chars :
    (s : Text) → valid_name s ≡ true → (is_empty s ≡ false) × (all is_name_char s ≡ true)
unfolding valid_name
valid_name-chars s h = (ground arith, ground arith)

-- The parts of the joined text, in the order of the tags: each with a space before it but the first.
abbrev spaced : List Text → List Text
spaced [] = []
spaced (w ∷ ws) = (b' ' ∷ w) ∷ spaced ws

split_on-join :
    (w : Text) (ws : List Text)
    → all valid_name (w ∷ ws) ≡ true
    → split_on b',' (join_tags (w ∷ ws)) ≡ w ∷ spaced ws
unfolding join_tags split_on
split_on-join w [] h =
    split_on-lacks b',' w (is_name_char-lacks w (valid_name-chars w (ground arith)).1)
split_on-join w (v ∷ ws) h =
    split_on-append b',' w (b' ' ∷ join_tags (v ∷ ws))
      (is_name_char-lacks w (valid_name-chars w (ground arith)).1)
    ∙ ap (λ ps. w ∷ portato.Prelude.cons_head b' ' ps) (split_on-join v ws (ground arith))

map_trim-spaced : (ws : List Text) → all valid_name ws ≡ true → map trim_space (spaced ws) ≡ ws
map_trim-spaced [] h = refl
map_trim-spaced (w ∷ ws) h =
    ap₂ (λ v vs. v ∷ vs)
      (trim_space-spaceless w (is_name_char-spaceless w (valid_name-chars w (ground arith)).1)).1
      (map_trim-spaced ws (ground arith))

-- Parts that are distinct tags once they are trimmed are kept.
clean_tags-map :
    (seen ps : List Text)
    → all valid_name (map trim_space ps) ≡ true
    → distinct (map trim_space ps) ≡ true
    → all (λ s. not (seen_in s seen)) (map trim_space ps) ≡ true
    → clean_tags seen ps ≡ map trim_space ps
unfolding clean_tags
clean_tags-map seen [] v d n = refl
clean_tags-map seen (p ∷ ps) v d n =
    let filled : is_empty (trim_space p) ≡ false =
      (valid_name-chars (trim_space p) (ground arith)).0 in
    let new : seen_in (trim_space p) seen ≡ false = ground arith in
    rw (filled, new)
      (ap (λ ts. trim_space p ∷ ts)
        (clean_tags-map (trim_space p ∷ seen) ps (ground arith) (ground arith)
          (all-new (map trim_space ps) (ground arith) (ground arith))))
  where
    all-new :
        (ts : List Text)
        → seen_in (trim_space p) ts ≡ false
        → all (λ s. not (seen_in s seen)) ts ≡ true
        → all (λ s. not (seen_in s (trim_space p ∷ seen))) ts ≡ true
    all-new [] f a = refl
    all-new (t ∷ ts) f a =
        ground (arith, all-new ts, text_eq_iff (trim_space p) t, text_eq_iff t (trim_space p))

none_seen : (ts : List Text) → all (λ s. not (seen_in s [])) ts ≡ true
none_seen [] = refl
none_seen (t ∷ ts) = none_seen ts

-- Valid and distinct tags come back from the text of the form.
pub parse_editor_tags-join :
    (ws : List Text)
    → all valid_name ws ≡ true
    → distinct ws ≡ true
    → parse_editor_tags (join_tags ws) ≡ ws
unfolding parse_editor_tags
parse_editor_tags-join [] v d =
    unfold join_tags split_on clean_tags trim_space trim_left trim_right in refl
parse_editor_tags-join (w ∷ ws) v d =
    let trimmed : map trim_space (w ∷ spaced ws) ≡ w ∷ ws =
      ap₂ (λ v vs. v ∷ vs)
        (trim_space-spaceless w (is_name_char-spaceless w (valid_name-chars w (ground arith)).1)).0
        (map_trim-spaced ws (ground arith)) in
    ap (clean_tags []) (split_on-join w ws v)
    ∙ clean_tags-map [] (w ∷ spaced ws) (ap (all valid_name) trimmed ∙ v) (ap distinct trimmed ∙ d)
        (none_seen (map trim_space (w ∷ spaced ws)))
    ∙ trimmed
