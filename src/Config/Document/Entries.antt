-- ===== src/Config/Document/Entries.antt =====
-- The entries of a document's list of tubers, and what each edit of internal/config/patch.go does
-- to them and to the other keys of the document.
use portato.Prelude.{
  ◌≡◌, refl, ap, subst, ◌∙◌, Bool, true, false, Option, none, some, List, [], ◌∷◌, ◌++◌, set, Text,
  lit, text_eq, text_eq_iff, if◌then◌else◌, arith, Bool-cases, Option-cases, inl, inr,
}
use portato.Config.Names.{
  ConfigError, tubers_not_sequence, tubers_missing, Checked, valid, failed, then_check, valid-inj,
}
use portato.Config.Document.{
  Node, node, Kind, document, mapping, sequence, kind, kind_eq, value, content, with_content,
  list_of-nodes_of, pair_value, set_pair, mapping_value, document_root, root_of, with_root, Place,
  place_of, new_place, scalar_node, empty_sequence, tubers_sequence, add_tuber_node,
  replace_tuber_node, delete_tuber_node, move_tuber_node, Edit,
}
use portato.Config.Document.Edited.{Change, add, replace, delete, move}

-- The edit of the document that a change asks for, where the new tuber is printed already.
abbrev pub edit_node : Change Node → Node → Edit
edit_node (add n) doc = add_tuber_node (valid n) doc
edit_node (replace name n) doc = replace_tuber_node (valid n) name doc
edit_node (delete name) doc = delete_tuber_node name doc
edit_node (move name delta) doc = move_tuber_node name delta doc

-- What stands under a key of the document's root.
abbrev pub under : Text → Node → Checked (Option Node)
under key doc = then_check (document_root doc) (λ root. valid (mapping_value key root))

abbrev pub items : Option Node → Checked (List Node)
items none = valid []
items (some seq) =
    if kind_eq (kind seq) sequence then valid (content seq) else failed tubers_not_sequence

-- The entries of the list of tubers: none when the key is missing.
abbrev pub entries : Node → Checked (List Node)
entries doc = then_check (under (lit "tubers") doc) items

pub content-with_content : (ns : List Node) (n : Node) → content (with_content ns n) ≡ ns
content-with_content ns (node k tag v rest old) = list_of-nodes_of ns

pub kind-with_content : (ns : List Node) (n : Node) → kind (with_content ns n) ≡ kind n
kind-with_content ns (node k tag v rest old) = refl

-- The root that is written is the one that is read.
pub document_root-with_root :
    (doc old root : Node)
    → document_root doc ≡ valid old
    → kind_eq (kind root) mapping ≡ true
    → document_root (with_root doc root) ≡ valid root
unfolding document_root
document_root-with_root (node k tag v rest ns) old root found m =
    ap (root_of k) (list_of-nodes_of (set (content (node k tag v rest ns)) 0 root))
    ∙ written k (content (node k tag v rest ns)) found
  where
    written :
        (k : Kind) (l : List Node) → root_of k l ≡ valid old → root_of k (set l 0 root) ≡ valid root
    written document (n ∷ l) h = rw m refl
    written document [] h = absurd cc
    written sequence l h = absurd cc
    written mapping l h = absurd cc
    written Kind.scalar l h = absurd cc
    written Kind.alias l h = absurd cc

pub document_root-kind :
    (doc root : Node) → document_root doc ≡ valid root → kind_eq (kind root) mapping ≡ true
unfolding document_root
document_root-kind doc root h = of_root (kind doc) (content doc) h
  where
    of_root :
        (k : Kind) (l : List Node) → root_of k l ≡ valid root → kind_eq (kind root) mapping ≡ true
    of_root document (n ∷ l) h = ground arith
    of_root document [] h = absurd cc
    of_root sequence l h = absurd cc
    of_root mapping l h = absurd cc
    of_root Kind.scalar l h = absurd cc
    of_root Kind.alias l h = absurd cc

pair_value-set_pair :
    (key other : Text) (x old : Node) (l : List Node)
    → pair_value key l ≡ some old
    → pair_value other (set_pair key x l)
      ≡ (if text_eq key other then some x else pair_value other l)
unfolding pair_value set_pair
pair_value-set_pair key other x old [] h = absurd cc
pair_value-set_pair key other x old (k ∷ []) h = absurd cc
pair_value-set_pair key other x old (k ∷ v ∷ l) h = ground (
  arith,
  pair_value-set_pair key other x old l,
  text_eq_iff (value k) key,
  text_eq_iff (value k) other,
  text_eq_iff key other,
)

abbrev pub is_even : List Node → Bool
is_even [] = true
is_even (k ∷ []) = false
is_even (k ∷ v ∷ l) = is_even l

is_even-set_pair : (key : Text) (x : Node) (l : List Node) → is_even (set_pair key x l) ≡ is_even l
unfolding set_pair
is_even-set_pair key x [] = refl
is_even-set_pair key x (k ∷ []) = refl
is_even-set_pair key x (k ∷ v ∷ l) = ground (arith, is_even-set_pair key x l)

is_even-append : (a b : Node) (l : List Node) → is_even l ≡ true → is_even (l ++ a ∷ b ∷ []) ≡ true
is_even-append a b [] h = refl
is_even-append a b (k ∷ []) h = absurd cc
is_even-append a b (k ∷ v ∷ l) h = is_even-append a b l h

pair_value-append :
    (key : Text) (a b : Node) (l : List Node)
    → is_even l ≡ true
    → pair_value (value a) l ≡ none
    → pair_value key (l ++ a ∷ b ∷ [])
      ≡ (if text_eq (value a) key then some b else pair_value key l)
unfolding pair_value
pair_value-append key a b [] e h = ground arith
pair_value-append key a b (k ∷ []) e h = absurd cc
pair_value-append key a b (k ∷ v ∷ l) e h = ground (
  arith,
  pair_value-append key a b l,
  text_eq_iff (value k) key,
  text_eq_iff (value a) key,
  text_eq_iff (value k) (value a),
)

-- A written root differs from the old one in what stands under `tubers`.
abbrev pub IsWritten : Node → Place → List Node → Node → Type 0
IsWritten root place ns written =
    (kind written ≡ kind root)
    × (is_even (content written) ≡ true)
    × ((key : Text)
        → mapping_value key written ≡ (
            if text_eq (lit "tubers") key
            then some (with_content ns place.0)
            else mapping_value key root))

place_of-IsWritten :
    (root seq : Node) (ns : List Node)
    → is_even (content root) ≡ true
    → mapping_value (lit "tubers") root ≡ some seq
    → IsWritten root (place_of root seq) ns ((place_of root seq).1 ns)
unfolding mapping_value
place_of-IsWritten root seq ns e h = (
  kind-with_content changed root,
  ap is_even (content-with_content changed root)
      ∙ is_even-set_pair (lit "tubers") (with_content ns seq) (content root)
      ∙ e,
  λ key.
      ap (pair_value key) (content-with_content changed root)
      ∙ pair_value-set_pair (lit "tubers") key (with_content ns seq) seq (content root) h,
)
  where
    changed : List Node
    changed = set_pair (lit "tubers") (with_content ns seq) (content root)

new_place-IsWritten :
    (root : Node) (ns : List Node)
    → is_even (content root) ≡ true
    → mapping_value (lit "tubers") root ≡ none
    → IsWritten root (new_place root) ns ((new_place root).1 ns)
unfolding mapping_value
new_place-IsWritten root ns e h = (
  kind-with_content (content root ++ key_node ∷ new ∷ []) root,
  ap is_even (content-with_content (content root ++ key_node ∷ new ∷ []) root)
      ∙ is_even-append key_node new (content root) e,
  λ key.
      ap (pair_value key) (content-with_content (content root ++ key_node ∷ new ∷ []) root)
      ∙ pair_value-append key key_node new (content root) e h,
)
  where
    key_node : Node
    key_node = scalar_node (lit "!!str") (lit "tubers")

    new : Node
    new = with_content ns empty_sequence

-- The place that tubersSequence finds holds the entries, and a write there is read back.
abbrev pub IsPlace : Node → Place → Type 0
IsPlace root place =
    (items (mapping_value (lit "tubers") root) ≡ valid (content place.0))
    × (kind_eq (kind place.0) sequence ≡ true)
    × ((ns : List Node) → IsWritten root place ns (place.1 ns))

pub tubers_sequence-IsPlace :
    (create : Bool) (root : Node) (place : Place)
    → is_even (content root) ≡ true
    → tubers_sequence create root ≡ valid place
    → IsPlace root place
unfolding tubers_sequence
tubers_sequence-IsPlace create root place e h =
    elim (Option-cases (mapping_value (lit "tubers") root)) [
      | inl missing ↦ elim (Bool-cases create) [
        | inl c ↦
            subst (IsPlace root) (valid-inj (created missing c ∙ h))
              (ap items missing, refl, λ ns. new_place-IsWritten root ns e missing)
        | inr c ↦ absurd (refused missing c)
      ]
      | inr (seq, found) ↦ elim (Bool-cases (kind_eq (kind seq) sequence)) [
        | inl s ↦
            subst (IsPlace root) (valid-inj (placed seq found s ∙ h))
              (ap items found ∙ rw s refl, s, λ ns. place_of-IsWritten root seq ns e found)
        | inr s ↦ absurd (not_a_list seq found s)
      ]
    ]
  where
    created :
        mapping_value (lit "tubers") root ≡ none
        → create ≡ true
        → valid (new_place root) ≡ tubers_sequence create root
    created missing c = ground (arith, missing, c)

    placed :
        (seq : Node)
        → mapping_value (lit "tubers") root ≡ some seq
        → kind_eq (kind seq) sequence ≡ true
        → valid (place_of root seq) ≡ tubers_sequence create root
    placed seq found s = ground (arith, found, s)

    clash : (e : ConfigError) → tubers_sequence create root ≡ failed e → ⊥
    clash e p = cc

    refused : mapping_value (lit "tubers") root ≡ none → create ≡ false → ⊥
    refused missing c = clash tubers_missing (ground (arith, missing, c))

    not_a_list :
        (seq : Node)
        → mapping_value (lit "tubers") root ≡ some seq
        → kind_eq (kind seq) sequence ≡ false
        → ⊥
    not_a_list seq found s = clash tubers_not_sequence (ground (arith, found, s))
