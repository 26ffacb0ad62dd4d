-- ===== src/Config/Document.antt =====
-- internal/config/patch.go: the edits of the YAML document of a configuration file. A node has the
-- fields of the third-party yaml.Node that the code reads and writes; `rest` is what it carries
-- along (comments, style, positions). A pointer into the document that the code writes through is
-- the path to it: the root, a key of a mapping, an index.
pub mod Edited
pub mod Entries
pub mod Writes
pub mod Loaded
pub mod Refines
pub mod Reloads
pub mod Fixtures
pub mod Tests
use portato.Prelude.{
  ℕ, zero, suc, ◌≡◌, refl, ap, Bool, true, false, not, ◌||◌, Option, none, some, List, [], ◌∷◌,
  ◌++◌, length, get_elem?, set, Text, lit, text_eq, if◌then◌else◌,
}
use portato.Prelude.Int.{ℤ, pos, pos_part, ◌+ℤ◌, ltb_ℤ, leb_ℤ}
use portato.Config.Types.{Tuber}
use portato.Config.Names.{
  tuber_not_found, document_invalid, root_not_mapping, tubers_missing, tubers_not_sequence,
  defaults_not_mapping, Checked, valid, failed, then_check,
}
use portato.Config.Patch.{next_index, swap, remove_at}

pub data Kind : Type 0 where
  document sequence mapping scalar alias : Kind

abbrev pub kind_eq : Kind → Kind → Bool
kind_eq document document = true
kind_eq sequence sequence = true
kind_eq mapping mapping = true
kind_eq scalar scalar = true
kind_eq alias alias = true
kind_eq _ _ = false

mutual
  pub data Node : Type 0 where
    node : Kind → Text → Text → Text → Nodes → Node

  pub data Nodes : Type 0 where
    no_nodes : Nodes
    cons_node : Node → Nodes → Nodes

abbrev list_of : Nodes → List Node
list_of no_nodes = []
list_of (cons_node n ns) = n ∷ list_of ns

abbrev nodes_of : List Node → Nodes
nodes_of [] = no_nodes
nodes_of (n ∷ ns) = cons_node n (nodes_of ns)

pub list_of-nodes_of : (ns : List Node) → list_of (nodes_of ns) ≡ ns
list_of-nodes_of [] = refl
list_of-nodes_of (n ∷ ns) = ap (λ l. n ∷ l) (list_of-nodes_of ns)

-- Kind, Tag, Value and Content
abbrev pub kind : Node → Kind
kind (node k tag value rest ns) = k

abbrev pub tag : Node → Text
tag (node k t v rest ns) = t

abbrev pub value : Node → Text
value (node k tag v rest ns) = v

abbrev pub content : Node → List Node
content (node k tag v rest ns) = list_of ns

-- n.Content = ns
abbrev pub with_content : List Node → Node → Node
with_content ns (node k tag v rest old) = node k tag v rest (nodes_of ns)

-- n.Tag = tag; n.Value = v
abbrev with_scalar : Text → Text → Node → Node
with_scalar tag v (node k old_tag old rest ns) = node k tag v rest ns

-- &yaml.Node{Kind: yaml.ScalarNode, Tag: tag, Value: v}
abbrev pub scalar_node : Text → Text → Node
scalar_node tag v = node scalar tag v [] no_nodes

-- The keys and the values of a mapping alternate; a last key without a value is not read.
unfoldable pub pair_value : Text → List Node → Option Node
pair_value key [] = none
pair_value key (k ∷ []) = none
pair_value key (k ∷ v ∷ rest) =
    let later = pair_value key rest in if text_eq (value k) key then some v else later

unfoldable pub mapping_value : Text → Node → Option Node
unfolding pair_value
mapping_value key n = pair_value key (content n)

-- The content after a write through the pointer that mappingValue gave.
unfoldable pub set_pair : Text → Node → List Node → List Node
set_pair key x [] = []
set_pair key x (k ∷ []) = k ∷ []
set_pair key x (k ∷ v ∷ rest) =
    let later = set_pair key x rest in if text_eq (value k) key then k ∷ x ∷ rest else k ∷ v ∷ later

-- removeMappingEntry; `none` when the key is not there
unfoldable pub remove_pair : Text → List Node → Option (List Node)
remove_pair key [] = none
remove_pair key (k ∷ []) = none
remove_pair key (k ∷ v ∷ rest) =
    if text_eq (value k) key
    then some rest
    else elim (remove_pair key rest) [ none ↦ none | some later ↦ some (k ∷ v ∷ later) ]

abbrev scalar_value : Option Node → Text
scalar_value none = []
scalar_value (some n) = if kind_eq (kind n) scalar then value n else []

unfoldable pub tuber_name : Node → Text
unfolding mapping_value
tuber_name n = if kind_eq (kind n) mapping then scalar_value (mapping_value (lit "name") n) else []

-- findTuberIndex; `none` for a negative index
unfoldable pub find_tuber_index : Text → List Node → Option ℕ
unfolding tuber_name
find_tuber_index name [] = none
find_tuber_index name (n ∷ ns) =
    let later = find_tuber_index name ns in
    if text_eq (tuber_name n) name then some 0 else next_index later

abbrev root_of : Kind → List Node → Checked Node
root_of document (root ∷ rest) =
    if kind_eq (kind root) mapping then valid root else failed root_not_mapping
root_of _ _ = failed document_invalid

unfoldable pub document_root : Node → Checked Node
document_root doc = root_of (kind doc) (content doc)

-- The document after a write through the pointer to its root.
abbrev pub with_root : Node → Node → Node
with_root doc root = with_content (set (content doc) 0 root) doc

abbrev pub empty_sequence : Node
empty_sequence = node sequence (lit "!!seq") [] [] no_nodes

-- A sequence under a key of the root, and the root after seq.Content = ns for each ns.
abbrev pub Place : Type 0
Place = Node × (List Node → Node)

abbrev pub place_of : Node → Node → Place
place_of root seq =
    (seq, λ ns. with_content (set_pair (lit "tubers") (with_content ns seq) (content root)) root)

abbrev pub new_place : Node → Place
new_place root = (
  empty_sequence,
  λ ns.
      with_content
        (content root
          ++ scalar_node (lit "!!str") (lit "tubers") ∷ with_content ns empty_sequence ∷ [])
        root,
)

unfoldable pub tubers_sequence : Bool → Node → Checked Place
unfolding mapping_value set_pair
tubers_sequence create root = elim (mapping_value (lit "tubers") root) [
  | none ↦ if create then valid (new_place root) else failed tubers_missing
  | some seq ↦
      if kind_eq (kind seq) sequence then valid (place_of root seq) else failed tubers_not_sequence
]

-- What an edit does to the file: `none` leaves it unwritten, `some doc` is SaveNode of doc.
abbrev pub Edit : Type 0
Edit = Checked (Option Node)

-- `printed` is tuberNode of the new tuber, by the third-party yaml, or its error.
unfoldable pub add_tuber_node : Checked Node → Node → Edit
unfolding document_root tubers_sequence
add_tuber_node printed doc = then_check (document_root doc) (λ root.
    then_check (tubers_sequence true root) (λ place.
      then_check printed (λ n. valid (some (with_root doc (place.1 (content place.0 ++ n ∷ [])))))))

abbrev pub saved : Node → Place → Option (List Node) → Option Node
saved doc place none = none
saved doc place (some ns) = some (with_root doc (place.1 ns))

-- An edit of the entry at the index of a name; `none` for one that leaves the file.
abbrev pub at_index :
    Text → Node → Place → (ℕ → List Node → Checked (Option (List Node))) → Option ℕ → Edit
at_index name doc place f none = failed (tuber_not_found name)
at_index name doc place f (some i) =
    then_check (f i (content place.0)) (λ edited. valid (saved doc place edited))

abbrev pub edit_at : Text → Node → (ℕ → List Node → Checked (Option (List Node))) → Edit
edit_at name doc f = then_check (document_root doc) (λ root.
    then_check (tubers_sequence false root)
      (λ place. at_index name doc place f (find_tuber_index name (content place.0))))

unfoldable pub replace_tuber_node : Checked Node → Text → Node → Edit
unfolding document_root tubers_sequence find_tuber_index
replace_tuber_node printed name doc =
    edit_at name doc (λ i ns. then_check printed (λ n. valid (some (set ns i n))))

unfoldable pub delete_tuber_node : Text → Node → Edit
unfolding document_root tubers_sequence find_tuber_index remove_at
delete_tuber_node name doc = edit_at name doc (λ i ns. valid (some (remove_at i ns)))

unfoldable pub move_tuber_node : Text → ℤ → Node → Edit
unfolding document_root tubers_sequence find_tuber_index swap
move_tuber_node name delta doc = edit_at name doc (λ i ns.
    let target = pos i +ℤ delta in
    if ltb_ℤ target (pos 0) || leb_ℤ (pos (length ns)) target
    then valid none
    else valid (some (swap ns i (pos_part target))))

unfoldable pub bool_string : Bool → Text
bool_string true = lit "true"
bool_string false = lit "false"

abbrev with_defaults : Node → Node → Node → Node
with_defaults doc root defaults =
    with_root doc (with_content (set_pair (lit "defaults") defaults (content root)) root)

-- The value nil: the key goes.
unfoldable pub unset_default : Text → Node → Node → Option Node → Option Node
unfolding set_pair remove_pair
unset_default key doc root none = none
unset_default key doc root (some defaults) =
    if not (kind_eq (kind defaults) mapping)
    then none
    else elim (remove_pair key (content defaults)) [
      | none ↦ none
      | some ns ↦ some (with_defaults doc root (with_content ns defaults))
    ]

-- The mapping with the key set, in place or at its end.
unfoldable pub set_bool : Text → Bool → Node → Node
unfolding mapping_value set_pair
set_bool key b defaults = elim (mapping_value key defaults) [
  | some existing ↦
      with_content
        (set_pair key (with_scalar (lit "!!bool") (bool_string b) existing) (content defaults))
        defaults
  | none ↦
      with_content
        (content defaults
          ++ scalar_node (lit "!!str") key ∷ scalar_node (lit "!!bool") (bool_string b) ∷ [])
        defaults
]

abbrev empty_mapping : Node
empty_mapping = node mapping (lit "!!map") [] [] no_nodes

unfoldable pub set_default : Text → Bool → Node → Node → Option Node → Edit
unfolding set_pair set_bool
set_default key b doc root none = valid (
    some (
      with_root doc (
        with_content
          (content root
            ++ scalar_node (lit "!!str") (lit "defaults") ∷ set_bool key b empty_mapping ∷ [])
          root)))
set_default key b doc root (some defaults) =
    if not (kind_eq (kind defaults) mapping)
    then failed defaults_not_mapping
    else valid (some (with_defaults doc root (set_bool key b defaults)))

unfoldable pub set_defaults_bool_node : Text → Option Bool → Node → Edit
unfolding document_root mapping_value unset_default set_default
set_defaults_bool_node key none doc =
    then_check (document_root doc)
      (λ root. valid (unset_default key doc root (mapping_value (lit "defaults") root)))
set_defaults_bool_node key (some b) doc =
    then_check (document_root doc)
      (λ root. set_default key b doc root (mapping_value (lit "defaults") root))
