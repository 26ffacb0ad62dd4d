-- ===== src/Config/Document/Writes.antt =====
-- Each edit of the document of internal/config/patch.go is the edit of the list of its entries.
use portato.Prelude.{
  ℕ, ◌≡◌, ◌≢◌, refl, sym, ap, ◌∙◌, Bool, true, false, Option, none, some, List, [], ◌∷◌, ◌++◌, set,
  Text, lit, text_eq, text_eq_iff, if◌then◌else◌, arith, Bool-cases, Option-cases, inl, inr, ◌⊎◌,
  ◌||◌, length,
}
use portato.Prelude.Int.{pos, pos_part, ◌+ℤ◌, ltb_ℤ, leb_ℤ}
use portato.Config.Names.{
  tuber_not_found, tubers_missing, tubers_not_sequence, Checked, valid, failed, then_check,
  then_check-valid, valid-inj,
}
use portato.Config.Patch.{swap, remove_at}
use portato.Config.Document.{
  Node, mapping, sequence, kind, kind_eq, content, with_content, mapping_value, document_root,
  with_root, Place, place_of, new_place, add_tuber_node, replace_tuber_node, delete_tuber_node,
  move_tuber_node, tubers_sequence, edit_at, at_index, saved, find_tuber_index, tuber_name, Edit,
}
use portato.Config.Document.Edited.{
  Change, add, replace, delete, move, moved, at_found, edited, index_of,
}
use portato.Config.Document.Entries.{
  edit_node, under, items, entries, is_even, IsPlace, document_root-kind, document_root-with_root,
  tubers_sequence-IsPlace, content-with_content, kind-with_content,
}

abbrev even_at : Checked Node → Bool
even_at (failed e) = false
even_at (valid root) = is_even (content root)

-- The document has a root mapping, in which every key has a value, as yaml documents do.
abbrev pub has_pairs : Node → Bool
has_pairs doc = even_at (document_root doc)

-- The new document lists `ns`, and nothing else has changed under its root.
abbrev pub Writes : Node → List Node → Node → Type 0
Writes doc ns new =
    (has_pairs new ≡ true)
    × (entries new ≡ valid ns)
    × ((key : Text) → key ≢ lit "tubers" → under key new ≡ under key doc)

-- An edit of the file that does what the edit of the list of entries does. Where the key `tubers`
-- is missing, the error is that.
abbrev pub Meets : Node → Edit → Checked (Option (List Node)) → Type 0
Meets doc (failed e) (failed e') = (e ≡ e') ⊎ (e ≡ tubers_missing)
Meets doc (failed e) (valid o) = ⊥
Meets doc (valid o) (failed e) = ⊥
Meets doc (valid none) (valid none) = Unit {0}
Meets doc (valid none) (valid (some ns)) = ⊥
Meets doc (valid (some new)) (valid none) = ⊥
Meets doc (valid (some new)) (valid (some ns)) = Writes doc ns new

even-root :
    (doc root : Node)
    → document_root doc ≡ valid root
    → has_pairs doc ≡ true
    → is_even (content root) ≡ true
even-root doc root found even = ap even_at (sym found) ∙ even

place-Writes :
    (doc root : Node) (place : Place) (ns : List Node)
    → document_root doc ≡ valid root
    → IsPlace root place
    → Writes doc ns (with_root doc (place.1 ns))
unfolding text_eq
place-Writes doc root place ns found at =
    let (same_kind, even, keys) = at.2 ns in
    let read : document_root (with_root doc (place.1 ns)) ≡ valid (place.1 ns) =
      document_root-with_root doc root (place.1 ns) found
        (ap (λ k. kind_eq k mapping) same_kind ∙ document_root-kind doc root found) in
    (
      ap even_at read ∙ even,
      ap (λ r. then_check (then_check r (λ root. valid (mapping_value (lit "tubers") root))) items)
            read
          ∙ ap items (keys (lit "tubers"))
          ∙ list,
      λ key other.
          ap (λ r. then_check r (λ root. valid (mapping_value key root))) read
          ∙ ap valid (keys key ∙ untouched key other)
          ∙ sym (ap (λ r. then_check r (λ root. valid (mapping_value key root))) found),
    )
  where
    list : items (some (with_content ns place.0)) ≡ valid ns
    list =
        ap
          (λ k.
            if kind_eq k sequence
            then valid (content (with_content ns place.0))
            else failed tubers_not_sequence)
          (kind-with_content ns place.0)
        ∙ rw at.1 (ap valid (content-with_content ns place.0))

    untouched :
        (key : Text)
        → key ≢ lit "tubers"
        → (if text_eq (lit "tubers") key
            then some (with_content ns place.0)
            else mapping_value key root)
          ≡ mapping_value key root
    untouched key other = elim (Bool-cases (text_eq (lit "tubers") key)) [
      | inl same ↦ absurd (other (sym ((text_eq_iff (lit "tubers") key).0 same)))
      | inr apart ↦ rw apart refl
    ]

find_tuber_index-index_of :
    (name : Text) (ns : List Node) → find_tuber_index name ns ≡ index_of tuber_name name ns
unfolding find_tuber_index index_of
find_tuber_index-index_of name [] = refl
find_tuber_index-index_of name (n ∷ ns) = rw (find_tuber_index-index_of name ns) refl

-- What tubersSequence answers for a document that has a list of entries.
abbrev Sought : Bool → Node → List Node → Type 0
Sought create root ns =
    ((place : Place) × (tubers_sequence create root ≡ valid place))
    ⊎ ((create ≡ false) × (tubers_sequence create root ≡ failed tubers_missing) × (ns ≡ []))

sought :
    (create : Bool) (root : Node) (ns : List Node)
    → items (mapping_value (lit "tubers") root) ≡ valid ns
    → Sought create root ns
unfolding tubers_sequence
sought create root ns listed = elim (Option-cases (mapping_value (lit "tubers") root)) [
  | inl missing ↦ elim (Bool-cases create) [
    | inl c ↦ inl (new_place root, ground (arith, missing, c))
    | inr c ↦ inr (c, ground (arith, missing, c), sym (valid-inj (ap items (sym missing) ∙ listed)))
  ]
  | inr (seq, found) ↦ elim (Bool-cases (kind_eq (kind seq) sequence)) [
    | inl s ↦ inl (place_of root seq, ground (arith, found, s))
    | inr s ↦ absurd (refused seq s (ap items (sym found) ∙ listed))
  ]
]
  where
    refused : (seq : Node) → kind_eq (kind seq) sequence ≡ false → items (some seq) ≡ valid ns → ⊥
    refused seq s h = ground arith

has-entries :
    (doc : Node) (ns : List Node)
    → entries doc ≡ valid ns
    → (root : Node) × (document_root doc ≡ valid root)
      × (items (mapping_value (lit "tubers") root) ≡ valid ns)
has-entries doc ns listed =
    let (stood, here, read) = then_check-valid (under (lit "tubers") doc) items ns listed in
    let (root, found, same) =
      then_check-valid (document_root doc) (λ root. valid (mapping_value (lit "tubers") root)) stood
        here in
    (root, found, ap items (valid-inj same) ∙ read)

add-Meets :
    (doc : Node) (n : Node) (ns : List Node)
    → has_pairs doc ≡ true
    → entries doc ≡ valid ns
    → Meets doc (edit_node (add n) doc) (valid (some (ns ++ n ∷ [])))
unfolding add_tuber_node
add-Meets doc n ns even listed =
    let (root, found, read) = has-entries doc ns listed in
    elim (sought true root ns read) [
      | inr (c, missing, nothing) ↦ absurd (cc)
      | inl (place, placed) ↦
          let at = tubers_sequence-IsPlace true root place (even-root doc root found even) placed in
          rw (found, placed, valid-inj (sym at.0 ∙ read))
            (place-Writes doc root place (ns ++ n ∷ []) found at)
    ]

-- An edit at the index of a name.
edit_at-Meets :
    (name : Text) (doc : Node) (ns : List Node) (f : ℕ → List Node → Checked (Option (List Node)))
    (g : ℕ → List Node → Option (List Node))
    → ((i : ℕ) (l : List Node) → f i l ≡ valid (g i l))
    → has_pairs doc ≡ true
    → entries doc ≡ valid ns
    → Meets doc
        (edit_at name doc f)
        (at_found (tuber_not_found name) (λ i. g i ns) (index_of tuber_name name ns))
unfolding index_of
edit_at-Meets name doc ns f g same even listed =
    let (root, found, read) = has-entries doc ns listed in
    elim (sought false root ns read) [
      | inr (c, missing, nothing) ↦ rw (found, missing, nothing) (inr refl)
      | inl (place, placed) ↦
          let at =
            tubers_sequence-IsPlace false root place (even-root doc root found even) placed in
          rw (found, placed, valid-inj (sym at.0 ∙ read), find_tuber_index-index_of name ns)
            (at_entry root place found at (valid-inj (sym at.0 ∙ read))
              (index_of tuber_name name ns))
    ]
  where
    at_entry :
        (root : Node) (place : Place)
        → document_root doc ≡ valid root
        → IsPlace root place
        → content place.0 ≡ ns
        → (o : Option ℕ)
        → Meets doc (at_index name doc place f o) (at_found (tuber_not_found name) (λ i. g i ns) o)
    at_entry root place found at listed none = inl refl
    at_entry root place found at listed (some i) =
        rw (same i (content place.0), listed) (written (g i ns))
      where
        written : (o : Option (List Node)) → Meets doc (valid (saved doc place o)) (valid o)
        written none = tt
        written (some l) = place-Writes doc root place l found at

-- Each edit of the document is the edit of the list of its entries: the same entry is written,
-- and nothing else under the root changes; an error is the same one or, for a document without
-- the key `tubers`, that this key is missing. The document's list of tubers is readable.
pub edit_node-Meets :
    (c : Change Node) (doc : Node) (ns : List Node)
    → has_pairs doc ≡ true
    → entries doc ≡ valid ns
    → Meets doc (edit_node c doc) (edited tuber_name c ns)
edit_node-Meets (add n) doc ns even listed = add-Meets doc n ns even listed
edit_node-Meets (replace name n) doc ns even listed =
    unfold replace_tuber_node in
    edit_at-Meets name doc ns (λ i l. then_check (valid n) (λ n. valid (some (set l i n))))
      (λ i l. some (set l i n)) (λ i l. refl) even listed
edit_node-Meets (delete name) doc ns even listed =
    unfold delete_tuber_node in
    edit_at-Meets name doc ns (λ i l. valid (some (remove_at i l))) (λ i l. some (remove_at i l))
      (λ i l. refl) even listed
edit_node-Meets (move name delta) doc ns even listed =
    unfold move_tuber_node in
    edit_at-Meets name doc ns
      (λ i l.
        let target = pos i +ℤ delta in
        if ltb_ℤ target (pos 0) || leb_ℤ (pos (length l)) target
        then valid none
        else valid (some (swap l i (pos_part target))))
      (λ i l. moved delta l i)
      (λ i l.
        choose (ltb_ℤ (pos i +ℤ delta) (pos 0) || leb_ℤ (pos (length l)) (pos i +ℤ delta))
          (swap l i (pos_part (pos i +ℤ delta))))
      even listed
  where
    choose :
        (b : Bool) (l : List Node)
        → (if b then valid none else valid (some l)) ≡ valid (if b then none else some l)
    choose true l = refl
    choose false l = refl
