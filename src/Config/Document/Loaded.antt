-- ===== src/Config/Document/Loaded.antt =====
-- internal/config/config.go: Load, from the document that the file holds. What the third-party yaml
-- makes of one node is a field of `Yaml`. Aliases are not resolved.
use portato.Prelude.{
  ◌≡◌, refl, Bool, true, false, Bool-cases, inl, inr, ◌&&◌, Text, Option, none, some, List, [], ◌∷◌,
  lit, text_eq, if◌then◌else◌, arith,
}
use portato.Config.Types.{Config, Defaults, Tuber}
use portato.Config.Names.{tubers_not_sequence, Checked, valid, failed, then_check, then_check-valid}
use portato.Config.Prepare.{Env}
use portato.Config.Patch.{prepare_and_validate}
use portato.Config.Document.{
  Node, Kind, kind, kind_eq, document, sequence, mapping, scalar, alias, tag, content, tuber_name,
  document_root, root_of, mapping_value,
}
use portato.Config.Document.Edited.{All2}
use portato.Config.Document.Entries.{under, items, entries}

-- Unmarshal of an entry (with Tuber.UnmarshalYAML) and of what stands under `defaults`; Marshal of a
-- tuber, parsed again to a node.
pub record Yaml : Type 0 where
  pub read_tuber : Node → Checked Tuber
  pub read_defaults : Option Node → Checked Defaults
  pub print_tuber : Tuber → Checked Node

unfoldable pub read_tubers : Yaml → List Node → Checked (List Tuber)
read_tubers y [] = valid []
read_tubers y (n ∷ ns) =
    then_check (y.read_tuber n) (λ t. then_check (read_tubers y ns) (λ ts. valid (t ∷ ts)))

-- Unmarshal reads a null as no entries, which the edits refuse.
abbrev listed : Option Node → Checked (List Node)
listed none = valid []
listed (some n) =
    if kind_eq (kind n) sequence
    then valid (content n)
    else if text_eq (tag n) (lit "!!null")
    then valid []
    else failed tubers_not_sequence

-- An empty file has no root, and a file of comments or `null` has a null: Unmarshal then sets nothing.
abbrev is_blank : List Node → Bool
is_blank [] = true
is_blank (root ∷ rest) = kind_eq (kind root) scalar && text_eq (tag root) (lit "!!null")

abbrev field : Text → Node → Checked (Option Node)
field key doc = if is_blank (content doc) then valid none else under key doc

abbrev pub config_with : Defaults → List Tuber → Config
config_with d ts = record { defaults = d; tubers = ts }

unfoldable pub load : Yaml → Checked Env → Node → Checked Config
unfolding read_tubers prepare_and_validate
load y loaded doc = then_check (then_check (field (lit "defaults") doc) y.read_defaults) (λ d.
    then_check (then_check (field (lit "tubers") doc) listed)
      (λ ns. then_check (read_tubers y ns) (λ ts. prepare_and_validate loaded (config_with d ts))))

-- An entry reads as a tuber whose name is the one that the edits look for.
abbrev pub ReadsAs : Yaml → Node → Tuber → Type 0
ReadsAs y n t = (y.read_tuber n ≡ valid t) × (tuber_name n ≡ t.name)

read_tubers-All2 :
    (y : Yaml) (ns : List Node) (ts : List Tuber)
    → All2 (ReadsAs y) ns ts
    → read_tubers y ns ≡ valid ts
unfolding read_tubers
read_tubers-All2 y [] [] h = refl
read_tubers-All2 y [] (t ∷ ts) h = absurd h
read_tubers-All2 y (n ∷ ns) [] h = absurd h
read_tubers-All2 y (n ∷ ns) (t ∷ ts) h = rw (h.0.0, read_tubers-All2 y ns ts h.1) refl

listed-items : (o : Option Node) (ns : List Node) → items o ≡ valid ns → listed o ≡ valid ns
listed-items none ns h = h
listed-items (some n) ns h = ground arith

listed-entries :
    (doc : Node) (ns : List Node)
    → entries doc ≡ valid ns
    → then_check (under (lit "tubers") doc) listed ≡ valid ns
listed-entries doc ns h = of_checked (under (lit "tubers") doc) h
  where
    of_checked :
        (c : Checked (Option Node)) → then_check c items ≡ valid ns → then_check c listed ≡ valid ns
    of_checked (valid o) h = listed-items o ns h
    of_checked (failed e) h = absurd cc

mapping-not_scalar : (k : Kind) → kind_eq k mapping ≡ true → kind_eq k scalar ≡ false
mapping-not_scalar document h = refl
mapping-not_scalar sequence h = refl
mapping-not_scalar mapping h = refl
mapping-not_scalar scalar h = absurd cc
mapping-not_scalar alias h = refl

-- A document with a root that the edits take is not blank.
root_of-is_blank :
    (k : Kind) (l : List Node) (root : Node) → root_of k l ≡ valid root → is_blank l ≡ false
root_of-is_blank document [] root h = absurd cc
root_of-is_blank document (n ∷ rest) root h = elim (Bool-cases (kind_eq (kind n) mapping)) [
  | inl is ↦ rw (mapping-not_scalar (kind n) is) refl
  | inr other ↦ absurd (ground arith)
]
root_of-is_blank sequence l root h = absurd cc
root_of-is_blank mapping l root h = absurd cc
root_of-is_blank scalar l root h = absurd cc
root_of-is_blank alias l root h = absurd cc

field-under :
    (key : Text) (doc : Node) (ns : List Node)
    → entries doc ≡ valid ns
    → field key doc ≡ under key doc
unfolding document_root
field-under key doc ns listing =
    let (o, here, read) = then_check-valid (under (lit "tubers") doc) items ns listing in
    let (root, found, got) =
      then_check-valid (document_root doc) (λ r. valid (mapping_value (lit "tubers") r)) o here in
    rw (root_of-is_blank (kind doc) (content doc) root found) refl

-- What a document loads as, once its parts have been read.
pub load-read :
    (y : Yaml) (loaded : Checked Env) (doc : Node) (ns : List Node) (ts : List Tuber) (d : Defaults)
    → then_check (under (lit "defaults") doc) y.read_defaults ≡ valid d
    → entries doc ≡ valid ns
    → All2 (ReadsAs y) ns ts
    → load y loaded doc ≡ prepare_and_validate loaded (config_with d ts)
unfolding load
load-read y loaded doc ns ts d def listing reads =
    rw
      (
        field-under (lit "defaults") doc ns listing,
        field-under (lit "tubers") doc ns listing,
        def,
        listed-entries doc ns listing,
        read_tubers-All2 y ns ts reads,
      )
      refl
