-- ===== src/Config/Document/Reloads.antt =====
-- The edits of the file by internal/config/patch.go against the list of tubers that it holds, and
-- what Load of internal/config/config.go makes of the edited file.
use portato.Prelude.{
  ◌≡◌, refl, sym, ap, ◌∙◌, true, ◌⊎◌, inl, inr, Option, none, some, List, all, lit, subst,
}
use portato.Config.Types.{Config, Defaults, Tuber}
use portato.Config.Names.{tubers_missing, Checked, valid, failed, then_check}
use portato.Config.Prepare.{Env}
use portato.Config.Prepare.Idempotent.{has_target}
use portato.Config.Patch.{prepare_and_validate}
use portato.Config.Patch.Edits.{checks-valid, prepare-tubers}
use portato.Config.Document.{Node, Edit, tuber_name}
use portato.Config.Document.Edited.{
  Change, add, replace, delete, move, edited, All2, RelatedResults, RelatedChanges, edited-All2,
}
use portato.Config.Document.Entries.{under, entries, edit_node}
use portato.Config.Document.Writes.{has_pairs, Meets, edit_node-Meets}
use portato.Config.Document.Loaded.{Yaml, ReadsAs, load, config_with, load-read}
use portato.Config.Document.Refines.{
  name_of, with_change, with_change-edited, check_copy, SamePrepared, prepared-All2,
  prepare_and_validate-All2,
}

-- The document holds the defaults and the tubers, as they are written there.
abbrev pub Holds : Yaml → Node → Defaults → List Tuber → Type 0
Holds y doc d ts =
    (has_pairs doc ≡ true)
    × (then_check (under (lit "defaults") doc) y.read_defaults ≡ valid d)
    × ((ns : List Node) × (entries doc ≡ valid ns) × All2 (ReadsAs y) ns ts)

-- An edit of the file against an edit of the list that it holds.
abbrev pub RefinesEdit : Yaml → Defaults → Edit → Checked (Option (List Tuber)) → Type 0
RefinesEdit y d (failed e) (failed e') = (e ≡ e') ⊎ (e ≡ tubers_missing)
RefinesEdit y d (failed e) (valid o) = ⊥
RefinesEdit y d (valid o) (failed e) = ⊥
RefinesEdit y d (valid none) (valid none) = Unit {0}
RefinesEdit y d (valid none) (valid (some ts)) = ⊥
RefinesEdit y d (valid (some new)) (valid none) = ⊥
RefinesEdit y d (valid (some new)) (valid (some ts)) = Holds y new d ts

agreeing_edit :
    (y : Yaml) (d : Defaults) (doc : Node) (e : Edit) (m : Checked (Option (List Node)))
    (s : Checked (Option (List Tuber)))
    → then_check (under (lit "defaults") doc) y.read_defaults ≡ valid d
    → Meets doc e m
    → RelatedResults (ReadsAs y) m s
    → RefinesEdit y d e s
agreeing_edit y d doc (failed e) (failed m) (failed s) def h r = elim h [
  | inl same ↦ inl (same ∙ r)
  | inr missing ↦ inr missing
]
agreeing_edit y d doc (valid none) (valid none) (valid none) def h r = tt
agreeing_edit y d doc (valid (some new)) (valid (some ns)) (valid (some ts)) def h r =
    let (even, listing, others) = h in
    (
      even,
      ap (λ c. then_check c y.read_defaults) (others (lit "defaults") (λ e. absurd (cc))) ∙ def,
      (ns, listing, r),
    )
agreeing_edit y d doc (failed e) (failed m) (valid o) def h r = absurd r
agreeing_edit y d doc (failed e) (valid m) s def h r = absurd h
agreeing_edit y d doc (valid o) (failed m) s def h r = absurd h
agreeing_edit y d doc (valid none) (valid none) (failed s) def h r = absurd r
agreeing_edit y d doc (valid none) (valid none) (valid (some ts)) def h r = absurd r
agreeing_edit y d doc (valid none) (valid (some ns)) s def h r = absurd h
agreeing_edit y d doc (valid (some new)) (valid none) s def h r = absurd h
agreeing_edit y d doc (valid (some new)) (valid (some ns)) (failed s) def h r = absurd r
agreeing_edit y d doc (valid (some new)) (valid (some ns)) (valid none) def h r = absurd r

-- An edit of the file refines the edit of the list of tubers that the file holds, for a new tuber
-- that is printed as an entry which reads back as it: both fail, with the same error or for the
-- missing key `tubers`, both leave everything as it is, or the new file holds the new list and the
-- old defaults.
pub edit_node-RefinesEdit :
    (y : Yaml) (d : Defaults) (doc : Node) (ts : List Tuber) (printed : Change Node)
    (c : Change Tuber)
    → Holds y doc d ts
    → RelatedChanges (ReadsAs y) printed c
    → RefinesEdit y d (edit_node printed doc) (edited name_of c ts)
edit_node-RefinesEdit y d doc ts printed c held same =
    let (even, def, (ns, listing, reads)) = held in
    agreeing_edit y d doc (edit_node printed doc) (edited tuber_name printed ns)
      (edited name_of c ts) def (edit_node-Meets printed doc ns even listing)
      (edited-All2 (ReadsAs y) tuber_name name_of (λ n t r. r.1) printed c ns ts same reads)

pub load-Holds :
    (y : Yaml) (loaded : Checked Env) (doc : Node) (d : Defaults) (ts : List Tuber)
    → Holds y doc d ts
    → load y loaded doc ≡ prepare_and_validate loaded (config_with d ts)
load-Holds y loaded doc d ts held =
    let (even, def, (ns, listing, reads)) = held in load-read y loaded doc ns ts d def listing reads

abbrev pub or_file : Node → Option Node → Node
or_file doc none = doc
or_file doc (some new) = new

abbrev Reloads : Yaml → Env → Node → Edit → Config → Type 0
Reloads y env doc e d =
    (o : Option Node) × (e ≡ valid o) × (load y (valid env) (or_file doc o) ≡ valid d)

copy_related :
    (y : Yaml) (env : Env) (def : Defaults) (doc : Node) (cfg d : Config) (e : Edit)
    (s r : Checked (Option (List Tuber)))
    → load y (valid env) doc ≡ valid cfg
    → cfg.defaults ≡ def
    → RefinesEdit y def e s
    → RelatedResults (SamePrepared env) s r
    → then_check r (check_copy (valid env) cfg) ≡ valid d
    → Reloads y env doc e d
copy_related y env def doc cfg d (valid none) (valid none) (valid none) now same h k done =
    (none, refl, now ∙ done)
copy_related y env def doc cfg d (valid (some new)) (valid (some us)) (valid (some vs)) now same h k
      done =
    (
      some new,
      refl,
      load-Holds y (valid env) new def us h
          ∙ prepare_and_validate-All2 env def us vs k
          ∙ ap (λ x. prepare_and_validate (valid env) (config_with x vs)) (sym same)
          ∙ done,
    )
copy_related y env def doc cfg d e s (failed x) now same h k done = absurd cc
copy_related y env def doc cfg d e (failed x) (valid r) now same h k done = absurd k
copy_related y env def doc cfg d (failed e) (valid s) (valid r) now same h k done = absurd h
copy_related y env def doc cfg d e (valid none) (valid (some r)) now same h k done = absurd k
copy_related y env def doc cfg d e (valid (some s)) (valid none) now same h k done = absurd k
copy_related y env def doc cfg d (valid none) (valid (some s)) (valid (some r)) now same h k done =
    absurd h
copy_related y env def doc cfg d (valid (some new)) (valid none) (valid none) now same h k done =
    absurd h

same_change : (env : Env) (c : Change Tuber) → RelatedChanges (SamePrepared env) c c
same_change env (add t) = (refl, refl)
same_change env (replace name t) = (refl, (refl, refl))
same_change env (delete name) = refl
same_change env (move name delta) = (refl, refl)

-- Once the edited copy in memory has passed prepare and Validate, the edit of the file succeeds, and
-- loading the file again gives exactly that copy: for a configuration loaded from the file, in which
-- every tuber has an ssh target, with the same ssh configuration, and for a new tuber that is
-- printed as an entry which reads back as it.
pub load-edited :
    (y : Yaml) (env : Env) (doc : Node) (def : Defaults) (ts : List Tuber) (cfg d : Config)
    (printed : Change Node) (c : Change Tuber)
    → Holds y doc def ts
    → all has_target ts ≡ true
    → load y (valid env) doc ≡ valid cfg
    → RelatedChanges (ReadsAs y) printed c
    → with_change (valid env) c cfg ≡ valid d
    → (o : Option Node) × (edit_node printed doc ≡ valid o)
      × (load y (valid env) (or_file doc o) ≡ valid d)
load-edited y env doc def ts cfg d printed c held targets now same done =
    let (prepared, ok) =
      checks-valid env (config_with def ts) cfg
        (sym (load-Holds y (valid env) doc def ts held) ∙ now) in
    let (us, each, made) = prepare-tubers env (config_with def ts) cfg prepared in
    copy_related y env def doc cfg d (edit_node printed doc) (edited name_of c ts)
      (edited name_of c cfg.tubers) now (ap (λ (x : Config). x.defaults) (sym made))
      (edit_node-RefinesEdit y def doc ts printed c held same)
      (edited-All2 (SamePrepared env) name_of name_of (λ t u r. r.1) c c ts cfg.tubers
        (same_change env c)
        (subst (λ (x : Config). All2 (SamePrepared env) ts x.tubers) made
          (prepared-All2 env ts us targets each)))
      (sym (with_change-edited (valid env) c cfg) ∙ done)
