-- ===== src/Controller/Edits.antt =====
-- The edits that internal/controller/local.go makes: in memory, in the file, and the reload.
use portato.Prelude.{◌≡◌, refl, ap, ◌∙◌, true, Option, none, some, List, all}
use portato.Config.Types.{Config, Defaults, Tuber}
use portato.Config.Names.{valid}
use portato.Config.Prepare.Idempotent.{has_target}
use portato.Config.Document.{Node}
use portato.Config.Document.Edited.{Change, add, replace, delete, move, RelatedChanges}
use portato.Config.Document.Entries.{edit_node}
use portato.Config.Document.Loaded.{Yaml, ReadsAs, load}
use portato.Config.Document.Refines.{with_change}
use portato.Config.Document.Reloads.{Holds, or_file, load-edited}
use portato.Forward.Tuberer.{Tuberer}
use portato.Forward.Engine.Reload.{IsValid}
use portato.Secret.Store.{Backend}
use portato.Controller.State.{
  Core, World, loaded, load_file, apply_reload, edit_file, save_edit, patch_file,
}
use portato.Controller.Sound.{apply_reload-done}
use portato.Controller.Local.{Local, Done, on_core, patched, changed, mutate}

-- The tuber is printed as a node that reads back as it.
abbrev pub Prints : Yaml → Node → Tuber → Type 0
Prints y n t = (y.print_tuber t ≡ valid n) × ReadsAs y n t

Prints-ReadsAs :
    (y : Yaml) (p : Change Node) (c : Change Tuber)
    → RelatedChanges (Prints y) p c
    → RelatedChanges (ReadsAs y) p c
Prints-ReadsAs y (add n) (add t) h = h.1
Prints-ReadsAs y (replace name n) (replace name' t) h = (h.0, h.1.1)
Prints-ReadsAs y (delete name) (delete name') h = h
Prints-ReadsAs y (move name d) (move name' d') h = h
Prints-ReadsAs y (add n) (replace _ _) h = absurd h
Prints-ReadsAs y (add n) (delete _) h = absurd h
Prints-ReadsAs y (add n) (move _ _) h = absurd h
Prints-ReadsAs y (replace _ _) (add _) h = absurd h
Prints-ReadsAs y (replace _ _) (delete _) h = absurd h
Prints-ReadsAs y (replace _ _) (move _ _) h = absurd h
Prints-ReadsAs y (delete _) (add _) h = absurd h
Prints-ReadsAs y (delete _) (replace _ _) h = absurd h
Prints-ReadsAs y (delete _) (move _ _) h = absurd h
Prints-ReadsAs y (move _ _) (add _) h = absurd h
Prints-ReadsAs y (move _ _) (replace _ _) h = absurd h
Prints-ReadsAs y (move _ _) (delete _) h = absurd h

module _ (K : Tuberer) (B : Backend) where
  edit_file-edit_node :
      (w : World K B) (p : Change Node) (c : Change Tuber) (doc : Node)
      → RelatedChanges (Prints w.yaml) p c
      → edit_file K B w c doc ≡ edit_node p doc
  unfolding edit_file
  edit_file-edit_node w (add n) (add t) doc h = rw h.0 refl
  edit_file-edit_node w (replace name n) (replace name' t) doc h = rw (h.0, h.1.0) refl
  edit_file-edit_node w (delete name) (delete name') doc h = rw h refl
  edit_file-edit_node w (move name d) (move name' d') doc h = rw (h.0, h.1) refl
  edit_file-edit_node w (add n) (replace _ _) doc h = absurd h
  edit_file-edit_node w (add n) (delete _) doc h = absurd h
  edit_file-edit_node w (add n) (move _ _) doc h = absurd h
  edit_file-edit_node w (replace _ _) (add _) doc h = absurd h
  edit_file-edit_node w (replace _ _) (delete _) doc h = absurd h
  edit_file-edit_node w (replace _ _) (move _ _) doc h = absurd h
  edit_file-edit_node w (delete _) (add _) doc h = absurd h
  edit_file-edit_node w (delete _) (replace _ _) doc h = absurd h
  edit_file-edit_node w (delete _) (move _ _) doc h = absurd h
  edit_file-edit_node w (move _ _) (add _) doc h = absurd h
  edit_file-edit_node w (move _ _) (replace _ _) doc h = absurd h
  edit_file-edit_node w (move _ _) (delete _) doc h = absurd h

  save_edit-or_file :
      (w : World K B) (doc : Node) (o : Option Node)
      → w.write_error ≡ none
      → save_edit K B w doc o ≡ valid (or_file doc o)
  save_edit-or_file w doc none fine = refl
  save_edit-or_file w doc (some new) fine = rw fine refl

  pub patch_file-written :
      (w : World K B) (c : Change Tuber) (s : Core K B) (o : Option Node)
      → w.read_error ≡ none
      → w.write_error ≡ none
      → edit_file K B w c s.file ≡ valid o
      → patch_file K B w c s ≡ valid (record s { file = or_file s.file o })
  unfolding patch_file
  patch_file-written w c s o readable writable edit =
      rw (readable, edit, save_edit-or_file w s.file o writable) refl

  load_file-loaded :
      (w : World K B) (s : Core K B) (cfg : Config)
      → w.ssh_error ≡ none
      → w.read_error ≡ none
      → load w.yaml (valid w.env) s.file ≡ valid cfg
      → load_file K B w s ≡ valid cfg
  unfolding load_file
  load_file-loaded w s cfg ssh readable now = rw (ssh, readable) now

  mutate-steps :
      (w : World K B) (c : Change Tuber) (l : Local K B) (d : Config) (s : Core K B)
      → with_change (loaded K B w) c l.core.cfg ≡ valid d
      → patch_file K B w c l.core ≡ valid s
      → mutate K B w c l ≡ on_core K B l (apply_reload K B w s)
  unfolding mutate
  mutate-steps w c l d s checked written =
      ap (changed K B w c l) checked ∙ ap (patched K B w l) written

  -- An edit of the standalone program whose copy in memory passes prepare and Validate goes through:
  -- the call succeeds, the configuration in memory and the engine's are the validated copy, and the
  -- file loads as it too. The files and the ssh configuration can be read and written, the
  -- configuration in memory was loaded from the file, every tuber of the file has an ssh target, and
  -- the new tuber is printed as an entry that reads back as it.
  pub mutate-applies :
      (w : World K B) (l : Local K B) (def : Defaults) (ts : List Tuber) (d : Config)
      (p : Change Node) (c : Change Tuber)
      → w.ssh_error ≡ none
      → w.read_error ≡ none
      → w.write_error ≡ none
      → IsValid K l.core.engine
      → Holds w.yaml l.core.file def ts
      → all has_target ts ≡ true
      → load w.yaml (valid w.env) l.core.file ≡ valid l.core.cfg
      → RelatedChanges (Prints w.yaml) p c
      → with_change (valid w.env) c l.core.cfg ≡ valid d
      → ((mutate K B w c l).1 ≡ none)
        × ((mutate K B w c l).0.core.cfg ≡ d)
        × ((mutate K B w c l).0.core.engine.cfg ≡ d)
        × (load w.yaml (valid w.env) (mutate K B w c l).0.core.file ≡ valid d)
  mutate-applies w l def ts d p c ssh readable writable v held targets now printed done =
      let (o, edit, again) =
        load-edited w.yaml w.env l.core.file def ts l.core.cfg d p c held targets now
          (Prints-ReadsAs w.yaml p c printed) done in
      let s : Core K B = record l.core { file = or_file l.core.file o } in
      let written =
        patch_file-written w c l.core o readable writable
          (edit_file-edit_node w p c l.core.file printed ∙ edit) in
      let (e, ran, valid_again, same) =
        apply_reload-done K B w s d v (load_file-loaded w s d ssh readable again) in
      let all_done = mutate-steps w c l d s (checked ssh) written ∙ ap (on_core K B l) ran in
      (
        ap (λ (x : Done K B). x.1) all_done,
        ap (λ (x : Done K B). x.0.core.cfg) all_done,
        ap (λ (x : Done K B). x.0.core.engine.cfg) all_done ∙ same,
        ap (λ (x : Done K B). load w.yaml (valid w.env) x.0.core.file) all_done ∙ again,
      )
    where
      checked : w.ssh_error ≡ none → with_change (loaded K B w) c l.core.cfg ≡ valid d
      checked ssh = rw ssh done
