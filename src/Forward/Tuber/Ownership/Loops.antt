-- ===== src/Forward/Tuber/Ownership/Loops.antt =====
-- The loops of a tuber and their jobs: who is live, and what a Stop or a cancel makes of it.
use portato.Prelude.{
  ℕ, suc, ◌<◌, ◌≤◌, ◌≡◌, refl, Bool, true, false, ◌&&◌, ◌||◌, not, Option, none, some, List, [],
  ◌∷◌, ◌==◌, arith,
}
use portato.Forward.Tuber.Loop.{Loop, Pc, exited}
use portato.Forward.Tuber.System.{System, with_job, mem, remove, cancel_all, cancel_every}
use portato.Forward.Tuber.Invariant.{IsConsistent}

-- The loops, newest first: their jobs fall along the list, and a loop has only exited after its
-- context was cancelled.
abbrev pub is_exited : Pc → Bool
is_exited exited = true
is_exited _ = false

abbrev pub Below : ℕ → List Loop → Type 0
Below n [] = Unit {0}
Below n (l ∷ ls) = (l.id < n) × Below l.id ls

abbrev pub AllBelow : ℕ → List ℕ → Type 0
AllBelow n [] = Unit {0}
AllBelow n (j ∷ js) = (j < n) × AllBelow n js

-- A loop that works for the tuber: not cancelled, and no Stop is about to cancel it.
abbrev pub is_live : List ℕ → Loop → Bool
is_live stopping l = not l.cancelled && not (mem l.id stopping)

abbrev pub is_job : Option ℕ → ℕ → Bool
is_job none id = false
is_job (some j) id = j == id

-- The live loops are those that the tuber holds the job of.
abbrev pub Held : Option ℕ → List ℕ → List Loop → Type 0
Held job stopping [] = Unit {0}
Held job stopping (l ∷ ls) =
    (is_live stopping l ≡ is_job job l.id)
    × (is_exited l.pc ≡ true → l.cancelled ≡ true)
    × Held job stopping ls

abbrev pub has_loop : Option ℕ → List Loop → Bool
has_loop none ls = true
has_loop (some j) [] = false
has_loop (some j) (l ∷ ls) = (j == l.id) || has_loop (some j) ls

-- The job whose loop works: none after the base context was cancelled.
abbrev pub held_job : Bool → Option ℕ → Option ℕ
held_job true job = none
held_job false job = job

pub record Inv (s : System) : Type 0 where
  pub consistent : IsConsistent s.tuber
  pub falling : Below s.next_job s.loops
  pub taken : AllBelow s.next_job s.stopping
  pub held : Held (held_job s.base_cancelled s.tuber.job) s.stopping s.loops
  pub present : has_loop s.tuber.job s.loops ≡ true

pub mem-AllBelow : (n : ℕ) (js : List ℕ) → AllBelow n js → mem n js ≡ false
mem-AllBelow n [] h = refl
mem-AllBelow n (j ∷ js) h = ground (arith, mem-AllBelow n js h.1)

pub AllBelow-suc : (n : ℕ) (js : List ℕ) → AllBelow n js → AllBelow (suc n) js
AllBelow-suc n [] h = tt
AllBelow-suc n (j ∷ js) h = (omega arith, AllBelow-suc n js h.1)

pub AllBelow-remove : (n id : ℕ) (js : List ℕ) → AllBelow n js → AllBelow n (remove id js)
AllBelow-remove n id [] h = tt
AllBelow-remove n id (j ∷ js) h = ground (arith, AllBelow-remove n id js)

mem-remove : (id i : ℕ) (js : List ℕ) → mem i (remove id js) ≡ (not (i == id) && mem i js)
mem-remove id i [] = ground arith
mem-remove id i (j ∷ js) = ground (arith, mem-remove id i js)

-- No job is taken yet at or above the bound of the loops.
pub Held-spawn :
    (n next : ℕ) (stopping : List ℕ) (ls : List Loop)
    → Below n ls
    → n ≤ next
    → Held none stopping ls
    → Held (some next) stopping ls
Held-spawn n next stopping [] b h v = tt
Held-spawn n next stopping (l ∷ ls) b h v =
    (ground arith, v.1, Held-spawn l.id next stopping ls b.1 (omega arith) v.2)

pub Held-stop :
    (job : Option ℕ) (stopping : List ℕ) (ls : List Loop)
    → Held job stopping ls
    → Held none (with_job job stopping) ls
Held-stop job stopping [] v = tt
Held-stop none stopping (l ∷ ls) v = v
Held-stop (some j) stopping (l ∷ ls) v = (ground arith, v.1, Held-stop (some j) stopping ls v.2)

pub Held-more :
    (job : Option ℕ) (stopping : List ℕ) (ls : List Loop)
    → Held none stopping ls
    → Held none (with_job job stopping) ls
Held-more job stopping [] v = tt
Held-more none stopping (l ∷ ls) v = v
Held-more (some j) stopping (l ∷ ls) v = (ground arith, v.1, Held-more (some j) stopping ls v.2)

pub Held-every : (stopping : List ℕ) (ls : List Loop) → Held none stopping (cancel_every ls)
unfolding cancel_every
Held-every stopping [] = tt
Held-every stopping (l ∷ ls) = (refl, λ x. refl, Held-every stopping ls)

pub has_loop-every :
    (job : Option ℕ) (ls : List Loop) → has_loop job (cancel_every ls) ≡ has_loop job ls
unfolding cancel_every
has_loop-every none ls = refl
has_loop-every (some j) [] = refl
has_loop-every (some j) (l ∷ ls) = ground (arith, has_loop-every (some j) ls)

pub Below-every : (n : ℕ) (ls : List Loop) → Below n ls → Below n (cancel_every ls)
unfolding cancel_every
Below-every n [] b = tt
Below-every n (l ∷ ls) b = (b.0, Below-every l.id ls b.1)

pub Held-cancel :
    (job : Option ℕ) (stopping : List ℕ) (id : ℕ) (ls : List Loop)
    → mem id stopping ≡ true
    → Held job stopping ls
    → Held job (remove id stopping) (cancel_all id ls)
unfolding cancel_all
Held-cancel job stopping id [] m v = tt
Held-cancel job stopping id (l ∷ ls) m v = (
  ground (arith, mem-remove id l.id stopping, v.0),
  ground arith,
  Held-cancel job stopping id ls m v.2,
)

pub has_loop-cancel :
    (job : Option ℕ) (id : ℕ) (ls : List Loop) → has_loop job (cancel_all id ls) ≡ has_loop job ls
unfolding cancel_all
has_loop-cancel none id ls = refl
has_loop-cancel (some j) id [] = refl
has_loop-cancel (some j) id (l ∷ ls) = ground (arith, has_loop-cancel (some j) id ls)

pub Below-cancel : (n id : ℕ) (ls : List Loop) → Below n ls → Below n (cancel_all id ls)
unfolding cancel_all
Below-cancel n id [] b = tt
Below-cancel n id (l ∷ ls) b = ground (arith, Below-cancel l.id id ls)
