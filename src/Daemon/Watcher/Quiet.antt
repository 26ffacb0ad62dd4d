-- ===== src/Daemon/Watcher/Quiet.antt =====
-- When the watcher of internal/daemon/watcher.go calls reload.
use portato.Prelude.{
  ℕ, ◌+◌, ◌≡◌, ◌≢◌, ◌≤◌, refl, sym, ap₂, ◌∙◌, ◌⊎◌, inl, inr, true, false, not, ◌&&◌, Option, none,
  some, List, [], ◌∷◌, ltb, ==_iff, arith, Bool-cases, subst,
}
use portato.Daemon.Watcher.{
  Stat, Poll, Watch, tried_reload, same_stat, changed, on_stat, tick, after,
}

-- The file was as `c` says at every poll at which it existed, from the latest back to one at time `t`,
-- at which it existed.
abbrev pub IsQuiet : Stat → ℕ → List Poll → Type 0
IsQuiet c t [] = ⊥
IsQuiet c t (p ∷ h) =
    ((p.stat ≡ some c) × (p.now ≡ t)) ⊎ (((p.stat ≡ none) ⊎ (p.stat ≡ some c)) × IsQuiet c t h)

pub same_stat-some : (a : Stat) (o : Option Stat) → same_stat (some a) o ≡ true → o ≡ some a
unfolding same_stat
same_stat-some a none h = absurd cc
same_stat-some a (some b) h =
    let size : b.size ≡ a.size = ground (arith, ==_iff a.size b.size) in
    let time : b.mod_time ≡ a.mod_time = ground (arith, ==_iff a.mod_time b.mod_time) in
    ap₂ (λ x y. some (record { size = x; mod_time = y })) size time

same_stat_self : (a : Stat) (o : Option Stat) → same_stat (some a) o ≡ false → o ≢ some a
unfolding same_stat
same_stat_self a o h e = absurd (ground (arith, subst (λ q. same_stat (some a) q ≡ false) e h))

-- A pending change was last seen at a poll `settle` before the deadline.
abbrev pub IsPending : ℕ → List Poll → Watch → Type 0
IsPending settle h w =
    (c : Stat) × (t : ℕ) × (w.last ≡ some c) × (w.deadline ≡ t + settle) × IsQuiet c t h

abbrev pub IsTimed : ℕ → List Poll → Watch → Type 0
IsTimed settle h w = w.armed ≡ true → IsPending settle h w

changed-IsTimed :
    (settle : ℕ) (h : List Poll) (w : Watch) (cur : Stat) (p : Poll)
    → p.stat ≡ some cur
    → IsTimed settle h w
    → IsTimed settle (p ∷ h) (changed settle w (some cur) p.now).1
unfolding changed
changed-IsTimed settle h w cur p is timed = elim (Bool-cases w.armed) [
  | inr off ↦ rw off (λ up. (cur, p.now, refl, refl, inl (is, refl)))
  | inl on ↦ elim (Bool-cases (same_stat (some cur) w.last)) [
    | inr churning ↦ rw (on, churning) (λ up. (cur, p.now, refl, refl, inl (is, refl)))
    | inl same ↦ elim (Bool-cases (ltb p.now w.deadline)) [
      | inr passed ↦ rw (on, same, passed) (λ up. absurd cc)
      | inl waiting ↦ rw (on, same, waiting) (λ up. kept same (timed on))
    ]
  ]
]
  where
    kept :
        same_stat (some cur) w.last ≡ true
        → IsPending settle h w
        → (c : Stat) × (t : ℕ) × (Option.some cur ≡ some c)
          × (w.deadline ≡ t + settle)
          × IsQuiet c t (p ∷ h)
    kept same (c, t, was, due, quiet) =
        let looks = sym (same_stat-some cur w.last same) ∙ was in
        (c, t, looks, due, inr (inr (is ∙ looks), quiet))

on_stat-IsTimed :
    (settle : ℕ) (h : List Poll) (w : Watch) (p : Poll) (o : Option Stat)
    → p.stat ≡ o
    → IsTimed settle h w
    → IsTimed settle (p ∷ h) (on_stat settle w p.now o).1
unfolding on_stat
on_stat-IsTimed settle h w p none is timed = elim (Bool-cases (w.stable_ok && not w.vanished)) [
  | inl warn ↦ rw warn (λ up. missed (timed up))
  | inr quiet ↦ rw quiet (λ up. missed (timed up))
]
  where
    missed : IsPending settle h w → IsPending settle (p ∷ h) w
    missed (c, t, was, due, quiet) = (c, t, was, due, inr (inl is, quiet))
on_stat-IsTimed settle h w p (some cur) is timed =
    elim (Bool-cases (same_stat (some cur) w.stable)) [
      | inl same ↦ rw same (λ up. absurd cc)
      | inr differs ↦ rw differs (changed-IsTimed settle h w cur p is timed)
    ]

pub after-IsTimed :
    (settle : ℕ) (stable : Option Stat) (h : List Poll) → IsTimed settle h (after settle stable h)
unfolding after
after-IsTimed settle stable [] = λ up. absurd cc
after-IsTimed settle stable (p ∷ h) =
    on_stat-IsTimed settle h (after settle stable h) p p.stat refl (after-IsTimed settle stable h)

-- The file is as `c` says, which is not that of the last call of reload, and has been so for `settle`.
abbrev pub IsSettled : ℕ → List Poll → Option Stat → Poll → Stat → Type 0
IsSettled settle h stable p c =
    (p.stat ≡ some c) × (stable ≢ some c) × ((t : ℕ) × (t + settle ≤ p.now) × IsQuiet c t h)

-- A call of reload is for a file that exists, differs from that of the last call, and has passed its
-- deadline.
on_stat-tried_reload :
    (settle : ℕ) (w : Watch) (now : ℕ) (cur : Stat)
    → (on_stat settle w now (some cur)).0 ≡ tried_reload
    → (same_stat (some cur) w.stable ≡ false)
      × (w.armed ≡ true)
      × (same_stat (some cur) w.last ≡ true)
      × (ltb now w.deadline ≡ false)
      × ((on_stat settle w now (some cur)).1.stable ≡ some cur)
unfolding on_stat changed
on_stat-tried_reload settle w now cur did =
    (ground arith, ground arith, ground arith, ground arith, ground arith)

missing-tried_reload :
    (settle : ℕ) (w : Watch) (now : ℕ) → (on_stat settle w now none).0 ≢ tried_reload
unfolding on_stat
missing-tried_reload settle w now did = absurd (ground arith)

reloads-IsSettled :
    (settle : ℕ) (h : List Poll) (w : Watch) (p : Poll) (o : Option Stat)
    → p.stat ≡ o
    → IsTimed settle h w
    → (on_stat settle w p.now o).0 ≡ tried_reload
    → (c : Stat) × IsSettled settle h w.stable p c × ((on_stat settle w p.now o).1.stable ≡ some c)
reloads-IsSettled settle h w p none is timed did = absurd (missing-tried_reload settle w p.now did)
reloads-IsSettled settle h w p (some cur) is timed did =
    let (differs, on, same, passed, loaded) = on_stat-tried_reload settle w p.now cur did in
    let (c, t, was, due, quiet) = timed on in
    let looks : Option.some cur ≡ some c = sym (same_stat-some cur w.last same) ∙ was in
    (
      c,
      (
        is ∙ looks,
        λ e. same_stat_self cur w.stable differs (e ∙ sym looks),
        (t, ground arith, quiet),
      ),
      loaded ∙ looks,
    )

-- The watcher calls reload only when the file is settled: it exists, differs from the file of the last
-- call of reload, successful or not (or of the start), and was the same at every poll that found it,
-- back to a poll at least `settle` ago. The file of the last call is then the one that the poll has
-- seen.
pub tick-tried_reload :
    (settle : ℕ) (stable : Option Stat) (h : List Poll) (p : Poll)
    → (tick settle (after settle stable h) p).0 ≡ tried_reload
    → (c : Stat) × IsSettled settle h (after settle stable h).stable p c
      × ((after settle stable (p ∷ h)).stable ≡ some c)
unfolding after tick
tick-tried_reload settle stable h p did =
    reloads-IsSettled settle h (after settle stable h) p p.stat refl (after-IsTimed settle stable h)
      did
