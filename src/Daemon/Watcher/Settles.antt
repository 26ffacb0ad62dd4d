-- ===== src/Daemon/Watcher/Settles.antt =====
-- A change that stays makes a call of reload by the watcher of internal/daemon/watcher.go.
use portato.Prelude.{
  ℕ, ◌+◌, ◌≡◌, ◌≤◌, refl, ◌⊎◌, inl, inr, true, false, Option, some, List, [], ◌∷◌, ltb, ==_iff,
  arith, Bool-cases,
}
use portato.Daemon.Watcher.{Stat, Poll, Watch, same_stat, changed, on_stat, tick, after}
use portato.Daemon.Watcher.Quiet.{IsQuiet, after-IsTimed, same_stat-some}

abbrev pub AllBefore : ℕ → List Poll → Type 0
AllBefore n [] = Unit {0}
AllBefore n (p ∷ h) = (p.now ≤ n) × AllBefore n h

IsQuiet-before : (c : Stat) (t n : ℕ) (h : List Poll) → IsQuiet c t h → AllBefore n h → t ≤ n
IsQuiet-before c t n [] q b = absurd q
IsQuiet-before c t n (p ∷ h) (inl (seen, at)) b = omega (arith, b.0)
IsQuiet-before c t n (p ∷ h) (inr (seen, q)) b = IsQuiet-before c t n h q b.1

same_stat_refl : (c : Stat) → same_stat (some c) (some c) ≡ true
unfolding same_stat
same_stat_refl c = ground (arith, ==_iff c.size c.size, ==_iff c.mod_time c.mod_time)

-- The file of the last call of reload, or due within `settle`.
abbrev IsDue : ℕ → ℕ → Stat → Watch → Type 0
IsDue settle now c w =
    (w.stable ≡ some c) ⊎ ((w.armed ≡ true) × (w.last ≡ some c) × (w.deadline ≤ now + settle))

on_stat-IsDue :
    (settle now : ℕ) (w : Watch) (c : Stat)
    → (w.armed ≡ true → w.deadline ≤ now + settle)
    → IsDue settle now c (on_stat settle w now (some c)).1
unfolding on_stat changed
on_stat-IsDue settle now w c bound = elim (Bool-cases (same_stat (some c) w.stable)) [
  | inl same ↦ rw same (inl (same_stat-some c w.stable same))
  | inr differs ↦ elim (Bool-cases w.armed) [
    | inr off ↦ rw (differs, off) (inr (refl, refl, omega arith))
    | inl on ↦ elim (Bool-cases (same_stat (some c) w.last)) [
      | inr churning ↦ rw (differs, on, churning) (inr (refl, refl, omega arith))
      | inl quiet ↦ elim (Bool-cases (ltb now w.deadline)) [
        | inr passed ↦ rw (differs, on, quiet, passed) (inl refl)
        | inl waiting ↦ rw (differs, on, quiet, waiting) (inr (refl, refl, bound on))
      ]
    ]
  ]
]

due-loads :
    (settle before now : ℕ) (w : Watch) (c : Stat)
    → IsDue settle before c w
    → before + settle ≤ now
    → (on_stat settle w now (some c)).1.stable ≡ some c
unfolding on_stat changed
due-loads settle before now w c (inl loaded) late =
    let same : same_stat (some c) w.stable ≡ true = rw loaded (same_stat_refl c) in rw same loaded
due-loads settle before now w c (inr (on, was, due)) late =
    let quiet : same_stat (some c) w.last ≡ true = rw was (same_stat_refl c) in
    let passed : ltb now w.deadline ≡ false = ground arith in
    elim (Bool-cases (same_stat (some c) w.stable)) [
      | inl same ↦ rw same (same_stat-some c w.stable same)
      | inr differs ↦ rw (differs, on, quiet, passed) refl
    ]

-- Whatever the watcher has seen: when two polls find the file the same, the second one at least `settle`
-- after the first, then after the second poll that file is the one of the last call of reload, whether
-- it succeeded or failed (or of the start). The clock does not go back to before the polls of the
-- history.
pub tick-settles :
    (settle : ℕ) (stable : Option Stat) (h : List Poll) (p q : Poll) (c : Stat)
    → AllBefore p.now h
    → p.stat ≡ some c
    → q.stat ≡ some c
    → p.now + settle ≤ q.now
    → (after settle stable (q ∷ p ∷ h)).stable ≡ some c
unfolding after tick
tick-settles settle stable h p q c ordered first second late =
    rw (first, second)
      (due-loads settle p.now q.now (on_stat settle (after settle stable h) p.now (some c)).1 c
        (on_stat-IsDue settle p.now (after settle stable h) c bound) late)
  where
    bound : (after settle stable h).armed ≡ true → (after settle stable h).deadline ≤ p.now + settle
    bound on =
        let (d, t, was, due, quiet) = after-IsTimed settle stable h on in
        let early = IsQuiet-before d t p.now h quiet ordered in omega arith
