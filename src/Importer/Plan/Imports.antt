-- ===== src/Importer/Plan/Imports.antt =====
-- The plans that PlanImport of internal/importer/plan.go makes.
use portato.Prelude.{
  ◌≡◌, ◌⊎◌, refl, subst, true, false, List, [], ◌∷◌, Text, is_empty, trim_space, arith, Bool-cases,
  inl, inr,
}
use portato.Config.Types.{Config}
use portato.Config.Addr.{listen_addr, remote_listen_addr}
use portato.Config.Names.{ConfigError, valid, failed, then_check-valid, valid-inj}
use portato.Config.Validate.{seen_in}
use portato.Config.Validate.Accepted.{distinct, disjoint, disjoint-cons}
use portato.Config.Prepare.{Env}
use portato.Importer.Plan.{
  Candidate, Planned, Plan, candidate_key, tuber_name, planned, resolve_ssh_host, plan_from,
  plan_import, covered_by, taken_names, tuber_key,
}
use portato.Importer.Plan.Names.{tuber_name-free}

abbrev pub new_names : List Planned → List Text
new_names [] = []
new_names (p ∷ ps) = p.tuber.name ∷ new_names ps

abbrev pub new_keys : Env → List Planned → List Text
new_keys env [] = []
new_keys env (p ∷ ps) = candidate_key env p.candidate ∷ new_keys env ps

-- The planned tuber is of the candidate: its type, sides and ssh host, not enabled, and with the same
-- forward, unless the ssh host is blank.
abbrev pub IsMadeFrom : Env → Candidate → Planned → Type 0
IsMadeFrom env c p =
    (p.candidate ≡ c)
    × (p.tuber.type ≡ c.type)
    × (p.tuber.local ≡ c.local)
    × (p.tuber.remote ≡ c.remote)
    × (p.tuber.ssh ≡ c.ssh_host)
    × (p.tuber.enabled ≡ false)
    × ((is_empty (trim_space c.ssh_host) ≡ true) ⊎ (tuber_key env p.tuber ≡ candidate_key env c))

-- The candidates in order, each one either skipped, when its forward was seen, or added, when it is
-- new; an added one is seen from then on.
abbrev pub IsSorted : Env → List Text → List Candidate → List Planned → List Candidate → Type 0
IsSorted env seen [] ps skipped = (ps ≡ []) × (skipped ≡ [])
IsSorted env seen (c ∷ cs) ps skipped =
    ((seen_in (candidate_key env c) seen ≡ true)
      × ((rest : List Candidate) × (skipped ≡ c ∷ rest) × IsSorted env seen cs ps rest))
    ⊎ ((seen_in (candidate_key env c) seen ≡ false)
        × ((p : Planned) × (rest : List Planned) × (ps ≡ p ∷ rest)
            × IsMadeFrom env c p
            × IsSorted env (candidate_key env c ∷ seen) cs rest skipped))

planned-tuber_key :
    (env : Env) (c : Candidate) (name : Text)
    → is_empty (resolve_ssh_host env c.ssh_host).0 ≡ false
    → is_empty (trim_space c.ssh_host) ≡ false
    → tuber_key env (planned c name).tuber ≡ candidate_key env c
unfolding tuber_key candidate_key listen_addr remote_listen_addr
planned-tuber_key env c name resolved given = rw (given, resolved) refl

planned-IsMadeFrom :
    (env : Env) (c : Candidate) (name : Text)
    → is_empty (resolve_ssh_host env c.ssh_host).0 ≡ false
    → IsMadeFrom env c (planned c name)
planned-IsMadeFrom env c name resolved = (refl, refl, refl, refl, refl, refl, same_key)
  where
    same_key :
        (is_empty (trim_space c.ssh_host) ≡ true)
        ⊎ (tuber_key env (planned c name).tuber ≡ candidate_key env c)
    same_key = elim (Bool-cases (is_empty (trim_space c.ssh_host))) [
      | inl blank ↦ inl blank
      | inr given ↦ inr (planned-tuber_key env c name resolved given)
    ]

-- What holds of a plan made after the given forwards and names.
pub record IsSound (env : Env) (covered taken : List Text) (cands : List Candidate) (plan : Plan)
    : Type 0 where
  pub distinct_names : distinct (new_names plan.add) ≡ true
  pub free_names : disjoint taken (new_names plan.add) ≡ true
  pub distinct_keys : distinct (new_keys env plan.add) ≡ true
  pub new_forwards : disjoint covered (new_keys env plan.add) ≡ true
  pub sorted : IsSorted env covered cands plan.add plan.skipped

plan_from-IsSound :
    (env : Env) (covered taken : List Text) (cands : List Candidate) (plan : Plan)
    → plan_from env covered taken cands ≡ valid plan
    → IsSound env covered taken cands plan
unfolding plan_from
plan_from-IsSound env covered taken [] plan done =
    subst (IsSound env covered taken []) (valid-inj done) (record {
      distinct_names = refl;
      free_names = refl;
      distinct_keys = refl;
      new_forwards = refl;
      sorted = (refl, refl);
    })
plan_from-IsSound env covered taken (c ∷ cands) plan done =
    elim (Bool-cases (is_empty (resolve_ssh_host env c.ssh_host).0)) [
      | inl unresolved ↦ absurd (refused (rw unresolved at done))
      | inr resolved ↦ elim (Bool-cases (seen_in (candidate_key env c) covered)) [
        | inl dup ↦
            let (q, ran, made) =
              then_check-valid (plan_from env covered taken cands)
                (λ (p : Plan). valid (record p { skipped = c ∷ p.skipped })) plan
                (rw (resolved, dup) at done) in
            subst (IsSound env covered taken (c ∷ cands)) (valid-inj made)
              (skip q dup (plan_from-IsSound env covered taken cands q ran))
        | inr new ↦
            let (q, ran, made) =
              then_check-valid
                (plan_from env (candidate_key env c ∷ covered) (tuber_name c taken ∷ taken) cands)
                (λ (p : Plan). valid (record p { add = planned c (tuber_name c taken) ∷ p.add }))
                plan (rw (resolved, new) at done) in
            subst (IsSound env covered taken (c ∷ cands)) (valid-inj made) (
              more q new resolved (
                plan_from-IsSound env (candidate_key env c ∷ covered) (tuber_name c taken ∷ taken)
                  cands q ran))
      ]
    ]
  where
    refused : {e : ConfigError} → failed e ≡ valid plan → ⊥
    refused p = cc

    skip :
        (q : Plan)
        → seen_in (candidate_key env c) covered ≡ true
        → IsSound env covered taken cands q
        → IsSound env covered taken (c ∷ cands) (record q { skipped = c ∷ q.skipped })
    skip q dup v = record {
      distinct_names = v.distinct_names;
      free_names = v.free_names;
      distinct_keys = v.distinct_keys;
      new_forwards = v.new_forwards;
      sorted = inl (dup, (q.skipped, refl, v.sorted));
    }

    more :
        (q : Plan)
        → seen_in (candidate_key env c) covered ≡ false
        → is_empty (resolve_ssh_host env c.ssh_host).0 ≡ false
        → IsSound env (candidate_key env c ∷ covered) (tuber_name c taken ∷ taken) cands q
        → IsSound env covered taken
            (c ∷ cands)
            (record q { add = planned c (tuber_name c taken) ∷ q.add })
    more q new resolved v = record {
      distinct_names = ground (
        arith,
        v.distinct_names,
        v.free_names,
        disjoint-cons (tuber_name c taken) taken (new_names q.add),
      );
      free_names = ground (
        arith,
        v.free_names,
        tuber_name-free c taken,
        disjoint-cons (tuber_name c taken) taken (new_names q.add),
      );
      distinct_keys = ground (
        arith,
        v.distinct_keys,
        v.new_forwards,
        disjoint-cons (candidate_key env c) covered (new_keys env q.add),
      );
      new_forwards = ground (
        arith,
        new,
        v.new_forwards,
        disjoint-cons (candidate_key env c) covered (new_keys env q.add),
      );
      sorted = inr (
        new,
        (
          planned c (tuber_name c taken),
          q.add,
          refl,
          planned-IsMadeFrom env c (tuber_name c taken) resolved,
          v.sorted,
        ),
      );
    }

-- When PlanImport succeeds, the new tubers have names that differ from each other and from every name
-- of the configuration, their forwards differ from each other and from those that the configuration
-- covers. Each candidate, in order, is skipped exactly if its forward is covered or that of one before;
-- otherwise it is added, as a tuber with its type, its two sides and its ssh host, which is not enabled
-- and, unless that host is blank, covers the candidate's forward.
pub plan_import-IsSound :
    (env : Env) (cfg : Config) (cands : List Candidate) (plan : Plan)
    → plan_import env cfg cands ≡ valid plan
    → IsSound env (covered_by env cfg.tubers) (taken_names cfg.tubers) cands plan
unfolding plan_import
plan_import-IsSound env cfg cands plan done =
    plan_from-IsSound env (covered_by env cfg.tubers) (taken_names cfg.tubers) cands plan done
