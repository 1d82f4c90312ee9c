-- ===== src/Config/Types/Names.antt =====
-- internal/config/types.go: the names of the enabled jobs, and the order of the map of the jobs.
use mathlib.Core.List.{Perm, Permᴰ, filter}
use mathlib.Core.Path.{subst}
use mathlib.Core.Bool.{Bool-discrete}
use mathlib.Core.List.Perm
use mathlib.Core.Logic.{∥∥₁_elim, ∥∥₁_prop}
use ezdbbackup.Common.{
  ◌≡◌, refl, ap, true, some, List, [], ◌∷◌, map, if◌then◌else◌, Bool-cases, inl, inr,
}
use ezdbbackup.Common.Bytes.{Bytes}
use ezdbbackup.Common.Sorting.{sort-perm, IsSorted, sort-IsSorted, sort_strings, sort_strings-perm}
use ezdbbackup.Config.Types.{JobConfig, Jobs, Config, enabled_names, enabled_job_names}

abbrev add_if_enabled : Bytes × JobConfig → List Bytes → List Bytes
add_if_enabled (name, job) rest = if job.enabled then name ∷ rest else rest

add_comm :
    (a b : Bytes × JobConfig) (l : List Bytes)
    → Perm (add_if_enabled a (add_if_enabled b l)) (add_if_enabled b (add_if_enabled a l))
add_comm (m, j) (n, k) l = elim (Bool-cases j.enabled) [
  | inl e ↦ elim (Bool-cases k.enabled) [
    | inl f ↦ rw (e, f) (Perm.swap n m l)
    | inr f ↦ rw (e, f) (Perm.refl _)
  ]
  | inr e ↦ rw e (Perm.refl _)
]

add_cong :
    (a : Bytes × JobConfig) {l m : List Bytes}
    → Perm l m
    → Perm (add_if_enabled a l) (add_if_enabled a m)
add_cong (n, j) p = elim (Bool-cases j.enabled) [ inl e ↦ rw e (Perm.cons n p) | inr e ↦ rw e p ]

enabled_names-cons :
    (a : Bytes × JobConfig) (l : Jobs) → enabled_names (a ∷ l) ≡ add_if_enabled a (enabled_names l)
unfolding enabled_names
enabled_names-cons (n, j) l = refl

enabled_names-perm : {l m : Jobs} → Permᴰ l m → Perm (enabled_names l) (enabled_names m)
enabled_names-perm Permᴰ.nil = Perm.refl _
enabled_names-perm (Permᴰ.cons {a} {b} {l₁} {l₂} e p) =
    rw (enabled_names-cons a l₁, enabled_names-cons b l₂, e) (add_cong b (enabled_names-perm p))
enabled_names-perm (Permᴰ.swap {a} {b} {a'} {b'} {l} e f) =
    rw
      (
        e,
        f,
        enabled_names-cons b' (a' ∷ l),
        enabled_names-cons a' l,
        enabled_names-cons a' (b' ∷ l),
        enabled_names-cons b' l,
      )
      (add_comm b' a' (enabled_names l))
enabled_names-perm (Permᴰ.trans p q) = Perm.trans (enabled_names-perm p) (enabled_names-perm q)

abbrev IsEnabled : Bytes × JobConfig → Type 0
IsEnabled p = p.1.enabled ≡ true

-- the jobs that are enabled
abbrev pub enabled_jobs : Jobs → Jobs
enabled_jobs = filter {p = IsEnabled} (λ p. Bool-discrete p.1.enabled true)

abbrev pub name_of_job : Bytes × JobConfig → Bytes
name_of_job (name, job) = name

enabled_names-enabled_jobs :
    (jobs : Jobs) → enabled_names jobs ≡ map name_of_job (enabled_jobs jobs)
unfolding enabled_names
enabled_names-enabled_jobs [] = refl
enabled_names-enabled_jobs ((name, job) ∷ jobs) = elim (Bool-cases job.enabled) [
  | inl e ↦ rw e (ap (λ l. name ∷ l) (enabled_names-enabled_jobs jobs))
  | inr e ↦ rw e (enabled_names-enabled_jobs jobs)
]

-- Two configurations whose jobs are the same in another order have the same enabled job names in the
-- same order; that order is ascending; and the names are those of the jobs that have `enabled` set,
-- each as often as such a job has it.
pub enabled_job_names-perm :
    (c d : Config)
    → Perm c.jobs d.jobs
    → (enabled_job_names (some c) ≡ enabled_job_names (some d))
      × IsSorted (enabled_job_names (some c))
      × Perm (enabled_job_names (some c)) (map name_of_job (enabled_jobs c.jobs))
unfolding enabled_job_names
enabled_job_names-perm c d p = (
  sort-perm (∥∥₁_elim p ∥∥₁_prop enabled_names-perm),
  sort-IsSorted _,
  subst (λ l. Perm (sort_strings (enabled_names c.jobs)) l) (enabled_names-enabled_jobs c.jobs)
      (sort_strings-perm _),
)
