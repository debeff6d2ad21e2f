-- ===== src/Store/Opened.antt =====
-- What a migration that succeeds leaves of a file.
use umodel_sre_rca.Store.Migration.{statements, migrate, add_column}
use umodel_sre_rca.Common.{none, false, ◌⊎◌, sym}
use umodel_sre_rca.Common.{
  ◌⊎◌, Bool-cases, List, Option-cases, Result, arith, err, if◌then◌else◌, inl, inr, ok, refl, some,
  subst, true, ◌∷◌, ◌≡◌, false, [],
}
use umodel_sre_rca.Store.Migration.{
  DbFile, Faults, JobsTable, Statement, carry_out, exec, exec_all, has_duplicates, next, or_empty,
  or_new, with_default, add_column, migrate, statements,
}

-- The file with all its tables, indexes and columns.
abbrev pub migrated_jobs : JobsTable → JobsTable
migrated_jobs t = if t.has_lease_until then t else with_default t

abbrev pub up_to_date : DbFile → DbFile
up_to_date f = record {
  incidents = some (or_empty f.incidents);
  active_key = true;
  jobs = some (migrated_jobs (or_new f.jobs));
  claimable = true;
  evidence_snapshots = some (or_empty f.evidence_snapshots);
  evidence_records = some (or_empty f.evidence_records);
}

abbrev pub Ends : Result (Unit {0}) × DbFile → DbFile → Type 0
Ends r g = ◌≡◌ {A = Result (Unit {0}) × DbFile} r (ok tt, g)

abbrev pub no_faults : Faults
no_faults s = none

pub same_end : (f g : DbFile) → Ends (ok tt, f) g → g ≡ f
same_end f g h = ground arith

module _ (faults : Faults) where
  exec-Ends : (s : Statement) (f g : DbFile) → Ends (exec faults s f) g → Ends (carry_out s f) g
  exec-Ends s f g h = elim (Option-cases (faults s)) [
    | inl n ↦ rw n at h
    | inr (e, b) ↦ absurd (ground (arith, rw b at h))
  ]

  next-Ends :
      (r : Result (Unit {0}) × DbFile) (k : DbFile → Result (Unit {0}) × DbFile) (g : DbFile)
      → Ends (next faults r k) g
      → (f : DbFile) × Ends r f × Ends (k f) g
  next-Ends (err e, f) k g h = absurd (ground arith)
  next-Ends (ok u, f) k g h = (f, refl, h)

  next_then :
      (r : Result (Unit {0}) × DbFile) (k : DbFile → Result (Unit {0}) × DbFile) (f g : DbFile)
      → Ends r f
      → Ends (k f) g
      → Ends (next faults r k) g
  next_then r k f g h e = subst (λ z. Ends (next faults z k) g) (sym h) e

  -- A run that succeeds has met no fault.
  all_quiet :
      (ss : List Statement) (f g : DbFile)
      → Ends (exec_all faults ss f) g
      → Ends (exec_all no_faults ss f) g
  unfolding exec_all
  all_quiet [] f g h = h
  all_quiet (s ∷ ss) f g h =
      let (m, first, rest) = next-Ends (exec faults s f) (exec_all faults ss) g h in
      rw (exec-Ends s f m first) (all_quiet ss m g rest)

  add_quiet : (f g : DbFile) → Ends (add_column faults f) g → Ends (add_column no_faults f) g
  unfolding carry_out
  add_quiet f g h = elim (Bool-cases (or_new f.jobs).has_lease_until) [
    | inl t ↦ rw t (rw t at h)
    | inr n ↦ rw n (exec-Ends Statement.add_lease_until f g (rw n at h))
  ]

  pub migrate_quiet : (f g : DbFile) → Ends (migrate faults f) g → Ends (migrate no_faults f) g
  unfolding migrate
  migrate_quiet f g h =
      let (a, all, last) = next-Ends (exec_all faults (statements faults) f) _ g h in
      let (b, info, added) = next-Ends (exec faults Statement.table_info a) _ g last in
      next_then (exec_all no_faults (statements faults) f) _ a g
        (all_quiet (statements faults) f a all)
        (next_then (exec no_faults Statement.table_info a) (add_column no_faults) b g
          (exec-Ends Statement.table_info a b info) (add_quiet b g added))

-- A file whose index has been made, or can be.
abbrev pub IsIndexable : DbFile → Type 0
IsIndexable f = (f.active_key ≡ true) ⊎ (has_duplicates (or_empty f.incidents) ≡ false)

pub migrates : (f g : DbFile) → Ends (migrate no_faults f) g → (g ≡ up_to_date f) × IsIndexable f
unfolding migrate exec_all carry_out
migrates f g h = elim (Bool-cases f.active_key) [
  | inl t ↦ elim (Bool-cases (or_new f.jobs).has_lease_until) [
    | inl u ↦ (ground (arith, rw (t, u) at h), inl t)
    | inr u ↦ (ground (arith, rw (t, u) at h), inl t)
  ]
  | inr t ↦ elim (Bool-cases (has_duplicates (or_empty f.incidents))) [
    | inl d ↦ absurd (ground (arith, rw (t, d) at h))
    | inr d ↦ elim (Bool-cases (or_new f.jobs).has_lease_until) [
      | inl u ↦ (ground (arith, rw (t, d, u) at h), inr d)
      | inr u ↦ (ground (arith, rw (t, d, u) at h), inr d)
    ]
  ]
]
