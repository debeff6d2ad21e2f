-- ===== src/Store/Recovery.antt =====
-- Recover on an alert that has recovered before.
use mathlib.Core.Option.{Option, none, some}
use mathlib.Core.Option
use umodel_sre_rca.Common.{
  no_rows, Result, Result-cases, Option-cases, subst, ℕ, eqb, count_where, first_by-some, eq_refl,
  String, List, ok, err, ◌≡◌, refl, ◌∙◌, ◌==◌, ◌&&◌, ◌||◌, Bool, Bool-cases, true, false, inl, inr,
  arith, String, List, [], ◌∷◌, Option, none, some, first_by, update_where, if◌then◌else◌, ap, sym,
  better,
}
use umodel_sre_rca.Store.Tables.{
  Tx, ◌>>◌, pure, Db, is_active, is_recovered, is_settled, update_incidents, update_jobs, is_live,
  ◌>>=◌,
}
use umodel_sre_rca.Domain.{Incident, IncidentState, JobStatus}
use umodel_sre_rca.Store.Runs.{Yields}
use umodel_sre_rca.Store.Intake.{
  cancel_jobs_for_incident, newer, recover_incident, recoverable, recover, settle_job,
}

-- An UPDATE that changes neither which rows a SELECT fits nor their order.
module _ {A : Type 0} (before : A → A → Bool) (p q : A → Bool) (f : A → A)
    (same_fit : (x : A) → q x ≡ true → p (f x) ≡ p x)
    (same_left : (x y : A) → before (f x) y ≡ before x y)
    (same_right : (x y : A) → before x (f y) ≡ before x y) where
  abbrev updated : A → A
  updated x = if q x then f x else x

  fit : (x : A) → p (updated x) ≡ p x
  fit x = elim (Bool-cases (q x)) [ inl t ↦ rw t (same_fit x t) | inr n ↦ rw n refl ]

  order : (x y : A) → before (updated x) (updated y) ≡ before x y
  order x y = elim (Bool-cases (q x)) [
    | inl t ↦ elim (Bool-cases (q y)) [
      | inl u ↦ rw (t, u) (same_left x (f y) ∙ same_right x y)
      | inr u ↦ rw (t, u) (same_left x y)
    ]
    | inr t ↦ elim (Bool-cases (q y)) [
      | inl u ↦ rw (t, u) (same_right x y)
      | inr u ↦ rw (t, u) refl
    ]
  ]

  better-map :
      (x : A) (o : Option A)
      → better before (updated x) (Option.map updated o) ≡ Option.map updated (better before x o)
  unfolding better
  better-map x none = refl
  better-map x (some y) = elim (Bool-cases (before y x)) [
    | inl t ↦ rw (order y x, t) refl
    | inr n ↦ rw (order y x, n) refl
  ]

  pub first_by-update :
      (xs : List A)
      → first_by before p (update_where q f xs) ≡ Option.map updated (first_by before p xs)
  unfolding first_by update_where
  first_by-update [] = refl
  first_by-update (x ∷ xs) = elim (Bool-cases (p x)) [
    | inl t ↦ rw (fit x, t, first_by-update xs) (better-map x (first_by before p xs))
    | inr n ↦ rw (fit x, n) (first_by-update xs)
  ]

module _ (at : ℕ) (i : Incident) where
  abbrev is_row : Incident → Bool
  is_row k = k.id == i.id && (is_active k.state || is_settled k.state)

  abbrev recovers_row : Incident → Incident
  recovers_row k = record k { state = IncidentState.recovered; updated_at = at }

  abbrev after_recovery : Db → Db
  after_recovery db = record db {
    incidents = update_where is_row recovers_row db.incidents;
    jobs =
        update_where (λ j. j.incident_id == i.id && is_live j.status)
          (settle_job JobStatus.cancelled) db.jobs;
  }

  abbrev marked : Db → Db
  marked db = record db { incidents = update_where is_row recovers_row db.incidents }

  abbrev rest : Tx (Incident × Bool)
  rest = cancel_jobs_for_incident i.id >> pure (recovers_row i, true)

  -- The end of the recovery, by whether one row was updated.
  if_one :
      (b : Bool) (db db' : Db) (r : Incident × Bool)
      → Yields ((λ d. if b then ok (tt, d) else err no_rows) >> rest) (marked db) r db'
      → ((recovers_row i, true) ≡ r) × (after_recovery db ≡ db')
  unfolding cancel_jobs_for_incident update_jobs
  if_one true db db' r h = (ground arith, ground arith)
  if_one false db db' r h = absurd (cc)

  -- A recovery that succeeds has updated the incident's row, and gives it back.
  recover_incident-result :
      (db db' : Db) (r : Incident × Bool)
      → Yields (recover_incident at i) db r db'
      → ((recovers_row i, true) ≡ r) × (after_recovery db ≡ db')
  unfolding recover_incident update_incidents
  recover_incident-result db db' r h = if_one (eqb (count_where is_row db.incidents) 1) db db' r h

still_fits :
    (key : String) (at : ℕ) (i k : Incident)
    → is_row at i k ≡ true
    → recoverable key at (recovers_row at i k) ≡ recoverable key at k
still_fits key at i k h = ground (arith, h)

found_again :
    (key : String) (at : ℕ) (i : Incident) (xs : List Incident)
    → first_by newer (recoverable key at) xs ≡ some i
    → is_recovered i.state ≡ false
    → first_by newer (recoverable key at) (update_where (is_row at i) (recovers_row at i) xs)
      ≡ some (recovers_row at i i)
found_again key at i xs h n =
    let (_, fits) = first_by-some newer (recoverable key at) xs h in
    let own : is_row at i i ≡ true = rw (eq_refl i.id) (ground (arith, fits, n)) in
    first_by-update newer (recoverable key at) (is_row at i) (recovers_row at i)
      (still_fits key at i) (λ x y. refl) (λ x y. refl) xs
    ∙ rw h (rw own refl)

-- The recovery of an incident that is found.
recover_of :
    (key : String) (at : ℕ) (db db' : Db) (k i : Incident)
    → first_by newer (recoverable key at) db.incidents ≡ some i
    → Yields (recover key at) db (some k, true) db'
    → (is_recovered i.state ≡ false) × (k ≡ recovers_row at i i) × (after_recovery at i db ≡ db')
unfolding recover
recover_of key at db db' k i s h = elim (Bool-cases (is_recovered i.state)) [
  | inl t ↦ absurd (ground (arith, rw (s, t) at h))
  | inr n ↦ elim (Result-cases (recover_incident at i db)) [
    | inl (e, r) ↦ absurd (ground (arith, rw (s, n, r, ◌>>=◌) at h))
    | inr ((got, mid), r) ↦
        let (a, b) = recover_incident-result at i db mid got r in
        let e : ◌≡◌ {A = Result ((Option Incident × Bool) × Db)} (ok ((some got.0, got.1), mid))
            (ok ((some k, true), db')) =
          rw (s, n, r, ◌>>=◌) at h in
        let same : got.0 ≡ k = ground arith in
        let there : mid ≡ db' = ground arith in
        (n, sym same ∙ ap (λ (g : Incident × Bool). g.0) (sym a), b ∙ there)
  ]
]

-- Once Recover has recovered an incident, the same call again, as for a callback that is delivered
-- twice, finds the same incident, reports that there was nothing to recover, and changes nothing.
pub recover_twice :
    (key : String) (at : ℕ) (db db' : Db) (k : Incident)
    → Yields (recover key at) db (some k, true) db'
    → Yields (recover key at) db' (some k, false) db'
unfolding recover
recover_twice key at db db' k h =
    elim (Option-cases (first_by newer (recoverable key at) db.incidents)) [
      | inl n ↦ absurd (ground (arith, rw n at h))
      | inr (i, s) ↦
          let (n, same, there) = recover_of key at db db' k i s h in
          subst (λ (d : Db). Yields (recover key at) d (some k, false) d) there
            (subst
              (λ m.
                Yields (recover key at) (after_recovery at i db) (some m, false)
                  (after_recovery at i db))
              (sym same) (rw (found_again key at i db.incidents s n) refl))
    ]
