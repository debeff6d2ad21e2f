-- ===== src/Store/Opens.antt =====
-- Evidence that StoreEvidence has stored is what OpenEvidence opens.
use umodel_sre_rca.Common.{
  Result-cases, All, Result, ok, ◌∙◌, ap, eq_refl, ◌++◌, sym, ◌≡◌, refl, ◌==◌, Bool, Bool-cases,
  false, inl, inr, arith, String, List, [], ◌∷◌, Option, some, Option-cases, find_where,
  exists_where, find_where-append, eq_iff, subst, ℕ,
}
use umodel_sre_rca.Domain.{Evidence}
use umodel_sre_rca.Store.Tables.{Db, Document, ◌>>=◌}
use umodel_sre_rca.Store.Records.{
  store_evidence, open_evidence, without, replace_evidence, store_item,
}
use umodel_sre_rca.Store.Runs.{Yields}

abbrev pub has_document : String → Document → Bool
has_document id d = d.id == id

without_gone :
    (id : String) (ds : List Document) → exists_where (has_document id) (without id ds) ≡ false
unfolding without exists_where
without_gone id [] = refl
without_gone id (d ∷ ds) = elim (Bool-cases (d.id == id)) [
  | inl t ↦ rw t (without_gone id ds)
  | inr f ↦ rw f (rw (f, without_gone id ds) refl)
]

without_other :
    (id other : String) (ds ks : List Document)
    → (other == id) ≡ false
    → find_where (has_document id) (without other ds ++ ks)
      ≡ find_where (has_document id) (ds ++ ks)
unfolding without find_where
without_other id other [] ks n = refl
without_other id other (d ∷ ds) ks n = elim (Bool-cases (d.id == other)) [
  | inl t ↦
      let e : (d.id == id) ≡ false =
        subst (λ z. (z == id) ≡ false) (sym ((eq_iff d.id other).0 t)) n in
      rw t (rw e (without_other id other ds ks n))
  | inr f ↦ rw f (ground (arith, without_other id other ds ks n))
]

find_skip :
    (id : String) (ds : List Document) (d : Document)
    → (d.id == id) ≡ false
    → find_where (has_document id) (ds ++ d ∷ []) ≡ find_where (has_document id) ds
unfolding find_where
find_skip id [] d n = rw n refl
find_skip id (k ∷ ks) d n = ground (arith, find_skip id ks d n)

module _ (marshal : Evidence → Option String) (unmarshal : String → Option Evidence)
    (incident : String) (at : ℕ) where
  abbrev row : Evidence → String → Document
  row item raw = record {
    id = item.id;
    incident_id = incident;
    evidence_json = raw;
    created_at = at;
  }

  abbrev replaced : Document → Db → Db
  replaced d db = record db { evidence_records = without d.id db.evidence_records ++ d ∷ [] }

  stores_row :
      (item : Evidence) (db db' : Db)
      → Yields (store_item marshal incident at item) db tt db'
      → (raw : String) × (marshal item ≡ some raw) × (db' ≡ replaced (row item raw) db)
  unfolding store_item replace_evidence
  stores_row item db db' h = elim (Bool-cases (item.id == "")) [
    | inl t ↦ absurd (ground (arith, rw t at h))
    | inr f ↦ elim (Option-cases (marshal item)) [
      | inl n ↦ absurd (ground (arith, rw (f, n) at h))
      | inr (raw, m) ↦
          let k : ◌≡◌ {A = Result (Unit {0} × Db)} (ok (tt, replaced (row item raw) db))
              (ok (tt, db')) =
            rw (f, m) at h in
          (raw, m, ground arith)
    ]
  ]

  -- The document that is found for an identifier after one item of another.
  stores_other :
      (id : String) (item : Evidence) (db db' : Db)
      → Yields (store_item marshal incident at item) db tt db'
      → (item.id == id) ≡ false
      → find_where (has_document id) db'.evidence_records
        ≡ find_where (has_document id) db.evidence_records
  stores_other id item db db' h n =
      let (raw, _, e) = stores_row item db db' h in
      ap (λ (d : Db). find_where (has_document id) d.evidence_records) e
      ∙ (without_other id item.id db.evidence_records (row item raw ∷ []) n
          ∙ find_skip id db.evidence_records (row item raw) n)

  stores_own :
      (item : Evidence) (db db' : Db)
      → Yields (store_item marshal incident at item) db tt db'
      → (raw : String) × (marshal item ≡ some raw)
        × (find_where (has_document item.id) db'.evidence_records ≡ some (row item raw))
  unfolding find_where
  stores_own item db db' h =
      let (raw, m, e) = stores_row item db db' h in
      (
        raw,
        m,
        ap (λ (d : Db). find_where (has_document item.id) d.evidence_records) e
            ∙ (find_where-append (has_document item.id) _ (row item raw ∷ [])
                  (without_gone item.id db.evidence_records)
                ∙ own item raw),
      )
    where
      own :
          (item : Evidence) (raw : String)
          → find_where (has_document item.id) (row item raw ∷ []) ≡ some (row item raw)
      own item raw = rw (eq_refl item.id) refl

  -- A run of StoreEvidence is one of its first item and one of the rest.
  splits :
      (item : Evidence) (items : List Evidence) (db db' : Db)
      → Yields (store_evidence marshal incident (item ∷ items) at) db tt db'
      → (mid : Db) × Yields (store_item marshal incident at item) db tt mid
        × Yields (store_evidence marshal incident items at) mid tt db'
  unfolding store_evidence
  splits item items db db' h = elim (Result-cases (store_item marshal incident at item db)) [
    | inl (e, r) ↦ absurd (ground (arith, rw (r, ◌>>=◌) at h))
    | inr ((tt, mid), r) ↦ (mid, r, rw (r, ◌>>=◌) at h)
  ]

  keeps_other :
      (id : String) (items : List Evidence) (db db' : Db)
      → Yields (store_evidence marshal incident items at) db tt db'
      → All (λ (k : Evidence). (k.id == id) ≡ false) items
      → find_where (has_document id) db'.evidence_records
        ≡ find_where (has_document id) db.evidence_records
  unfolding store_evidence
  keeps_other id [] db db' h a =
      let same : db ≡ db' = ground arith in
      ap (λ (d : Db). find_where (has_document id) d.evidence_records) (sym same)
  keeps_other id (item ∷ items) db db' h (n, a) =
      let (mid, r, s) = splits item items db db' h in
      keeps_other id items mid db' s a ∙ stores_other id item db mid r n

  stores_each :
      (before after : List Evidence) (item : Evidence) (db db' : Db)
      → Yields (store_evidence marshal incident (before ++ item ∷ after) at) db tt db'
      → All (λ (k : Evidence). (k.id == item.id) ≡ false) after
      → (raw : String) × (marshal item ≡ some raw)
        × (find_where (has_document item.id) db'.evidence_records ≡ some (row item raw))
  stores_each [] after item db db' h a =
      let (mid, r, s) = splits item after db db' h in
      let (raw, m, f) = stores_own item db mid r in
      (raw, m, keeps_other item.id after mid db' s a ∙ f)
  stores_each (k ∷ before) after item db db' h a =
      let (mid, r, s) = splits k (before ++ item ∷ after) db db' h in
      stores_each before after item mid db' s a

  -- If StoreEvidence stores a list of items, OpenEvidence opens each of them again, as it was: an
  -- item that no later item of the list replaces, and whose JSON decodes to the item.
  pub store-open_evidence :
      (before after : List Evidence) (item : Evidence) (db db' : Db)
      → Yields (store_evidence marshal incident (before ++ item ∷ after) at) db tt db'
      → All (λ (k : Evidence). (k.id == item.id) ≡ false) after
      → ((raw : String) → marshal item ≡ some raw → unmarshal raw ≡ some item)
      → Yields (open_evidence unmarshal item.id) db' item db'
  unfolding open_evidence
  store-open_evidence before after item db db' h a decodes =
      let (raw, m, f) = stores_each before after item db db' h a in rw (f, decodes raw m) refl
