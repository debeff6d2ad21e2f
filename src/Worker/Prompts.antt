-- ===== src/Worker/Prompts.antt =====
-- The evidence that RunOne collects, and the prompt that the model gets of it.
use umodel_sre_rca.Text.{join}
use umodel_sre_rca.Common.{
  ◌>>◌, ◌==◌, refuse_if, failure, length, suc, ◌≡◌, refl, ok, Result, List, [], ◌∷◌, bound, from_ok,
  String, true, some, subst, ap, sym, not,
}
use mathlib.Core.List.{◌++◌}
use umodel_sre_rca.Domain.{Evidence}
use umodel_sre_rca.Analysis.{EvidenceCollection, fixed_evidence_forms, is_safe_incident_id}
use umodel_sre_rca.Analysis.Runner.{
  System, build_prompt, check_forms, allowed_evidence_ids, prompt_text, item_ids,
}
use umodel_sre_rca.Worker.Env.{Env}
use umodel_sre_rca.Worker.Run.{collect_evidence, collect, ids_of}

forms_of : List EvidenceCollection → List String
forms_of [] = []
forms_of (c ∷ cs) = c.form ∷ forms_of cs

names_of : {A : Type 0} → List (String × A) → List String
names_of [] = []
names_of ((name, a) ∷ rest) = name ∷ names_of rest

ids-append : (xs ys : List Evidence) → ids_of (xs ++ ys) ≡ ids_of xs ++ ids_of ys
ids-append [] ys = refl
ids-append (x ∷ xs) ys = ap (λ ids. x.id ∷ ids) (ids-append xs ys)

same_ids : (xs : List Evidence) → item_ids xs ≡ ids_of xs
same_ids [] = refl
same_ids (x ∷ xs) = ap (λ ids. x.id ∷ ids) (same_ids xs)

-- The collections are those of the queries, in order, and hold the items.
collected :
    (env : Env) (id : String) (qs : List (String × (String → Result (List Evidence))))
    {cs : List EvidenceCollection} {items : List Evidence}
    → collect env qs id ≡ ok (cs, items)
    → (forms_of cs ≡ names_of qs) × (allowed_evidence_ids cs ≡ ids_of items)
unfolding forms_of names_of allowed_evidence_ids
collected env id [] h =
    subst (λ p. (forms_of p.0 ≡ []) × (allowed_evidence_ids p.0 ≡ ids_of p.1)) (from_ok h)
      (refl, refl)
collected env id ((name, query) ∷ qs) h =
    let (found, _, h1) = bound (query id) _ h in
    let (rest, h2, made) = bound (collect env qs id) _ h1 in
    let (forms, ids) = collected env id qs h2 in
    subst (λ p. (forms_of p.0 ≡ name ∷ names_of qs) × (allowed_evidence_ids p.0 ≡ ids_of p.1))
      (from_ok made)
      (ap (λ ns. name ∷ ns) forms, rw (same_ids found, ids) (sym (ids-append found rest.1)))

names_pass : List (List String) → List String → Result (Unit {0})
names_pass [] ns = ok tt
names_pass (f ∷ fs) [] = ok tt
names_pass (f ∷ fs) (n ∷ ns) =
    refuse_if (not (n == join f " "))
      (failure "RCA evidence collection is not an allowed fixed form")
    >> names_pass fs ns

check-names :
    (fs : List (List String)) (cs : List EvidenceCollection)
    → check_forms fs cs ≡ names_pass fs (forms_of cs)
unfolding check_forms names_pass forms_of
check-names [] cs = refl
check-names (f ∷ fs) [] = refl
check-names (f ∷ fs) (c ∷ cs) = rw (check-names fs cs) refl

length-forms_of : (cs : List EvidenceCollection) → length cs ≡ length (forms_of cs)
unfolding forms_of
length-forms_of [] = refl
length-forms_of (c ∷ cs) = ap suc (length-forms_of cs)

-- Whatever evidence RunOne collects for a safe incident identifier, if it can be encoded, the prompt
-- that the runner builds of it is made without an error, and the identifiers that it allows the model
-- to cite are exactly those that RunOne then checks the result against.
pub collect_evidence-prompt :
    (env : Env) (system : System) (id : String) {collections : List EvidenceCollection}
    {items : List Evidence} {payload allowed : String}
    → collect_evidence env id ≡ ok (collections, items)
    → is_safe_incident_id id ≡ true
    → system.marshal_prompt id collections ≡ some payload
    → system.marshal_ids (ids_of items) ≡ some allowed
    → build_prompt system id collections ≡ ok (prompt_text allowed payload)
unfolding collect_evidence build_prompt names_pass names_of join
collect_evidence-prompt env system id {collections} {items} {payload} {allowed} h safe shown ids =
    let (forms, same) =
      collected env id
        (("incident context", env.context)
          ∷ ("metrics query", env.metrics)
          ∷ ("logs query", env.logs)
          ∷ ("changes query", env.changes)
          ∷ [])
        h in
    rw
      (
        safe,
        length-forms_of collections,
        check-names fixed_evidence_forms collections,
        forms,
        same,
        shown,
        ids,
      )
      refl
