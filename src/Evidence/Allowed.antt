-- ===== src/Evidence/Allowed.antt =====
-- Which bindings are ever asked.
use umodel_sre_rca.Common.{
  ◌>>◌, ◌>>=◌, refuse_if, subst, ok, err, ◌≡◌, refl, ◌==◌, ◌||◌, not, Bool, true, false, List, [],
  ◌∷◌, ◌++◌, String, passes, both_pass, Bool-cases, inl, inr, arith, Result, All, ◌>>=◌, failure,
  All-append, refuse_if, subst,
}
use umodel_sre_rca.Analysis.{codes}
use umodel_sre_rca.Store.Intake.{text_lt}
use umodel_sre_rca.Evidence.{
  has_line_break, Binding, validate_binding, register_all, load_registry, at_least_one,
  bindings_for, insert_by_id, has_binding, is_allowed_template, allowed_templates, is_known_class,
  check_mapping, is_empty_map, has_line_break, codes,
}

-- What a reviewed binding may be: one of the fixed queries of its provider, without a URL, a shell
-- command or credentials of its own.
pub record IsAllowed (b : Binding) : Type 0 where
  pub no_url : (b.query_url == "") ≡ true
  pub no_credentials : b.has_credentials ≡ false
  pub no_shell : (b.shell_command == "") ≡ true
  pub known_class : is_known_class b.evidence_class ≡ true
  pub template : is_allowed_template allowed_templates b.provider b.query_template ≡ true
  pub selectors : check_mapping b.selector_mapping ≡ ok tt

negated : (b : Bool) → not b ≡ false → b ≡ true
negated true h = refl
negated false h = absurd (cc)

abbrev one_line : Binding → Result (Unit {0})
one_line b =
    refuse_if (has_line_break (codes b.console_link_template))
      (failure "console_link_template must be one line")

validate_binding-IsAllowed : (b : Binding) → validate_binding b ≡ ok tt → IsAllowed b
unfolding validate_binding
validate_binding-IsAllowed b h =
    let (url, h1) = passes (not (b.query_url == "")) _ _ h in
    let (credentials, h2) = passes b.has_credentials _ _ h1 in
    let (shell, h3) = passes (not (b.shell_command == "")) _ _ h2 in
    let (given, h4) =
      passes (b.id == "" || (b.target == "" || (b.provider == "" || b.query_template == ""))) _ _
        h3 in
    let (class, h5) = passes (not (is_known_class b.evidence_class)) _ _ h4 in
    let (template, h6) =
      passes (not (is_allowed_template allowed_templates b.provider b.query_template)) _ _ h5 in
    let (mapped, h7) =
      passes (is_empty_map b.selector_mapping) _ (check_mapping b.selector_mapping >> one_line b)
        h6 in
    let (fields, h8) = both_pass (check_mapping b.selector_mapping) (one_line b) h7 in
    record {
      no_url = negated (b.query_url == "") url;
      no_credentials = credentials;
      no_shell = negated (b.shell_command == "") shell;
      known_class = negated (is_known_class b.evidence_class) class;
      template =
          negated (is_allowed_template allowed_templates b.provider b.query_template) template;
      selectors = fields;
    }

register_all-All :
    (seen bs registry : List Binding)
    → register_all seen bs ≡ ok registry
    → All IsAllowed seen
    → All IsAllowed registry
unfolding register_all
register_all-All seen [] registry h a =
    let same : seen ≡ registry = ground arith in subst (All IsAllowed) same a
register_all-All seen (b ∷ bs) registry h a =
    let (valid, h1) =
      both_pass (validate_binding b)
        (refuse_if (has_binding b.id seen) (failure "duplicate binding id")
          >> register_all (seen ++ b ∷ []) bs)
        h in
    let (new, h2) =
      passes (has_binding b.id seen) (failure "duplicate binding id")
        (register_all (seen ++ b ∷ []) bs) h1 in
    register_all-All (seen ++ b ∷ []) bs registry h2
      (All-append IsAllowed seen (b ∷ []) a (validate_binding-IsAllowed b valid, tt))

at_least_one-All :
    (r : Result (List Binding)) (registry : List Binding)
    → (r >>= at_least_one) ≡ ok registry
    → ((bs : List Binding) → r ≡ ok bs → All IsAllowed bs)
    → All IsAllowed registry
at_least_one-All (err e) registry h k = absurd (cc)
at_least_one-All (ok []) registry h k = absurd (cc)
at_least_one-All (ok (b ∷ bs)) registry h k =
    let same : (b ∷ bs) ≡ registry = ground arith in subst (All IsAllowed) same (k (b ∷ bs) refl)

pub load_registry-All :
    (bindings registry : List Binding)
    → load_registry bindings ≡ ok registry
    → All IsAllowed registry
unfolding load_registry
load_registry-All bindings registry h =
    at_least_one-All (register_all [] bindings) registry h
      (λ bs r. register_all-All [] bindings bs r tt)

insert_by_id-All :
    (P : Binding → Type 0) (b : Binding) (ks : List Binding)
    → P b
    → All P ks
    → All P (insert_by_id b ks)
unfolding insert_by_id
insert_by_id-All P b [] p a = (p, tt)
insert_by_id-All P b (k ∷ ks) p (q, a) = elim (Bool-cases (text_lt k.id b.id)) [
  | inl t ↦ rw t (q, insert_by_id-All P b ks p a)
  | inr f ↦ rw f (p, (q, a))
]

-- For a registry that LoadRegistry has accepted, every binding that BindingsFor gives to a query of
-- some class is of that class and is allowed: one of the fixed query templates of its provider, with
-- allowlisted selectors, and without a URL, a shell command or credentials.
pub bindings_for-All :
    (class : String) (bindings registry : List Binding)
    → load_registry bindings ≡ ok registry
    → All (λ b. ((b.evidence_class == class) ≡ true) × IsAllowed b) (bindings_for class registry)
unfolding bindings_for
bindings_for-All class bindings registry h =
    of_class registry (load_registry-All bindings registry h)
  where
    of_class :
        (bs : List Binding)
        → All IsAllowed bs
        → All (λ b. ((b.evidence_class == class) ≡ true) × IsAllowed b) (bindings_for class bs)
    of_class [] a = tt
    of_class (b ∷ bs) (p, a) = elim (Bool-cases (b.evidence_class == class)) [
      | inl t ↦ rw t (insert_by_id-All _ b (bindings_for class bs) (t, p) (of_class bs a))
      | inr f ↦ rw f (of_class bs a)
    ]
