-- ===== src/Evidence/Reordered.antt =====
-- The order of the bindings in their file does not matter.
use mathlib.Core.Logic.{∥∥₁_elim}
use mathlib.Core.List.{Perm, Permᴰ, append-nil, append_assoc}
use native.Mathlib.Nat.{ℕ_set}
use umodel_sre_rca.Evidence.TextOrder.{text-set}
use umodel_sre_rca.Common.{
  ◌||◌, ◌++◌, either_false, sym, ap, from_ok, both_pass, bound, passes, All-map,
  exists_where-append, exists_where, ok, refl, ◌==◌, All, List, [], arith, false, subst, ◌∙◌, ◌∷◌,
  ◌≡◌, String,
}
use umodel_sre_rca.Evidence.{
  Binding, bindings_for, validate_binding, has_binding, register_all, load_registry, at_least_one,
  Service, EvidenceClass, resolve, class_text, resolve_all, IncidentContext,
}
use umodel_sre_rca.Evidence.Unordered.{IsNew, Distinct, All-perm, Distinct-perm, bindings_for-perm}

abbrev IsValidBinding : Binding → Type 0
IsValidBinding b = validate_binding b ≡ ok tt

abbrev IsUnseen : List Binding → Binding → Type 0
IsUnseen seen b = has_binding b.id seen ≡ false

-- The bindings that the loop of LoadRegistry takes, after those that it has seen.
record Loads (seen bs : List Binding) : Type 0 where
  valid : All IsValidBinding bs
  unseen : All (IsUnseen seen) bs
  distinct : Distinct bs

seen_cons :
    (seen : List Binding) (b k : Binding)
    → has_binding k.id (seen ++ b ∷ []) ≡ (has_binding k.id seen || b.id == k.id)
unfolding exists_where
seen_cons seen b k =
    exists_where-append (λ (x : Binding). x.id == k.id) seen (b ∷ []) ∙ ground arith

IsUnseen-both :
    (seen : List Binding) (b k : Binding)
    → IsUnseen (seen ++ b ∷ []) k
    → IsUnseen seen k × IsNew b k
IsUnseen-both seen b k h = either_false _ _ (sym (seen_cons seen b k) ∙ h)

register_all-Loads :
    (seen bs rs : List Binding) → register_all seen bs ≡ ok rs → Loads seen bs × (rs ≡ seen ++ bs)
unfolding register_all
register_all-Loads seen [] rs h =
    (record { valid = tt; unseen = tt; distinct = tt }, sym (from_ok h) ∙ sym (append-nil seen))
register_all-Loads seen (b ∷ bs) rs h =
    let (valid, h1) = both_pass (validate_binding b) _ h in
    let (new, h2) = passes (has_binding b.id seen) _ _ h1 in
    let (l, same) = register_all-Loads (seen ++ b ∷ []) bs rs h2 in
    (
      record {
        valid = (valid, l.valid);
        unseen = (new, All-map bs (λ k u. (IsUnseen-both seen b k u).0) l.unseen);
        distinct = (All-map bs (λ k u. (IsUnseen-both seen b k u).1) l.unseen, l.distinct);
      },
      same ∙ append_assoc seen (b ∷ []) bs,
    )

IsUnseen-next :
    (seen : List Binding) (b : Binding) (bs : List Binding)
    → All (IsUnseen seen) bs
    → All (IsNew b) bs
    → All (IsUnseen (seen ++ b ∷ [])) bs
IsUnseen-next seen b [] u n = tt
IsUnseen-next seen b (k ∷ bs) (u, us) (n, ns) =
    (rw (seen_cons seen b k, u, n) refl, IsUnseen-next seen b bs us ns)

Loads-register_all :
    (seen bs : List Binding) → Loads seen bs → register_all seen bs ≡ ok (seen ++ bs)
unfolding register_all
Loads-register_all seen [] l = ap ok (sym (append-nil seen))
Loads-register_all seen (b ∷ bs) l =
    rw (l.valid.0, l.unseen.0)
      (Loads-register_all (seen ++ b ∷ []) bs (record {
        valid = l.valid.1;
        unseen = IsUnseen-next seen b bs l.unseen.1 l.distinct.0;
        distinct = l.distinct.1;
      })
        ∙ ap ok (append_assoc seen (b ∷ []) bs))

-- The loaded registry is the file, and its bindings have different identifiers.
load_registry-Loads :
    (bs rs : List Binding)
    → load_registry bs ≡ ok rs
    → Loads [] bs × (at_least_one bs ≡ ok bs) × (rs ≡ bs)
unfolding load_registry
load_registry-Loads bs rs h =
    let (registered, r, given) = bound (register_all [] bs) at_least_one h in
    let (l, same) = register_all-Loads [] bs registered r in
    let (some_given, kept) = passes_on registered rs given in
    (l, subst (λ k. at_least_one k ≡ ok k) same some_given, sym kept ∙ same)
  where
    passes_on :
        (bs rs : List Binding) → at_least_one bs ≡ ok rs → (at_least_one bs ≡ ok bs) × (bs ≡ rs)
    passes_on [] rs h = absurd (cc)
    passes_on (b ∷ bs) rs h = (refl, from_ok h)

-- A permutation of bindings is empty if they are.
keeps_some :
    {xs ys : List Binding} → Permᴰ xs ys → at_least_one xs ≡ ok xs → at_least_one ys ≡ ok ys
keeps_some Permᴰ.nil h = h
keeps_some (Permᴰ.cons e d) h = refl
keeps_some (Permᴰ.swap e f) h = refl
keeps_some (Permᴰ.trans d e) h = keeps_some e (keeps_some d h)

reloads :
    (xs ys rs : List Binding) → Permᴰ xs ys → load_registry xs ≡ ok rs → load_registry ys ≡ ok ys
unfolding load_registry
reloads xs ys rs d h =
    let (l, given, _) = load_registry-Loads xs rs h in
    let loaded = Loads-register_all [] ys (record {
      valid = All-perm IsValidBinding d l.valid;
      unseen = All-perm (IsUnseen []) d l.unseen;
      distinct = Distinct-perm d l.distinct;
    }) in
    rw loaded (keeps_some d given)

module _ (s : Service) (xs ys : List Binding) where
  asked_same :
      (bs : List Binding) (context : IncidentContext)
      → resolve_all (record s { registry = xs }) bs context
        ≡ resolve_all (record s { registry = ys }) bs context
  unfolding resolve_all
  asked_same bs context = refl

  resolve_same :
      (class : EvidenceClass) (id : String)
      → bindings_for (class_text class) xs ≡ bindings_for (class_text class) ys
      → resolve (record s { registry = xs }) class id
        ≡ resolve (record s { registry = ys }) class id
  unfolding resolve resolve_all
  resolve_same class id e = rw e refl

-- For a file of bindings that LoadRegistry accepts, every file of the same bindings in another order
-- is accepted as well, and the service answers every query of every incident from either with the
-- same evidence in the same order, or with the same error, whatever its providers are.
pub load_registry-perm :
    (s : Service) (class : EvidenceClass) (id : String) (xs ys rs : List Binding)
    → Perm xs ys
    → load_registry xs ≡ ok rs
    → (load_registry ys ≡ ok ys)
      × (resolve (record s { registry = rs }) class id
          ≡ resolve (record s { registry = ys }) class id)
load_registry-perm s class id xs ys rs p h =
    let (l, _, same) = load_registry-Loads xs rs h in
    ∥∥₁_elim p (hlevel (text-set, ℕ_set)) λ d. (
      reloads xs ys rs d h,
      subst
          (λ k.
            resolve (record s { registry = k }) class id
            ≡ resolve (record s { registry = ys }) class id)
          (sym same)
          (resolve_same s xs ys class id (bindings_for-perm (class_text class) d l.distinct)),
    )
