-- ===== src/Inbound/Capture/Redacted.antt =====
-- What the redaction of a callback leaves.
use umodel_sre_rca.Common.{◌≡◌, refl, true, if◌then◌else◌, Bool-cases, inl, inr, String, sym, ap}
use umodel_sre_rca.Json.{Json, Items, Fields}
use umodel_sre_rca.Inbound.Capture.{redact, redact_items, redact_fields, is_sensitive}

unfoldable mutual
  -- Below a sensitive key stands the mark, at every depth.
  pub IsClean : Json → Type 0
  IsClean (Json.object fs) = IsCleanFields fs
  IsClean (Json.array vs) = IsCleanItems vs
  IsClean v = Unit

  pub IsCleanItems : Items → Type 0
  IsCleanItems Items.no_items = Unit
  IsCleanItems (Items.item v vs) = IsClean v × IsCleanItems vs

  pub IsCleanFields : Fields → Type 0
  IsCleanFields Fields.no_fields = Unit
  IsCleanFields (Fields.field k v fs) =
      (if is_sensitive k then v ≡ Json.text "[REDACTED]" else IsClean v) × IsCleanFields fs

marked :
    (k : String) (v : Json)
    → IsClean v
    → (if is_sensitive k
        then (if is_sensitive k then Json.text "[REDACTED]" else v) ≡ Json.text "[REDACTED]"
        else IsClean (if is_sensitive k then Json.text "[REDACTED]" else v))
marked k v c = elim (Bool-cases (is_sensitive k)) [ inl t ↦ rw t refl | inr f ↦ rw f c ]

mutual
  unfolding IsClean IsCleanItems IsCleanFields redact redact_items redact_fields

  redact-IsClean : (v : Json) → IsClean (redact v)
  redact-IsClean (Json.object fs) = redact_fields-IsClean fs
  redact-IsClean (Json.array vs) = redact_items-IsClean vs
  redact-IsClean v = tt

  redact_items-IsClean : (vs : Items) → IsCleanItems (redact_items vs)
  redact_items-IsClean Items.no_items = tt
  redact_items-IsClean (Items.item v vs) = (redact-IsClean v, redact_items-IsClean vs)

  redact_fields-IsClean : (fs : Fields) → IsCleanFields (redact_fields fs)
  redact_fields-IsClean Fields.no_fields = tt
  redact_fields-IsClean (Fields.field k v fs) =
      (marked k (redact v) (redact-IsClean v), redact_fields-IsClean fs)

unmarked :
    (k : String) (v w : Json)
    → (if is_sensitive k then v ≡ Json.text "[REDACTED]" else IsClean v)
    → (IsClean v → w ≡ v)
    → (if is_sensitive k then Json.text "[REDACTED]" else w) ≡ v
unmarked k v w c same = elim (Bool-cases (is_sensitive k)) [
  | inl t ↦ rw t (sym (rw t at c))
  | inr f ↦ rw f (same (rw f at c))
]

mutual
  unfolding IsClean IsCleanItems IsCleanFields redact redact_items redact_fields

  clean-redact : (v : Json) → IsClean v → redact v ≡ v
  clean-redact (Json.object fs) c = ap Json.object (clean-redact_fields fs c)
  clean-redact (Json.array vs) c = ap Json.array (clean-redact_items vs c)
  clean-redact v c = refl

  clean-redact_items : (vs : Items) → IsCleanItems vs → redact_items vs ≡ vs
  clean-redact_items Items.no_items c = refl
  clean-redact_items (Items.item v vs) (c, cs) =
      rw (clean-redact v c, clean-redact_items vs cs) refl

  clean-redact_fields : (fs : Fields) → IsCleanFields fs → redact_fields fs ≡ fs
  clean-redact_fields Fields.no_fields c = refl
  clean-redact_fields (Fields.field k v fs) (c, cs) =
      rw (clean-redact_fields fs cs, unmarked k v (redact v) c (clean-redact v)) refl

-- The redaction of a value holds the mark under every key that names a secret, at every depth, and a
-- value that is so already is its own redaction: redacting twice is redacting once.
pub redact-IsClean_idem : (v : Json) → IsClean (redact v) × (redact (redact v) ≡ redact v)
redact-IsClean_idem v = (redact-IsClean v, clean-redact (redact v) (redact-IsClean v))

-- Two values that differ at most below keys that name secrets.
mutual
  pub data Alike : Json → Json → Type 0 where
    same : (v : Json) → Alike v v
    objects : {fs gs : Fields} → AlikeFields fs gs → Alike (Json.object fs) (Json.object gs)
    arrays : {vs ws : Items} → AlikeItems vs ws → Alike (Json.array vs) (Json.array ws)

  pub data AlikeItems : Items → Items → Type 0 where
    no_items : AlikeItems Items.no_items Items.no_items
    both_items :
        {v w : Json} {vs ws : Items}
        → Alike v w
        → AlikeItems vs ws
        → AlikeItems (Items.item v vs) (Items.item w ws)

  pub data AlikeFields : Fields → Fields → Type 0 where
    no_fields : AlikeFields Fields.no_fields Fields.no_fields
    secret :
        {k : String} {v w : Json} {fs gs : Fields}
        → is_sensitive k ≡ true
        → AlikeFields fs gs
        → AlikeFields (Fields.field k v fs) (Fields.field k w gs)
    open_field :
        {k : String} {v w : Json} {fs gs : Fields}
        → Alike v w
        → AlikeFields fs gs
        → AlikeFields (Fields.field k v fs) (Fields.field k w gs)

mutual
  unfolding redact redact_items redact_fields

  alike : {v w : Json} → Alike v w → redact v ≡ redact w
  alike (Alike.same v) = refl
  alike (Alike.objects a) = ap Json.object (fields_alike a)
  alike (Alike.arrays a) = ap Json.array (items_alike a)

  items_alike : {vs ws : Items} → AlikeItems vs ws → redact_items vs ≡ redact_items ws
  items_alike AlikeItems.no_items = refl
  items_alike (AlikeItems.both_items a as') = rw (alike a, items_alike as') refl

  fields_alike : {fs gs : Fields} → AlikeFields fs gs → redact_fields fs ≡ redact_fields gs
  fields_alike AlikeFields.no_fields = refl
  fields_alike (AlikeFields.secret t as') = rw (t, fields_alike as') refl
  fields_alike (AlikeFields.open_field a as') = rw (alike a, fields_alike as') refl

-- Nothing below a key that names a secret has a part in the redaction: two values that differ at most
-- there, at any depth, have the same one.
pub redact-Alike : {v w : Json} → Alike v w → redact v ≡ redact w
redact-Alike a = alike a
