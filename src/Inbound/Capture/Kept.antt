-- ===== src/Inbound/Capture/Kept.antt =====
-- What Save does to the files.
use umodel_sre_rca.Common.{
  ◌≡◌, err, Result, Error, refl, Bool-cases, inl, inr, ◌⊎◌, ◌∷◌, [], true, false, some, ◌==◌,
  failure, Option-cases, Result-cases,
}
use mathlib.Core.List.{◌++◌ as ◌++ᴸ◌}
use Prim.Native.String.{String, ◌++◌}
use umodel_sre_rca.Json.{Json}
use umodel_sre_rca.Inbound.Capture.{
  Files, Surroundings, save, redact, has_path, is_object, written, create_file, store_fixture,
  fixture_id,
}

-- A Save that makes the file `path` for the callback `raw`.
pub record Stores (s : Surroundings) (dir raw : String) (files : Files) : Type 0 where
  pub payload : Json
  pub rest : String
  pub encoded : String
  pub id : String
  pub decoded : s.decode raw ≡ some (payload, rest)
  pub alone : s.ends rest ≡ true
  pub object : is_object payload ≡ true
  pub shown : s.marshal_indent (redact payload) ≡ some encoded
  pub fresh : has_path (s.join_path dir (id ++ ".json")) files ≡ false
  pub result : save s dir raw files ≡ (
    written s dir id (s.write (encoded ++ "\n")).1,
    files ++ᴸ (s.join_path dir (id ++ ".json"), (s.write (encoded ++ "\n")).0) ∷ [],
  )

module _ (s : Surroundings) (dir : String) (files : Files) where
  abbrev Refused : Result String × Files → Type 0
  Refused r = (e : Error) × (r ≡ (err e, files))

  creates :
      (id path content : String)
      → Refused (create_file s dir id path content files)
        ⊎ ((has_path path files ≡ false)
            × (create_file s dir id path content files ≡ (
              written s dir id (s.write content).1,
              files ++ᴸ (path, (s.write content).0) ∷ [],
            )))
  unfolding create_file
  creates id path content = elim (Bool-cases (has_path path files)) [
    | inl t ↦ inl (failure "file exists", rw t refl)
    | inr f ↦ elim (Option-cases (s.open_error path)) [
      | inl n ↦ inr (f, rw (f, n) refl)
      | inr (e, o) ↦ inl (e, rw (f, o) refl)
    ]
  ]

  stores :
      (payload : Json)
      → Refused (store_fixture s dir payload files)
        ⊎ ((encoded : String) × (id : String) × (s.marshal_indent (redact payload) ≡ some encoded)
            × (has_path (s.join_path dir (id ++ ".json")) files ≡ false)
            × (store_fixture s dir payload files ≡ (
              written s dir id (s.write (encoded ++ "\n")).1,
              files ++ᴸ (s.join_path dir (id ++ ".json"), (s.write (encoded ++ "\n")).0) ∷ [],
            )))
  unfolding store_fixture
  stores payload = elim (Option-cases (s.marshal_indent (redact payload))) [
    | inl n ↦ inl (failure "marshal fixture", rw (store_fixture, n) refl)
    | inr (encoded, m) ↦ elim (Result-cases (s.mkdir_all dir)) [
      | inl (e, k) ↦ inl (e, rw (store_fixture, m, k) refl)
      | inr (_, k) ↦ elim (Result-cases (fixture_id s)) [
        | inl (e, i) ↦ inl (e, rw (store_fixture, m, k, i) refl)
        | inr (id, i) ↦ elim (creates id (s.join_path dir (id ++ ".json")) (encoded ++ "\n")) [
          | inl (e, c) ↦ inl (e, rw (store_fixture, m, k, i) c)
          | inr (fresh, c) ↦ inr (encoded, id, m, fresh, rw (store_fixture, m, k, i) c)
        ]
      ]
    ]
  ]

-- Save either returns an error and leaves the files alone, or the callback is a single JSON object and
-- one file is added under a name that no file had, with what is written of the redacted callback; it
-- then returns the file's identifier, or the error of the writing. No file is ever replaced.
pub save-cases :
    (s : Surroundings) (dir raw : String) (files : Files)
    → ((e : Error) × (save s dir raw files ≡ (err e, files))) ⊎ Stores s dir raw files
unfolding save create_file fixture_id
save-cases s dir raw files = elim (Option-cases s.cancelled) [
  | inr (e, c) ↦ inl (e, rw c refl)
  | inl c ↦ elim (Bool-cases (dir == "")) [
    | inl d ↦ inl (failure "callback capture directory is not configured", rw (c, d) refl)
    | inr d ↦ elim (Option-cases (s.decode raw)) [
      | inl n ↦ inl (failure "callback body must be valid JSON", rw (c, d, n) refl)
      | inr ((payload, rest), p) ↦ elim (Bool-cases (s.ends rest)) [
        | inr x ↦
            inl (failure "callback body must contain exactly one JSON value", rw (c, d, p, x) refl)
        | inl x ↦ elim (Bool-cases (is_object payload)) [
          | inr o ↦ inl (failure "callback body must be a JSON object", rw (c, d, p, x, o) refl)
          | inl o ↦ elim (stores s dir files payload) [
            | inl (e, r) ↦ inl (e, rw (c, d, p, x, o) r)
            | inr (encoded, id, m, fresh, r) ↦ inr (record {
              payload = payload;
              rest = rest;
              encoded = encoded;
              id = id;
              decoded = p;
              alone = x;
              object = o;
              shown = m;
              fresh = fresh;
              result = rw (c, d, p, x, o) r;
            })
          ]
        ]
      ]
    ]
  ]
]
