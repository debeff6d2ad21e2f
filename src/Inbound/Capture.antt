-- ===== src/Inbound/Capture.antt =====
-- internal/inbound/cloudmonitor.go: storing a callback without its secrets. encoding/json, the clock,
-- the random source and the errors of the file system are parameters.
pub mod Redacted
pub mod Kept
use umodel_sre_rca.Common.{
  Result, ok, err, Error, ◌==◌, ◌&&◌, ◌||◌, ◌-◌, ◌+◌, Bool, List, Option, [], exists_where, failure,
  false, if◌then◌else◌, none, not, some, true, ℕ, ◌∷◌, eqb,
}
use mathlib.Core.List.{◌++◌ as ◌++ᴸ◌}
use Prim.Native.String.{String, ◌++◌}
use umodel_sre_rca.Analysis.{codes, between}
use umodel_sre_rca.Json.{Json, Items, Fields}

-- The letter that `(?i)` compares: that of a capital, of the long s and of the sign of the kelvin.
abbrev pub fold : ℕ → ℕ
fold c =
    if between b'A' b'Z' c
    then c + 32
    else if eqb c 0x17f
    then b's'
    else if eqb c 0x212a
    then b'k'
    else c

abbrev pub begins_with : List ℕ → List ℕ → Bool
begins_with [] cs = true
begins_with (w ∷ ws) [] = false
begins_with (w ∷ ws) (c ∷ cs) = eqb (fold c) w && begins_with ws cs

abbrev pub begins_with_any : List (List ℕ) → List ℕ → Bool
begins_with_any [] cs = false
begins_with_any (w ∷ ws) cs = begins_with w cs || begins_with_any ws cs

abbrev pub contains_any : List (List ℕ) → List ℕ → Bool
contains_any words [] = false
contains_any words (c ∷ cs) = begins_with_any words (c ∷ cs) || contains_any words cs

-- The texts that `sensitiveKey` matches, `access[_-]?key` written out.
abbrev pub sensitive_words : List (List ℕ)
sensitive_words =
    codes "secret"
    ∷ codes "password"
    ∷ codes "authorization"
    ∷ codes "accesskey"
    ∷ codes "access_key"
    ∷ codes "access-key"
    ∷ codes "signature"
    ∷ codes "cookie"
    ∷ codes "token"
    ∷ []

unfoldable pub is_sensitive : String → Bool
is_sensitive key = contains_any sensitive_words (codes key)

unfoldable mutual
  unfolding is_sensitive

  pub redact : Json → Json
  redact (Json.object fs) = Json.object (redact_fields fs)
  redact (Json.array vs) = Json.array (redact_items vs)
  redact v = v

  pub redact_items : Items → Items
  redact_items Items.no_items = Items.no_items
  redact_items (Items.item v vs) = Items.item (redact v) (redact_items vs)

  pub redact_fields : Fields → Fields
  redact_fields Fields.no_fields = Fields.no_fields
  redact_fields (Fields.field k v fs) =
      let value = redact v in
      Fields.field k (if is_sensitive k then Json.text "[REDACTED]" else value) (redact_fields fs)

-- A file is its path and its content.
abbrev pub Files : Type 0
Files = List (String × String)

-- The surroundings of one Save. `decode` gives the next value of a text and the rest, `ends` says
-- that the next Decode meets io.EOF, `join_path` is filepath.Join, and `write` what of a text
-- reaches the file, with the error.
pub record Surroundings : Type 0 where
  pub cancelled : Option Error
  pub decode : String → Option (Json × String)
  pub ends : String → Bool
  pub marshal_indent : Json → Option String
  pub mkdir_all : String → Result (Unit {0})
  pub random : Result String
  pub now : String
  pub join_path : String → String → String
  pub open_error : String → Option Error
  pub write : String → String × Option Error

abbrev pub is_object : Json → Bool
is_object (Json.object fs) = true
is_object v = false

abbrev pub has_path : String → Files → Bool
has_path path files = exists_where (λ (f : String × String). f.0 == path) files

-- `random` is the hexadecimal text of six random bytes.
unfoldable pub fixture_id : Surroundings → Result String
fixture_id s = elim s.random [
  | err e ↦ err e
  | ok bytes ↦ ok ("cloudmonitor-" ++ s.now ++ "-" ++ bytes)
]

module _ (s : Surroundings) (dir : String) where
  abbrev pub written : String → Option Error → Result String
  written id none = ok id
  written id (some e) = err e

  -- OpenFile with O_CREATE and O_EXCL, and Write.
  unfoldable pub create_file : String → String → String → Files → Result String × Files
  create_file id path content files =
      if has_path path files
      then (err (failure "file exists"), files)
      else elim (s.open_error path) [
        | some e ↦ (err e, files)
        | none ↦ let out = s.write content in (written id out.1, files ++ᴸ (path, out.0) ∷ [])
      ]

  unfoldable pub store_fixture : Json → Files → Result String × Files
  store_fixture payload files = elim (s.marshal_indent (redact payload)) [
    | none ↦ (err (failure "marshal fixture"), files)
    | some encoded ↦ elim (s.mkdir_all dir) [
      | err e ↦ (err e, files)
      | ok _ ↦ elim (fixture_id s) [
        | err e ↦ (err e, files)
        | ok id ↦ create_file id (s.join_path dir (id ++ ".json")) (encoded ++ "\n") files
      ]
    ]
  ]

  abbrev pub save_decoded : Option (Json × String) → Files → Result String × Files
  unfolding store_fixture
  save_decoded none files = (err (failure "callback body must be valid JSON"), files)
  save_decoded (some (payload, rest)) files =
      if not (s.ends rest)
      then (err (failure "callback body must contain exactly one JSON value"), files)
      else if not (is_object payload)
      then (err (failure "callback body must be a JSON object"), files)
      else store_fixture payload files

  unfoldable pub save : String → Files → Result String × Files
  unfolding save_decoded
  save raw files = elim s.cancelled [
    | some e ↦ (err e, files)
    | none ↦
        if dir == ""
        then (err (failure "callback capture directory is not configured"), files)
        else save_decoded (s.decode raw) files
  ]
