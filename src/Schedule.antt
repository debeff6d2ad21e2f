-- ===== src/Schedule.antt =====
-- The database that the gateway and the workers share, and their calls of the repository. Other
-- processes may run any repository operations before each call, and a call may fail without effect;
-- both are the schedule that the world carries.
pub mod Steps
pub mod Quiet
use umodel_sre_rca.Common.{
  Result, ok, err, Error, List, Option, String, [], failure, none, some, ◌∷◌,
}
use umodel_sre_rca.Store.Tables.{Db, Tx, run}
use umodel_sre_rca.Domain.{Evidence, RcaResult}
use umodel_sre_rca.Store.Invariant.{Op, apply_all}

-- One call of the repository: what others do before it, and the driver's error if it fails.
pub record Turn : Type 0 where
  pub meanwhile : List Op
  pub fault : Option String

pub record World : Type 0 where
  pub db : Db
  pub turns : List Turn

-- encoding/json on a result and on an evidence item; `none` is a failure.
pub record Codecs : Type 0 where
  pub marshal : RcaResult → Option String
  pub encode : Evidence → Option String

abbrev pub W : Type 0 → Type 0
W A = World → Result A × World

-- Go's `if err != nil`: both continuations are given.
abbrev pub branch : {A B : Type 0} → (Error → W B) → (A → W B) → Result A × World → Result B × World
branch bad good (err e, w) = bad e w
branch bad good (ok a, w) = good a w

abbrev pub attempt : {A B : Type 0} → W A → (Error → W B) → (A → W B) → W B
attempt m bad good w = branch bad good (m w)

-- A result, or a call that leaves the world alone.
abbrev pub give : {A : Type 0} → Result A → W A
give r w = (r, w)

module _ (codecs : Codecs) where
  -- A call that fails has no effect but what others did before it.
  abbrev pub on_turn : {A : Type 0} → Tx A → Turn → List Turn → World → Result A × World
  on_turn m turn rest w =
      let db = apply_all codecs.marshal codecs.encode turn.meanwhile w.db in
      elim turn.fault [
        | some text ↦ (err (failure text), record { db = db; turns = rest })
        | none ↦ ((run m db).0, record { db = (run m db).1; turns = rest })
      ]

  abbrev pub alone : Turn
  alone = record { meanwhile = []; fault = none }

  abbrev pub take_turn : {A : Type 0} → Tx A → List Turn → World → Result A × World
  take_turn m [] w = on_turn m alone [] w
  take_turn m (t ∷ ts) w = on_turn m t ts w

  -- A call of the repository. When the schedule is used up, nobody interferes any more.
  unfoldable pub repo : {A : Type 0} → Tx A → W A
  unfolding apply_all
  repo m w = take_turn m w.turns w
