-- ===== src/Schedule/Quiet.antt =====
-- Calls of the repository while nobody else runs and none fails.
use umodel_sre_rca.Common.{Bool, true, false, refl, if◌then◌else◌, Result, ok, err, ◌≡◌, Error, []}
use umodel_sre_rca.Store.Tables.{Db, Tx}
use umodel_sre_rca.Store.Runs.{Yields, Raises}
use umodel_sre_rca.Store.Invariant.{apply_all}
use umodel_sre_rca.Schedule.{give, Codecs, World, W, repo, attempt, branch}

-- A world in which nobody interferes and no call fails.
abbrev pub still : Db → World
still db = record { db = db; turns = [] }

module _ (codecs : Codecs) {A : Type 0} (m : Tx A) (db : Db) where
  pub repo-ok :
      (a : A) (db' : Db)
      → Yields m db a db'
      → ◌≡◌ {A = Result A × World} (repo codecs m (still db)) (ok a, still db')
  unfolding repo apply_all
  repo-ok a db' h = rw h

  pub repo-err :
      (e : Error)
      → Raises m db e
      → ◌≡◌ {A = Result A × World} (repo codecs m (still db)) (err e, still db)
  unfolding repo apply_all
  repo-err e h = rw h

module _ (codecs : Codecs) {A B : Type 0} (m : Tx A) (bad : Error → W B) (good : A → W B)
    (db : Db) where
  pub repo_then :
      (a : A) (db' : Db)
      → Yields m db a db'
      → attempt (repo codecs m) bad good (still db) ≡ good a (still db')
  repo_then a db' h = rw (repo-ok codecs m db a db' h, branch)

  pub repo_else :
      (e : Error) → Raises m db e → attempt (repo codecs m) bad good (still db) ≡ bad e (still db)
  repo_else e h = rw (repo-err codecs m db e h, branch)

pub give_then :
    {A B : Type 0} (r : Result A) (bad : Error → W B) (good : A → W B) (w : World) (a : A)
    → r ≡ ok a
    → attempt (give r) bad good w ≡ good a w
give_then r bad good w a h = rw (h, branch)

pub give_else :
    {A B : Type 0} (r : Result A) (bad : Error → W B) (good : A → W B) (w : World) (e : Error)
    → r ≡ err e
    → attempt (give r) bad good w ≡ bad e w
give_else r bad good w e h = rw (h, branch)

pub if_else :
    {A : Type 0} (b : Bool) (m n : W A) (w : World) → b ≡ false → (if b then m else n) w ≡ n w
if_else b m n w h = rw h refl

pub if_then :
    {A : Type 0} (b : Bool) (m n : W A) (w : World) → b ≡ true → (if b then m else n) w ≡ m w
if_then b m n w h = rw h refl
