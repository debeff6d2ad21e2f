-- ===== src/Schedule/Steps.antt =====
-- An action that leaves the database by allowed steps only, whatever the schedule is.
use umodel_sre_rca.Common.{
  Result, ok, err, Bool, Error, List, Option, Option-cases, String, [], false, find_where,
  if◌then◌else◌, inl, inr, none, some, true, ◌∷◌,
}
use umodel_sre_rca.Schedule.{
  Codecs, Turn, W, World, alone, attempt, branch, give, on_turn, repo, take_turn,
}
use umodel_sre_rca.Store.Tables.{Db, Tx, has_id}
use umodel_sre_rca.Store.Keeps.{
  Keeps, Keeps-look, Keeps-pure, Keeps-raise, Step, Step-refl, Step-trans,
}
use umodel_sre_rca.Store.Invariant.{after-Step, apply_all, apply_all-Step}
use umodel_sre_rca.Store.Intake.{incident_by_id, one}

pub record Follows {A : Type 0} (m : W A) : Type 0 where
  pub at : (w : World) → Step w.db (m w).1.db

pub Follows-give : {A : Type 0} (r : Result A) → Follows (give r)
Follows-give r = record { at = λ w. Step-refl w.db }

pub Follows-if :
    {A : Type 0} (b : Bool) (m n : W A) → Follows m → Follows n → Follows (if b then m else n)
Follows-if true m n h k = h
Follows-if false m n h k = k

pub Follows-attempt :
    {A B : Type 0} (m : W A) (bad : Error → W B) (good : A → W B)
    → Follows m
    → ((e : Error) → Follows (bad e))
    → ((a : A) → Follows (good a))
    → Follows (attempt m bad good)
Follows-attempt {A} {B} m bad good h k l = record { at = λ w. go w (m w) (h.at w) }
  where
    go : (w : World) (r : Result A × World) → Step w.db r.1.db → Step w.db (branch bad good r).1.db
    go w (err e, w') s = Step-trans w.db w'.db _ s ((k e).at w')
    go w (ok a, w') s = Step-trans w.db w'.db _ s ((l a).at w')

module _ (codecs : Codecs) where
  on_turn-Step :
      {A : Type 0} (m : Tx A) (t : Turn) (ts : List Turn) (w : World)
      → Keeps m
      → Step w.db (on_turn codecs m t ts w).1.db
  on_turn-Step m t ts w k =
      let db = apply_all codecs.marshal codecs.encode t.meanwhile w.db in
      let first : Step w.db db = apply_all-Step codecs.marshal codecs.encode t.meanwhile w.db in
      elim (Option-cases t.fault) [
        | inl n ↦ rw n (Step-trans w.db db _ first (after-Step m k db))
        | inr (text, e) ↦ rw e first
      ]

  pub Follows-repo : {A : Type 0} (m : Tx A) → Keeps m → Follows (repo codecs m)
  unfolding repo
  Follows-repo m k = record { at = λ w. go w w.turns }
    where
      go : (w : World) (ts : List Turn) → Step w.db (take_turn codecs m ts w).1.db
      go w [] = on_turn-Step m (alone codecs) [] w k
      go w (t ∷ ts) = on_turn-Step m t ts w k

  pub Follows-reading :
      {A : Type 0} (o : Db → Option A) → Follows (repo codecs (λ db. one (o db) db))
  Follows-reading o = Follows-repo _ (Keeps-look (λ db. one (o db)) λ db. reads (o db))
    where
      reads : {A : Type 0} (o : Option A) → Keeps (one o)
      reads none = Keeps-raise _
      reads (some a) = Keeps-pure a

  pub Follows-incident : (id : String) → Follows (repo codecs (incident_by_id id))
  unfolding incident_by_id
  Follows-incident id = Follows-reading λ db. find_where (has_id id) db.incidents
