-- ===== src/Jobs.antt =====
-- overstate_ui/models.py: the tables behind overstate_ui/jobs_service.py, with the database that the
-- access checks read. Times count microseconds, the resolution of Python's datetimes. A column that
-- no modelled code reads is left out.
pub mod Roster
pub mod Verdicts
pub mod Sync
pub mod Args
pub mod Launch
pub mod Batched
pub mod Examples
use overstate.Prelude.{
  Bool, List, Option, String, [], if◌then◌else◌, none, some, ℕ, ◌&&◌, ◌==◌, ◌∷◌, keep,
}
use overstate.Json.{Json}
use overstate.Store.{World}

pub record Job : Type 0 where
  pub jid : String
  pub fun : String
  pub tgt : String
  pub tgt_type : String
  pub user : String
  pub started_at : ℕ
  pub complete : Bool
  pub batch_group : Option String
  pub tgt_requested : Option String

pub record JobReturn : Type 0 where
  pub jid : String
  pub minion_id : String
  pub success : Bool
  pub retcode : ℕ
  pub payload : Json

-- What the master's returner writes. `jid` and `minion_id` are its key.
pub record SaltReturn : Type 0 where
  pub jid : String
  pub minion_id : String
  pub fun : String
  pub success : String
  pub payload : Json
  pub alter_time : Option ℕ

-- The JSON document in `minions.conformity`, as the code writes it.
pub record Conformity : Type 0 where
  pub status : String
  pub jid : String
  pub checked_at : Option ℕ
  pub targeted : Bool
  pub partial : Bool

pub record Verdict : Type 0 where
  pub minion_id : String
  pub jid : String
  pub status : String
  pub checked_at : ℕ

-- `conformity` is a column of the minions, empty where no pair is listed; `history` stands newest
-- first.
pub record Tables : Type 0 where
  pub world : World
  pub jobs : List Job
  pub job_returns : List JobReturn
  pub salt_returns : List SaltReturn
  pub conformity : List (String × Conformity)
  pub history : List Verdict
  pub watched : List String

-- `session.get(Job, jid)`
unfoldable pub job_by_jid : List Job → String → Option Job
job_by_jid [] jid = none
job_by_jid (j ∷ js) jid = if j.jid == jid then some j else job_by_jid js jid

-- `job.complete = value`
unfoldable pub set_complete : String → Bool → List Job → List Job
set_complete jid value [] = []
set_complete jid value (j ∷ js) =
    (if j.jid == jid then record j { complete = value } else j) ∷ set_complete jid value js

-- `session.query(SaltReturn).filter_by(jid=jid).all()`
unfoldable pub returner_rows : List SaltReturn → String → List SaltReturn
unfolding keep
returner_rows rows jid = keep (λ r. r.jid == jid) rows

-- `session.query(JobReturn).filter_by(jid=jid, minion_id=mid).first()`
unfoldable pub find_return : List JobReturn → String → String → Option JobReturn
find_return [] jid mid = none
find_return (r ∷ rs) jid mid =
    if r.jid == jid && r.minion_id == mid then some r else find_return rs jid mid

-- `(row.conformity or {})`
unfoldable pub conformity_of : List (String × Conformity) → String → Option Conformity
conformity_of [] mid = none
conformity_of ((id, c) ∷ rows) mid = if id == mid then some c else conformity_of rows mid

-- `row.conformity = {...}`
unfoldable pub set_conformity :
    String → Conformity → List (String × Conformity) → List (String × Conformity)
set_conformity mid c [] = (mid, c) ∷ []
set_conformity mid c ((id, d) ∷ rows) =
    if id == mid then (mid, c) ∷ rows else (id, d) ∷ set_conformity mid c rows
