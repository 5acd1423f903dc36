-- ===== src/Store.antt =====
-- The rows that the access checks read, after overstate_ui/models.py, with what else a request
-- sees: the app configuration, the environment and the JSON decoder. Columns that no modelled code
-- reads (timestamps, key status, conformity, password hashes) are left out.
use overstate.Prelude.{
  ℕ, String, Bool, Option, none, some, List, [], ◌∷◌, ◌==◌, ◌=?◌, if◌then◌else◌,
}
use overstate.Json.{Json}

pub record User : Type 0 where
  pub id : ℕ
  pub username : String
  pub role : String
  pub kind : String

pub record Minion : Type 0 where
  pub id : String
  pub grains : Json

pub record MinionGroup : Type 0 where
  pub id : ℕ
  pub name : String
  pub members : Json

-- The subject columns are `subject_user_id` and `subject_group_id`; one of them is null.
pub record Grant : Type 0 where
  pub id : ℕ
  pub subject_kind : String
  pub subject_user_id : Option ℕ
  pub subject_group_id : Option ℕ
  pub role : String
  pub scope_kind : String
  pub scope_value : String
  pub source : String
  pub created_by : Option ℕ

pub record IdpRoleMapping : Type 0 where
  pub idp_group : String
  pub role : String
  pub scope_kind : String
  pub scope_value : String
  pub origin : String

pub record LocalGroup : Type 0 where
  pub id : ℕ
  pub name : String

pub record LocalGroupMember : Type 0 where
  pub group_id : ℕ
  pub user_id : ℕ

pub record UserIdpGroup : Type 0 where
  pub user_id : ℕ
  pub group_name : String

pub record AuditEvent : Type 0 where
  pub user : String
  pub action : String
  pub outcome : Option String
  pub permission : Option String
  pub minion_id : Option String
  pub detail : Option String

-- The database and the process around a request. `json_loads` is `json.loads`, none where it
-- raises; `show` is `str` of a list or dict. The `next_` fields are the ids that the database gives
-- to the next row of a table.
pub record World : Type 0 where
  pub users : List User
  pub minions : List Minion
  pub minion_groups : List MinionGroup
  pub grants : List Grant
  pub mappings : List IdpRoleMapping
  pub local_groups : List LocalGroup
  pub local_group_members : List LocalGroupMember
  pub user_idp_groups : List UserIdpGroup
  pub settings : List (String × String)
  pub audit_events : List AuditEvent
  pub next_user_id : ℕ
  pub next_group_id : ℕ
  pub next_grant_id : ℕ
  pub has_app_context : Bool
  pub has_request_context : Bool
  pub config : String → String
  pub environ : String → String
  pub json_loads : String → Option Json
  pub show : Json → String

-- `session.get(Setting, key)`
unfoldable pub setting_row : List (String × String) → String → Option String
setting_row [] key = none
setting_row ((k, v) ∷ rows) key = if k == key then some v else setting_row rows key

-- `session.get(MinionGroup, id)`
unfoldable pub group_by_id : List MinionGroup → ℕ → Option MinionGroup
group_by_id [] id = none
group_by_id (g ∷ gs) id = if g.id =? id then some g else group_by_id gs id

-- `session.query(MinionGroup).filter_by(name=name).first()`
unfoldable pub group_by_name : List MinionGroup → String → Option MinionGroup
group_by_name [] name = none
group_by_name (g ∷ gs) name = if g.name == name then some g else group_by_name gs name

-- `session.get(User, uid)`
unfoldable pub user_by_id : List User → ℕ → Option User
user_by_id [] uid = none
user_by_id (u ∷ us) uid = if u.id =? uid then some u else user_by_id us uid
