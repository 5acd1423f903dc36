-- ===== src/Authz/Sample.antt =====
-- A small fleet with grants, which the examples run on.
use overstate.Prelude.{String, [], none, some, true, ℕ, ◌∷◌}
use overstate.Json.{Json, str, arr, cons, nil, obj, field, end}
use overstate.Store.{World, User, Grant}
use overstate.Authz.Memo.{Memo}

abbrev pub lead : User
lead = record { id = 1; username = "lead"; role = "scoped"; kind = "human" }

abbrev pub boss : User
boss = record { id = 2; username = "boss"; role = "admin"; kind = "human" }

abbrev pub guest : User
guest = record { id = 3; username = "guest"; role = "none"; kind = "human" }

abbrev pub editor : User
editor = record { id = 4; username = "editor"; role = "scoped"; kind = "human" }

abbrev pub odd : User
odd = record { id = 5; username = "odd"; role = "scoped"; kind = "human" }

abbrev pub user_grant : ℕ → ℕ → String → String → String → Grant
user_grant gid uid role scope_kind scope_value = record {
  id = gid;
  subject_kind = "user";
  subject_user_id = some uid;
  subject_group_id = none;
  role = role;
  scope_kind = scope_kind;
  scope_value = scope_value;
  source = "manual";
  created_by = none;
}

abbrev os_grain : String → Json
os_grain os = obj (field "os" (str os) (field "secret" (str "x") end))

abbrev pub site : World
site = record {
  users = lead ∷ boss ∷ guest ∷ editor ∷ odd ∷ [];
  minions =
      record { id = "web-1"; grains = os_grain "Debian" }
      ∷ record { id = "web-2"; grains = os_grain "Debian" }
      ∷ record { id = "db-1"; grains = os_grain "Rocky" }
      ∷ [];
  minion_groups =
      record { id = 7; name = "webs"; members = arr (cons (str "web-1") (cons (str "gone") nil)) }
      ∷ [];
  grants =
      user_grant 1 1 "team-lead" "glob" "web-*"
      ∷ user_grant 2 2 "admin" "fleet" "*"
      ∷ user_grant 3 4 "file-editor" "prefix" "apps"
      ∷ user_grant 4 5 "viewer" "prefix" "apps"
      ∷ record {
        id = 5;
        subject_kind = "local_group";
        subject_user_id = none;
        subject_group_id = some 9;
        role = "team-viewer";
        scope_kind = "glob";
        scope_value = "web-*";
        source = "manual";
        created_by = none;
      }
      ∷ [];
  mappings = [];
  local_groups = record { id = 9; name = "duty" } ∷ [];
  local_group_members = [];
  user_idp_groups = [];
  settings = ("rbac_mode", "scoped") ∷ ("rbac_role_fallback", " ") ∷ [];
  audit_events = [];
  next_user_id = 6;
  next_group_id = 10;
  next_grant_id = 6;
  has_app_context = true;
  has_request_context = true;
  config = λ _. "";
  environ = λ _. "";
  json_loads = λ _. none;
  show = λ _. "";
}

abbrev pub no_memo : Memo
no_memo = record { grant_entries = none; authz_cache = none }
