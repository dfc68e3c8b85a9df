-- ===== src/Platform/Security/Examples.antt =====
-- Concrete policies.
use apex_exec.Prelude.{ℕ, ◌≡◌, ◌≢◌, refl, Bool, true, false, some, [], ◌∷◌}
use apex_exec.Prelude.Text.{codes, lowercase, eq_ignore_case}
use apex_exec.Prelude.Map.{get, insert, contains, text_key}
use apex_exec.Platform.Record.{DataValue, Record, field}
use apex_exec.Platform.Security.{
  private, controlled_by_parent, ObjectSchema, SecurityUser, SecurityPolicy, user, read, edit,
  RecordGrant, Result, ok, err, unsupported, grant_record, set_role_parent, add_user, new, default,
}
use apex_exec.Platform.Security.Access.{
  access_at_least, grant_applies, owner_of, data_id, role_opens, can_access_record,
  role_visibility_walk, roles_of, walk_roles, user_has_role_visibility, principal_includes,
  is_owner, after_role, open_to_all, restricted_access, any_grant,
}
use apex_exec.Platform.Security.Hierarchy.{Judged, role_visibility_walk-Judged}
use apex_exec.Platform.Security.Permissions.{
  edit_implies_read, grant_record-keeps, grant_record-opens,
}

abbrev u1 : SecurityUser
u1 = record { user_id = codes "u1"; role_id = some (codes "CEO") }

abbrev u2 : SecurityUser
u2 = record { user_id = codes "u2"; role_id = some (codes "Rep") }

abbrev policy : SecurityPolicy
policy =
    set_role_parent (codes "Rep") (codes "VP")
      (set_role_parent (codes "VP") (codes "CEO") (add_user u1 (add_user u2 new)))

abbrev account : ObjectSchema
account = record { api_name = codes "Account"; sharing_model = private }

abbrev owned : Record
owned = record {
  id = codes "001";
  object_api_name = codes "Account";
  fields = (codes "ownerid", DataValue.id (codes "u2")) ∷ [];
}

abbrev to_u3 : RecordGrant
to_u3 = record {
  object = codes "account";
  record_id = codes "001";
  grantee = user (codes "U3");
  access = edit;
}

configured_policy : policy.configured ≡ true
unfolding add_user set_role_parent new
configured_policy = refl

owner_roles : roles_of policy (codes "u1") (codes "u2") ≡ some (codes "ceo", codes "rep")
unfolding roles_of get insert lowercase add_user set_role_parent new default
owner_roles = refl

role_visibility_walk-Judged_example :
    (r : Result (Bool × ℕ)) × ((role_visibility_walk policy (codes "u1") (codes "u2") ≡ some r)
      × Judged policy.role_parents (codes "ceo") (codes "rep") r)
role_visibility_walk-Judged_example =
    role_visibility_walk-Judged policy (codes "u1") (codes "u2") (codes "ceo") (codes "rep")
      (configured_policy) owner_roles

-- Two steps up the hierarchy.
manager_visible : role_visibility_walk policy (codes "u1") (codes "u2") ≡ some (ok (true, 2))
unfolding role_visibility_walk walk_roles roles_of get insert contains lowercase add_user
    set_role_parent new default
manager_visible = refl

rep_sees_nothing : user_has_role_visibility policy (codes "u2") (codes "u1") ≡ some (ok false)
unfolding user_has_role_visibility role_visibility_walk walk_roles roles_of get insert contains
    lowercase add_user set_role_parent new default
rep_sees_nothing = refl

abbrev cycle : SecurityPolicy
cycle =
    add_user (record { user_id = codes "u4"; role_id = some (codes "Audit") })
      (set_role_parent (codes "CEO") (codes "Rep") policy)

cycle_reported :
    user_has_role_visibility cycle (codes "u4") (codes "u1")
    ≡ some (err (unsupported (codes "cyclic role hierarchy")))
unfolding user_has_role_visibility role_visibility_walk walk_roles contains roles_of get insert
    lowercase add_user set_role_parent new default
cycle_reported = refl

manager_edits : can_access_record policy account owned (codes "u1") edit ≡ some (ok true)
unfolding can_access_record restricted_access any_grant open_to_all after_role role_opens owner_of
    field data_id is_owner eq_ignore_case user_has_role_visibility role_visibility_walk walk_roles
    roles_of get insert contains lowercase add_user set_role_parent new default
manager_edits = refl

edit_implies_read_example :
    can_access_record policy account owned (codes "u1") read ≡ some (ok true)
edit_implies_read_example = edit_implies_read policy account owned (codes "u1") manager_edits

grant_record-keeps_example :
    can_access_record (grant_record to_u3 policy) account owned (codes "u1") edit ≡ some (ok true)
grant_record-keeps_example =
    grant_record-keeps policy to_u3 account owned (codes "u1") edit manager_edits

u3_opens : role_opens policy (codes "u3") (owner_of owned) ≡ some (ok false)
unfolding role_opens owner_of field data_id user_has_role_visibility role_visibility_walk roles_of
    get insert lowercase add_user set_role_parent new default
u3_opens = refl

u3_applies : grant_applies policy account owned (codes "u3") edit to_u3 ≡ true
unfolding grant_applies eq_ignore_case lowercase access_at_least principal_includes
u3_applies = refl

account_private : account.sharing_model ≢ controlled_by_parent
account_private e = cc

grant_record-opens_example :
    can_access_record (grant_record to_u3 policy) account owned (codes "u3") edit ≡ some (ok true)
grant_record-opens_example =
    grant_record-opens policy to_u3 account owned (codes "u3") edit false configured_policy
      account_private u3_opens u3_applies
