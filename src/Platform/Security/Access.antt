-- ===== src/Platform/Security/Access.antt =====
-- Record visibility in src/platform/security.rs.
use apex_exec.Prelude.{
  ℕ, zero, suc, ◌+◌, Bool, true, false, not, ◌&&◌, ◌||◌, Option, none, some, List, [], ◌∷◌, ◌++◌,
  length, if◌then◌else◌,
}
use mathlib.Core.Option
use apex_exec.Prelude.Text.{Text, codes, text_eq, lowercase, eq_ignore_case}
use apex_exec.Prelude.Map.{Map, get, contains, text_key}
use apex_exec.Platform.Record.{DataValue, Record, field}
use apex_exec.Platform.Security.{
  SharingModel, public_read_only, public_read_write, controlled_by_parent, ObjectSchema,
  SecurityPrincipal, user, role, group, RecordAccess, read, edit, RecordGrant, SecurityPolicy,
  Result, ok, err, unavailable, unsupported,
}

unfoldable pub data_id : DataValue → Option Text
data_id (DataValue.id v) = some v
data_id (DataValue.string v) = some v
data_id _ = none

-- The loop of `role_visibility_walk`: the answer with the number of roles visited; `none` is fuel
-- that ran out.
unfoldable pub walk_roles : ℕ → Map Text Text → Text → Text → List Text → Option (Result (Bool × ℕ))
walk_roles zero parents viewer_role cursor visited = none
walk_roles (suc fuel) parents viewer_role cursor visited =
    if contains cursor visited
    then some (err (unsupported (codes "cyclic role hierarchy")))
    else elim (get cursor parents) [
      | none ↦ some (ok (false, length visited + 1))
      | some parent ↦
          if text_eq parent viewer_role
          then some (ok (true, length visited + 1))
          else walk_roles fuel parents viewer_role parent (cursor ∷ visited)
    ]

-- `let (Some(viewer_role), Some(owner_role)) = … else`
unfoldable pub roles_of : SecurityPolicy → Text → Text → Option (Text × Text)
roles_of p viewer_id owner_id = elim (get (lowercase viewer_id) p.users) [
  | none ↦ none
  | some viewer ↦ elim (get (lowercase owner_id) p.users) [
    | none ↦ none
    | some owner ↦ elim viewer.role_id [
      | none ↦ none
      | some viewer_role ↦ elim owner.role_id [
        | none ↦ none
        | some owner_role ↦ some (lowercase viewer_role, lowercase owner_role)
      ]
    ]
  ]
]

unfoldable pub role_visibility_walk : SecurityPolicy → Text → Text → Option (Result (Bool × ℕ))
role_visibility_walk p viewer_id owner_id =
    if p.configured
    then (elim (roles_of p viewer_id owner_id) [
      | none ↦ some (ok (false, 0))
      | some (viewer_role, owner_role) ↦
          walk_roles (length p.role_parents + 1) p.role_parents viewer_role owner_role []
    ])
    else some (err unavailable)

abbrev visible_part : Result (Bool × ℕ) → Result Bool
visible_part (ok r) = ok r.0
visible_part (err e) = err e

unfoldable pub user_has_role_visibility : SecurityPolicy → Text → Text → Option (Result Bool)
user_has_role_visibility p viewer_id owner_id =
    Option.map visible_part (role_visibility_walk p viewer_id owner_id)

unfoldable pub principal_includes : SecurityPolicy → SecurityPrincipal → Text → Bool
principal_includes p (user grantee) user_id = eq_ignore_case grantee user_id
principal_includes p (role r) user_id = elim (get (lowercase user_id) p.users) [
  | none ↦ false
  | some u ↦ elim u.role_id [ none ↦ false | some user_role ↦ eq_ignore_case user_role r ]
]
principal_includes p (group g) user_id = elim (get (lowercase g) p.groups) [
  | none ↦ false
  | some found ↦ contains (lowercase user_id) found.members
]

-- `grant.access >= required`
unfoldable pub access_at_least : RecordAccess → RecordAccess → Bool
access_at_least read edit = false
access_at_least _ _ = true

unfoldable pub grant_applies :
    SecurityPolicy → ObjectSchema → Record → Text → RecordAccess → RecordGrant → Bool
grant_applies p object r user_id required g =
    eq_ignore_case g.object object.api_name
    && text_eq g.record_id r.id
    && access_at_least g.access required
    && principal_includes p g.grantee user_id

unfoldable pub any_grant :
    SecurityPolicy → ObjectSchema → Record → Text → RecordAccess → List RecordGrant → Bool
any_grant p object r user_id required [] = false
any_grant p object r user_id required (g ∷ gs) =
    grant_applies p object r user_id required g || any_grant p object r user_id required gs

-- `record.field("OwnerId").and_then(data_id)`
unfoldable pub owner_of : Record → Option Text
owner_of r = elim (field (codes "OwnerId") r) [ none ↦ none | some v ↦ data_id v ]

unfoldable pub is_owner : Option Text → Text → Bool
is_owner none user_id = false
is_owner (some owner) user_id = eq_ignore_case owner user_id

-- Whether the owner's role lies below the user's; a record with no owner is not asked about.
unfoldable pub role_opens : SecurityPolicy → Text → Option Text → Option (Result Bool)
role_opens p user_id none = some (ok false)
role_opens p user_id (some owner) = user_has_role_visibility p user_id owner

-- The rest of `can_access_record` once the role is known: its error, or the grants.
unfoldable pub after_role : Bool → Result Bool → Result Bool
after_role granted (err e) = err e
after_role granted (ok visible) = ok (visible || granted)

-- What the sharing model settles by itself.
unfoldable pub open_to_all : SharingModel → RecordAccess → Bool
open_to_all public_read_write required = true
open_to_all public_read_only read = true
open_to_all _ _ = false

unfoldable pub restricted_access :
    SecurityPolicy → ObjectSchema → Record → Text → RecordAccess → Option (Result Bool)
restricted_access p object r user_id required =
    if is_owner (owner_of r) user_id
    then some (ok true)
    else if not p.configured
    then some (ok false)
    else Option.map (after_role (any_grant p object r user_id required p.grants))
        (role_opens p user_id (owner_of r))

unfoldable pub can_access_record :
    SecurityPolicy → ObjectSchema → Record → Text → RecordAccess → Option (Result Bool)
can_access_record p object r user_id required = elim object.sharing_model [
  | controlled_by_parent ↦ some (
      err (
        unsupported
          (codes "controlled-by-parent visibility for `" ++ object.api_name ++ codes "`")))
  | model ↦
      if open_to_all model required
      then some (ok true)
      else restricted_access p object r user_id required
]
