-- ===== src/Platform/Security.antt =====
-- src/platform/security.rs: who may see and change what.
pub mod Access
pub mod Hierarchy
pub mod Permissions
mod Examples
use apex_exec.Prelude.{
  ℕ, zero, suc, ◌+◌, Bool, true, false, not, ◌&&◌, ◌||◌, Option, none, some, List, [], ◌∷◌, ◌++◌,
  length, if◌then◌else◌,
}
use apex_exec.Prelude.Text.{Text, codes, text_eq, lowercase, eq_ignore_case}
use apex_exec.Prelude.Map.{Map, get, insert, contains, text_key, pair_key}
use apex_exec.Platform.Record.{DataValue, Record, field}

pub data SharingModel : Type 0 where
  private public_read_only public_read_write controlled_by_parent : SharingModel

-- What the policy asks of `ObjectSchema`.
pub record ObjectSchema : Type 0 where
  pub api_name : Text
  pub sharing_model : SharingModel

pub data AccessType : Type 0 where
  readable creatable updatable : AccessType

pub record ObjectPermissions : Type 0 where
  pub can_read : Bool
  pub can_create : Bool
  pub can_update : Bool
  pub can_delete : Bool

abbrev pub no_permissions : ObjectPermissions
no_permissions = record {
  can_read = false;
  can_create = false;
  can_update = false;
  can_delete = false;
}

unfoldable pub permits : ObjectPermissions → AccessType → Bool
permits p readable = p.can_read
permits p creatable = p.can_create
permits p updatable = p.can_update

pub record FieldPermissions : Type 0 where
  pub can_read : Bool
  pub can_create : Bool
  pub can_update : Bool

abbrev pub no_field_permissions : FieldPermissions
no_field_permissions = record { can_read = false; can_create = false; can_update = false }

unfoldable pub field_permits : FieldPermissions → AccessType → Bool
field_permits p readable = p.can_read
field_permits p creatable = p.can_create
field_permits p updatable = p.can_update

pub record SecurityUser : Type 0 where
  pub user_id : Text
  pub role_id : Option Text

pub record SecurityGroup : Type 0 where
  pub group_id : Text
  pub members : List Text

pub data SecurityPrincipal : Type 0 where
  user role group : Text → SecurityPrincipal

pub data RecordAccess : Type 0 where
  read edit : RecordAccess

pub record RecordGrant : Type 0 where
  pub object : Text
  pub record_id : Text
  pub grantee : SecurityPrincipal
  pub access : RecordAccess

pub record SecurityPolicy : Type 0 where
  pub configured : Bool
  pub users : Map Text SecurityUser
  pub role_parents : Map Text Text
  pub groups : Map Text SecurityGroup
  pub object_permissions : Map (Text × Text) ObjectPermissions
  pub field_permissions : Map (Text × (Text × Text)) FieldPermissions
  pub grants : List RecordGrant

pub data SecurityError : Type 0 where
  unavailable : SecurityError
  unknown_group unsupported access_denied : Text → SecurityError

pub data Result (A : Type 0) : Type 0 where
  ok : A → Result A
  err : SecurityError → Result A

infixl 5 ◌>>=◌
abbrev pub ◌>>=◌ : {A B : Type 0} → Result A → (A → Result B) → Result B
ok a >>= f = f a
err e >>= f = err e

-- `SecurityPolicy::default` and `SecurityPolicy::new`
unfoldable pub default : SecurityPolicy
default = record {
  configured = false;
  users = [];
  role_parents = [];
  groups = [];
  object_permissions = [];
  field_permissions = [];
  grants = [];
}

unfoldable pub new : SecurityPolicy
unfolding default
new = record default { configured = true }

unfoldable pub add_user : SecurityUser → SecurityPolicy → SecurityPolicy
add_user u p = record p { users = insert (lowercase u.user_id) u p.users }

unfoldable pub set_role_parent : Text → Text → SecurityPolicy → SecurityPolicy
set_role_parent child parent p = record p {
  role_parents = insert (lowercase child) (lowercase parent) p.role_parents;
}

unfoldable pub add_group : SecurityGroup → SecurityPolicy → SecurityPolicy
add_group g p = record p { groups = insert (lowercase g.group_id) g p.groups }

-- A set: a member that is there is not added again.
abbrev insert_member : Text → List Text → List Text
insert_member m s = if contains m s then s else m ∷ s

unfoldable pub add_group_member : Text → Text → SecurityPolicy → Result SecurityPolicy
add_group_member group_id user_id p = elim (get (lowercase group_id) p.groups) [
  | none ↦ err (unknown_group group_id)
  | some g ↦ ok (record p {
    groups =
        insert (lowercase group_id)
          (record g { members = insert_member (lowercase user_id) g.members }) p.groups;
  })
]

unfoldable pub set_object_permissions :
    Text → Text → ObjectPermissions → SecurityPolicy → SecurityPolicy
set_object_permissions user_id object permissions p = record p {
  object_permissions =
      insert (lowercase user_id, lowercase object) permissions p.object_permissions;
}

unfoldable pub grant_record : RecordGrant → SecurityPolicy → SecurityPolicy
grant_record g p = record p { grants = p.grants ++ g ∷ [] }

unfoldable pub require_configured : SecurityPolicy → Result (Unit {0})
require_configured p = if p.configured then ok tt else err unavailable

unfoldable pub set_field_permissions :
    Text → Text → Text → FieldPermissions → SecurityPolicy → SecurityPolicy
set_field_permissions user_id object field permissions p = record p {
  field_permissions =
      insert (lowercase user_id, (lowercase object, lowercase field)) permissions
        p.field_permissions;
}

-- `.or_else(…)`, and `.unwrap_or_default()`
abbrev pub or_else : {A : Type 0} → Option A → Option A → Option A
or_else none o = o
or_else (some v) o = some v

abbrev pub or_default : {A : Type 0} → A → Option A → A
or_default d none = d
or_default d (some v) = v

unfoldable pub permissions_of : Text → Text → SecurityPolicy → Result ObjectPermissions
unfolding require_configured
permissions_of user_id object p = do
  _ ← require_configured p
  ok (
      or_default no_permissions (
        or_else (get (lowercase user_id, lowercase object) p.object_permissions)
          (get (lowercase (codes "*"), lowercase object) p.object_permissions)))

unfoldable pub field_permissions_of : Text → Text → Text → SecurityPolicy → Result FieldPermissions
unfolding require_configured
field_permissions_of user_id object field p = do
  _ ← require_configured p
  ok (
      or_default no_field_permissions (
        or_else (get (lowercase user_id, (lowercase object, lowercase field)) p.field_permissions)
          (get (lowercase (codes "*"), (lowercase object, lowercase field)) p.field_permissions)))
