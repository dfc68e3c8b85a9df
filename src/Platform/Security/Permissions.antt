-- ===== src/Platform/Security/Permissions.antt =====
-- What the operations on a policy of src/platform/security.rs do to access.
use mathlib.Core.Option
use apex_exec.Prelude.{
  ◌≡◌, ◌≢◌, ◌∙◌, refl, Bool, true, false, not, Option, none, some, List, [], ◌∷◌, ◌++◌, arith,
  if◌then◌else◌,
}
use apex_exec.Prelude.Text.{Text}
use apex_exec.Prelude.Map.{text_key, pair_key}
use apex_exec.Platform.Record.{Record}
use apex_exec.Platform.Security.{
  SharingModel, private, public_read_only, public_read_write, controlled_by_parent, ObjectSchema,
  SecurityPolicy, SecurityPrincipal, user, role, group, RecordAccess, read, edit, RecordGrant,
  Result, ok, err, grant_record,
}
use apex_exec.Platform.Security.Access.{
  access_at_least, grant_applies, any_grant, owner_of, is_owner, role_opens, after_role,
  open_to_all, restricted_access, can_access_record, principal_includes, user_has_role_visibility,
  role_visibility_walk, roles_of,
}

-- The answer once the role's part is known only grows with what the grants say.
after_role-grow :
    (a b : Bool)
    → (a ≡ true → b ≡ true)
    → (o : Option (Result Bool)) → Option.map (after_role a) o ≡ some (ok true)
    → Option.map (after_role b) o ≡ some (ok true)
unfolding after_role
after_role-grow a b grow none h = cc
after_role-grow a b grow (some (err e)) h = cc
after_role-grow a b grow (some (ok true)) h = refl
after_role-grow true b grow (some (ok false)) h = rw (grow refl) refl
after_role-grow false b grow (some (ok false)) h = cc

grant_applies-weaken :
    (p : SecurityPolicy) (o : ObjectSchema) (r : Record) (u : Text) (g : RecordGrant)
    → grant_applies p o r u edit g ≡ true
    → grant_applies p o r u read g ≡ true
unfolding grant_applies access_at_least
grant_applies-weaken p o r u g h =
    elim g.access
        as (λ a.
          grant_applies p o r u edit (record g { access = a }) ≡ true
          → grant_applies p o r u read (record g { access = a }) ≡ true) [
            | read ↦ λ k. ground arith
            | edit ↦ λ k. k
          ]
      h

any_grant-weaken :
    (p : SecurityPolicy) (o : ObjectSchema) (r : Record) (u : Text) (gs : List RecordGrant)
    → any_grant p o r u edit gs ≡ true
    → any_grant p o r u read gs ≡ true
unfolding any_grant
any_grant-weaken p o r u [] h = cc
any_grant-weaken p o r u (g ∷ gs) h =
    ground (arith, grant_applies-weaken p o r u g, any_grant-weaken p o r u gs)

-- The form that `restricted_access` computes to.
abbrev decided : Bool → Bool → Bool → Option (Result Bool) → Option (Result Bool)
decided own on granted o =
    if own
    then some (ok true)
    else if not on
    then some (ok false)
    else Option.map (after_role granted) o

decided-grow :
    (own on a b : Bool) (o : Option (Result Bool))
    → (a ≡ true → b ≡ true)
    → decided own on a o ≡ some (ok true)
    → decided own on b o ≡ some (ok true)
decided-grow true on a b o grow h = refl
decided-grow false false a b o grow h = cc
decided-grow false true a b o grow h = after_role-grow a b grow o h

decided-true : (own v : Bool) → decided own true true (some (ok v)) ≡ some (ok true)
unfolding after_role
decided-true true v = refl
decided-true false true = refl
decided-true false false = refl

restricted-weaken :
    (p : SecurityPolicy) (o : ObjectSchema) (r : Record) (u : Text)
    → restricted_access p o r u edit ≡ some (ok true)
    → restricted_access p o r u read ≡ some (ok true)
unfolding restricted_access
restricted-weaken p o r u =
    decided-grow (is_owner (owner_of r) u) p.configured (any_grant p o r u edit p.grants)
      (any_grant p o r u read p.grants) (role_opens p u (owner_of r))
      (any_grant-weaken p o r u p.grants)

-- By the sharing model, once it is read.
access-weaken :
    (p : SecurityPolicy) (n : Text) (m : SharingModel) (r : Record) (u : Text)
    → can_access_record p (record { api_name = n; sharing_model = m }) r u edit ≡ some (ok true)
    → can_access_record p (record { api_name = n; sharing_model = m }) r u read ≡ some (ok true)
unfolding can_access_record open_to_all
access-weaken p n private r u h = restricted-weaken p _ r u h
access-weaken p n public_read_only r u h = refl
access-weaken p n public_read_write r u h = refl
access-weaken p n controlled_by_parent r u h = cc

-- Whoever may edit a record may read it, under every policy and sharing model.
pub edit_implies_read :
    (p : SecurityPolicy) (o : ObjectSchema) (r : Record) (user_id : Text)
    → can_access_record p o r user_id edit ≡ some (ok true)
    → can_access_record p o r user_id read ≡ some (ok true)
edit_implies_read p o r u h = access-weaken p o.api_name o.sharing_model r u h

-- A new grant changes neither who a principal includes nor what the hierarchy says.
principal-grant :
    (p : SecurityPolicy) (g : RecordGrant) (k : SecurityPrincipal) (u : Text)
    → principal_includes (grant_record g p) k u ≡ principal_includes p k u
unfolding principal_includes grant_record
principal-grant p g (user n) u = refl
principal-grant p g (role n) u = refl
principal-grant p g (group n) u = refl

applies-grant :
    (p : SecurityPolicy) (g : RecordGrant) (o : ObjectSchema) (r : Record) (u : Text)
    (a : RecordAccess) (k : RecordGrant)
    → grant_applies (grant_record g p) o r u a k ≡ grant_applies p o r u a k
unfolding grant_applies
applies-grant p g o r u a k = rw (principal-grant p g k.grantee u) refl

any_grant-grant :
    (p : SecurityPolicy) (g : RecordGrant) (o : ObjectSchema) (r : Record) (u : Text)
    (a : RecordAccess) (gs : List RecordGrant)
    → any_grant (grant_record g p) o r u a gs ≡ any_grant p o r u a gs
unfolding any_grant
any_grant-grant p g o r u a [] = refl
any_grant-grant p g o r u a (k ∷ gs) =
    rw (applies-grant p g o r u a k) (rw (any_grant-grant p g o r u a gs) refl)

opens-grant :
    (p : SecurityPolicy) (g : RecordGrant) (u : Text) (owner : Option Text)
    → role_opens (grant_record g p) u owner ≡ role_opens p u owner
unfolding role_opens user_has_role_visibility role_visibility_walk roles_of grant_record
opens-grant p g u none = refl
opens-grant p g u (some v) = refl

any_grant-append :
    (p : SecurityPolicy) (g : RecordGrant) (o : ObjectSchema) (r : Record) (u : Text)
    (a : RecordAccess) (gs : List RecordGrant)
    → any_grant p o r u a gs ≡ true
    → any_grant p o r u a (gs ++ g ∷ []) ≡ true
unfolding any_grant
any_grant-append p g o r u a [] h = cc
any_grant-append p g o r u a (k ∷ gs) h = ground (arith, any_grant-append p g o r u a gs)

any_grant-last :
    (p : SecurityPolicy) (g : RecordGrant) (o : ObjectSchema) (r : Record) (u : Text)
    (a : RecordAccess) (gs : List RecordGrant)
    → grant_applies p o r u a g ≡ true
    → any_grant p o r u a (gs ++ g ∷ []) ≡ true
unfolding any_grant
any_grant-last p g o r u a [] h = ground arith
any_grant-last p g o r u a (k ∷ gs) h = ground (arith, any_grant-last p g o r u a gs)

grants-grant :
    (p : SecurityPolicy) (g : RecordGrant) → (grant_record g p).grants ≡ p.grants ++ g ∷ []
unfolding grant_record
grants-grant p g = refl

configured-grant :
    (p : SecurityPolicy) (g : RecordGrant) → (grant_record g p).configured ≡ p.configured
unfolding grant_record
configured-grant p g = refl

restricted-grant :
    (p : SecurityPolicy) (g : RecordGrant) (o : ObjectSchema) (r : Record) (u : Text)
    (a : RecordAccess)
    → restricted_access (grant_record g p) o r u a
      ≡ decided
          (is_owner (owner_of r) u)
          p.configured
          (any_grant p o r u a (p.grants ++ g ∷ []))
          (role_opens p u (owner_of r))
unfolding restricted_access
restricted-grant p g o r u a = rw (opens-grant p g u (owner_of r)) (
    rw (any_grant-grant p g o r u a (grant_record g p).grants)
      (rw (grants-grant p g) (rw (configured-grant p g) refl)))

restricted-keeps :
    (p : SecurityPolicy) (g : RecordGrant) (o : ObjectSchema) (r : Record) (u : Text)
    (a : RecordAccess)
    → restricted_access p o r u a ≡ some (ok true)
    → restricted_access (grant_record g p) o r u a ≡ some (ok true)
unfolding restricted_access
restricted-keeps p g o r u a h =
    restricted-grant p g o r u a
    ∙ decided-grow (is_owner (owner_of r) u) p.configured (any_grant p o r u a p.grants)
        (any_grant p o r u a (p.grants ++ g ∷ [])) (role_opens p u (owner_of r))
        (any_grant-append p g o r u a p.grants) h

restricted-opens :
    (p : SecurityPolicy) (g : RecordGrant) (o : ObjectSchema) (r : Record) (u : Text)
    (a : RecordAccess) (v : Bool)
    → p.configured ≡ true
    → grant_applies p o r u a g ≡ true
    → role_opens p u (owner_of r) ≡ some (ok v)
    → restricted_access (grant_record g p) o r u a ≡ some (ok true)
restricted-opens p g o r u a v on applies opens =
    restricted-grant p g o r u a
    ∙ rw (any_grant-last p g o r u a p.grants applies)
        (rw opens (rw on (decided-true (is_owner (owner_of r) u) v)))

keeps-by_model :
    (p : SecurityPolicy) (g : RecordGrant) (n : Text) (m : SharingModel) (r : Record) (u : Text)
    (a : RecordAccess)
    → can_access_record p (record { api_name = n; sharing_model = m }) r u a ≡ some (ok true)
    → can_access_record (grant_record g p) (record { api_name = n; sharing_model = m }) r u a
      ≡ some (ok true)
unfolding can_access_record open_to_all
keeps-by_model p g n private r u a h = restricted-keeps p g _ r u a h
keeps-by_model p g n public_read_only r u read h = refl
keeps-by_model p g n public_read_only r u edit h = restricted-keeps p g _ r u edit h
keeps-by_model p g n public_read_write r u a h = refl
keeps-by_model p g n controlled_by_parent r u a h = cc

-- A record grant never takes access away: every access that a policy allows is still allowed after
-- any `grant_record`.
pub grant_record-keeps :
    (p : SecurityPolicy) (g : RecordGrant) (o : ObjectSchema) (r : Record) (user_id : Text)
    (required : RecordAccess)
    → can_access_record p o r user_id required ≡ some (ok true)
    → can_access_record (grant_record g p) o r user_id required ≡ some (ok true)
grant_record-keeps p g o r u a h = keeps-by_model p g o.api_name o.sharing_model r u a h

opens-by_model :
    (p : SecurityPolicy) (g : RecordGrant) (n : Text) (m : SharingModel) (r : Record) (u : Text)
    (a : RecordAccess)
    → m ≢ controlled_by_parent
    → restricted_access (grant_record g p) (record { api_name = n; sharing_model = m }) r u a
      ≡ some (ok true)
    → can_access_record (grant_record g p) (record { api_name = n; sharing_model = m }) r u a
      ≡ some (ok true)
unfolding can_access_record open_to_all
opens-by_model p g n private r u a ne h = h
opens-by_model p g n public_read_only r u read ne h = refl
opens-by_model p g n public_read_only r u edit ne h = h
opens-by_model p g n public_read_write r u a ne h = refl
opens-by_model p g n controlled_by_parent r u a ne h = absurd (ne refl)

-- Under a configured policy, on an object whose sharing is not controlled by its parent, where the
-- role hierarchy above the record's owner gives an answer, a grant that names the object and the
-- record, includes the user and is for at least the required access opens the record to the user.
pub grant_record-opens :
    (p : SecurityPolicy) (g : RecordGrant) (o : ObjectSchema) (r : Record) (user_id : Text)
    (required : RecordAccess) (visible : Bool)
    → p.configured ≡ true
    → o.sharing_model ≢ controlled_by_parent
    → role_opens p user_id (owner_of r) ≡ some (ok visible)
    → grant_applies p o r user_id required g ≡ true
    → can_access_record (grant_record g p) o r user_id required ≡ some (ok true)
grant_record-opens p g o r u a v on ne opens applies =
    opens-by_model p g o.api_name o.sharing_model r u a ne
      (restricted-opens p g o r u a v on applies opens)
