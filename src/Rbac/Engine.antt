-- ===== src/Rbac/Engine.antt =====
-- src/package/rbac/engine.rs, with permission.rs, and `split_action` and the traits of mod.rs.
use schema_forge_backend.Base.{
  Bool, true, false, ◌==◌, list_eq, nat_eq, if◌then◌else◌, List, [], ◌∷◌, ◌++◌, Option, none, some,
  any, for_each, ℕ,
}
use schema_forge_backend.Text.{Text}

pub record Permission : Type 0 where
  pub module_name : Text
  pub resource : Text
  pub name : Text

-- The trait `Store`, for the state of the database that a call sees. `none` is its `Err`.
pub record Store : Type 0 where
  pub get_roles : Text → Option (List Text)
  pub get_permissions : Text → Option (List Permission)
  pub has_permission : (user_id resource permission : Text) → Option Bool

unfoldable pub before_and_after : ℕ → Option (Text × Text) → Option (Text × Text)
before_and_after c none = none
before_and_after c (some (before, after)) = some (c ∷ before, after)

-- `action.split_once('.')`
unfoldable pub split_action : Text → Option (Text × Text)
unfolding before_and_after
split_action [] = none
split_action (c ∷ action) =
    let rest = split_action action in
    if c == b'.' then some ([], action) else before_and_after c rest

abbrev pub contains : List Text → Text → Bool
contains names name = any (λ n. n == name) names

-- `granted.entry(resource).or_default().push(name)`
unfoldable pub grant : Permission → List (Text × List Text) → List (Text × List Text)
grant p [] = (p.resource, p.name ∷ []) ∷ []
grant p ((resource, names) ∷ granted) =
    let rest = grant p granted in
    if resource == p.resource
    then (resource, names ++ p.name ∷ []) ∷ granted
    else (resource, names) ∷ rest

-- `granted.get(resource)`
unfoldable pub names_of : List (Text × List Text) → Text → Option (List Text)
names_of [] wanted = none
names_of ((resource, names) ∷ granted) wanted =
    if resource == wanted then some names else names_of granted wanted

abbrev pub holds : Option (List Text) → Text → Bool
holds none permission = false
holds (some names) permission = contains names permission

abbrev pub is_granted : List (Text × List Text) → Option (Text × Text) → Bool
is_granted granted none = false
is_granted granted (some (resource, permission)) = holds (names_of granted resource) permission

abbrev pub or_denied : Option Bool → Bool
or_denied none = false
or_denied (some allowed) = allowed

module _ (super_role : Text) (store : Store) where
  bypass_of : Option (List Text) → Bool
  bypass_of none = false
  bypass_of (some roles) = contains roles super_role

  unfoldable pub role_bypass : Text → Bool
  unfolding bypass_of
  role_bypass user_id = bypass_of (store.get_roles user_id)

  unfoldable pub check_action : Text → Option (Text × Text) → Bool
  check_action user_id none = false
  check_action user_id (some (resource, permission)) =
      or_denied (store.has_permission user_id resource permission)

  unfoldable pub can : Text → Text → Bool
  unfolding role_bypass check_action split_action
  can user_id action =
      if role_bypass user_id then true else check_action user_id (split_action action)

  or_no_permission : Option (List Permission) → List Permission
  or_no_permission none = []
  or_no_permission (some permissions) = permissions

  unfoldable pub permissions_of : Text → List Permission
  unfolding or_no_permission
  permissions_of user_id = or_no_permission (store.get_permissions user_id)

  unfoldable pub any_granted : List Text → Option (List Permission) → Bool
  unfolding grant names_of split_action
  any_granted actions none = false
  any_granted actions (some permissions) =
      let granted = for_each permissions grant [] in
      any (λ action. is_granted granted (split_action action)) actions

  unfoldable pub can_any : Text → List Text → Bool
  unfolding role_bypass any_granted
  can_any user_id actions =
      if role_bypass user_id then true else any_granted actions (store.get_permissions user_id)
