-- ===== src/Tests/Permissions.antt =====
-- A user with two permissions in a store that keeps them in a list.
use schema_forge_backend.Base.{
  true, ◌&&◌, ◌||◌, ◌==◌, list_eq, nat_eq, ◌≡◌, ◌↔◌, ◌⊎◌, refl, List, [], ◌∷◌, some, any,
}
use schema_forge_backend.Text.{lit}
use schema_forge_backend.Rbac.Engine.{Permission, Store, role_bypass, can, can_any}
use schema_forge_backend.Rbac.Laws.{IsSuper, IsHolder, can-true_iff, can_any-any}

abbrev held : List Permission
unfolding lit
held =
    record { module_name = lit "Users"; resource = lit "Users"; name = lit "View" }
    ∷ record { module_name = lit "Users"; resource = lit "Users"; name = lit "Edit" }
    ∷ []

abbrev listing : Store
unfolding lit
listing = record {
  get_roles = λ user. some (lit "Editor" ∷ []);
  get_permissions = λ user. some held;
  has_permission = λ user resource permission.
      some (any (λ p. p.resource == resource && p.name == permission) held);
}

can-true_iff_example : (can (lit "Admin") listing (lit "u") (lit "Users.Edit") ≡ true) ↔ (
    IsSuper (lit "Admin") listing (lit "u")
    ⊎ IsHolder (lit "Admin") listing (lit "u") (lit "Users.Edit"))
can-true_iff_example = can-true_iff (lit "Admin") listing (lit "u") (lit "Users.Edit")

can_any-any_example : can_any (lit "Admin") listing (lit "u") (lit "Users.Edit" ∷ []) ≡ (
    role_bypass (lit "Admin") listing (lit "u")
    || any (can (lit "Admin") listing (lit "u")) (lit "Users.Edit" ∷ []))
unfolding listing
can_any-any_example =
    can_any-any (lit "Admin") listing (lit "u") held (lit "Users.Edit" ∷ []) refl
      (λ resource permission. refl)
