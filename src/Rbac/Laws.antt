-- ===== src/Rbac/Laws.antt =====
-- What the two checks of the permission engine decide, and that they agree.
use schema_forge_backend.Base.{
  ℕ, All, Memᴰ, subst, any-true_iff, Bool, true, false, ◌&&◌, ◌||◌, ◌==◌, ==_iff, list_eq, nat_eq,
  List, [], ◌∷◌, ◌++◌, Option, none, some, any, for_each, ◌≡◌, ◌≢◌, ◌↔◌, ◌⊎◌, inl, inr, refl, sym,
  arith, Bool-cases, ap, ap₂, ◌∙◌,
}
use schema_forge_backend.Text.{Text}
use schema_forge_backend.Rbac.Engine.{
  Permission, Store, split_action, contains, grant, names_of, holds, is_granted, role_bypass, can,
  can_any, check_action, or_denied, any_granted, before_and_after,
}

abbrev grants : Text → Text → Permission → Bool
grants resource permission p = p.resource == resource && p.name == permission

contains-append :
    (names : List Text) (name wanted : Text)
    → contains (names ++ name ∷ []) wanted ≡ (contains names wanted || name == wanted)
contains-append [] name wanted = ground arith
contains-append (n ∷ names) name wanted = ground (arith, contains-append names name wanted)

-- A permission that is entered is found, under its own resource only.
grant-holds :
    (p : Permission) (granted : List (Text × List Text)) (resource permission : Text)
    → holds (names_of (grant p granted) resource) permission
      ≡ (holds (names_of granted resource) permission || grants resource permission p)
unfolding grant names_of
grant-holds p [] resource permission = ground arith
grant-holds p ((r, names) ∷ granted) resource permission = ground (
  arith,
  grant-holds p granted resource permission,
  contains-append names p.name permission,
  ==_iff r p.resource,
  ==_iff r resource,
  ==_iff p.resource resource,
)

granted-holds :
    (ps : List Permission) (granted : List (Text × List Text)) (resource permission : Text)
    → holds (names_of (for_each ps grant granted) resource) permission
      ≡ (holds (names_of granted resource) permission || any (grants resource permission) ps)
granted-holds [] granted resource permission = ground arith
granted-holds (p ∷ ps) granted resource permission = ground (
  arith,
  granted-holds ps (grant p granted) resource permission,
  grant-holds p granted resource permission,
)

any-same {ℓ} :
    {A : Type ℓ} (p q : A → Bool) (xs : List A) → ((x : A) → p x ≡ q x) → any p xs ≡ any q xs
any-same p q [] h = refl
any-same p q (x ∷ xs) h = ap₂ (λ a b. a || b) (h x) (any-same p q xs h)

-- The text before the first dot is the resource, and the text after it is the permission.
abbrev pub Names : Text → Text × Text → Type 0
Names action wanted = (action ≡ wanted.0 ++ b'.' ∷ wanted.1) × All (λ c. c ≢ b'.') wanted.0

split_action-joined :
    (resource permission : Text)
    → All (λ c. c ≢ b'.') resource
    → split_action (resource ++ b'.' ∷ permission) ≡ some (resource, permission)
unfolding split_action before_and_after
split_action-joined [] permission h = refl
split_action-joined (c ∷ resource) permission (h, hs) =
    ground (arith, split_action-joined resource permission hs)

behind_letter :
    (c : ℕ) (action : Text) (parts : Option (Text × Text)) (wanted : Text × Text)
    → c ≢ b'.'
    → ((found : Text × Text) → parts ≡ some found → Names action found)
    → before_and_after c parts ≡ some wanted
    → Names (c ∷ action) wanted
unfolding before_and_after
behind_letter c action none wanted letter named h = cc
behind_letter c action (some (before, after)) wanted letter named h =
    let (same, undotted) = named (before, after) refl in
    let parts : (c ∷ before, after) ≡ wanted = ground (arith, h) in
    subst (Names (c ∷ action)) parts (ap (λ rest. c ∷ rest) same, (letter, undotted))

split_action-Names :
    (action : Text) (wanted : Text × Text) → split_action action ≡ some wanted → Names action wanted
unfolding split_action before_and_after
split_action-Names [] wanted h = cc
split_action-Names (c ∷ action) wanted h = elim (Bool-cases (c == b'.')) [
  | inl dot ↦ first_dot ((==_iff c b'.').0 dot) (rw dot at h)
  | inr letter ↦
      behind_letter c action (split_action action) wanted (ground (arith, ==_iff c b'.'))
        (λ found e. split_action-Names action found e) (rw letter at h)
]
  where
    first_dot : c ≡ b'.' → some ([], action) ≡ some wanted → Names (c ∷ action) wanted
    first_dot same e =
        let parts : ([], action) ≡ wanted = ground (arith, e) in
        subst (Names (c ∷ action)) parts (ap (λ d. d ∷ action) same, tt)

Names-split_action :
    (action : Text) (wanted : Text × Text) → Names action wanted → split_action action ≡ some wanted
Names-split_action action wanted (same, undotted) =
    ap split_action same ∙ split_action-joined wanted.0 wanted.1 undotted

contains_iff : (names : List Text) (name : Text) → (contains names name ≡ true) ↔ Memᴰ name names
contains_iff names name =
    let found = any-true_iff (λ n. n == name) names in
    (
      λ h.
          let (n, member, same) = found.0 h in
          subst (λ m. Memᴰ m names) ((==_iff n name).0 same) member,
      λ member. found.1 (name, member, (==_iff name name).1 refl),
    )

module _ (super_role : Text) (store : Store) (user_id : Text) where
  -- The super role is one of the user's roles.
  abbrev pub IsSuper : Type 0
  IsSuper = (roles : List Text) × (store.get_roles user_id ≡ some roles) × Memᴰ super_role roles

  -- The action names a resource and a permission, and the store answers that the user holds it.
  abbrev pub IsHolder : Text → Type 0
  IsHolder action =
      (wanted : Text × Text) × Names action wanted
      × (store.has_permission user_id wanted.0 wanted.1 ≡ some true)

  bypass_iff :
      (answer : Option (List Text))
      → store.get_roles user_id ≡ answer
      → (role_bypass super_role store user_id ≡ true) ↔ IsSuper
  unfolding role_bypass
  bypass_iff none e =
      ((λ h. absurd (no_roles (rw e at h))), (λ (roles, found, _). absurd (other (sym e ∙ found))))
    where
      no_roles : false ≢ true
      no_roles h = cc

      other : {roles : List Text} → none ≢ some roles
      other h = cc
  bypass_iff (some roles) e = (
    λ h. (roles, e, (contains_iff roles super_role).0 (rw e at h)),
    λ (others, found, h). rw found ((contains_iff others super_role).1 h),
  )

  IsHolder-iff :
      (action : Text) (parts : Option (Text × Text))
      → split_action action ≡ parts
      → (check_action super_role store user_id parts ≡ true) ↔ IsHolder action
  unfolding check_action
  IsHolder-iff action none e = (
    (λ h. cc),
    (λ (wanted, named, _). absurd (no_parts (sym e ∙ Names-split_action action wanted named))),
  )
    where
      no_parts : {wanted : Text × Text} → none ≢ some wanted
      no_parts h = cc
  IsHolder-iff action (some (resource, permission)) e = (
    λ h. (
      (resource, permission),
      split_action-Names action _ e,
      allowed (store.has_permission user_id resource permission) h,
    ),
    λ (wanted, named, h). reverse wanted (sym e ∙ Names-split_action action wanted named) h,
  )
    where
      allowed : (answer : Option Bool) → or_denied answer ≡ true → answer ≡ some true
      allowed none h = cc
      allowed (some b) h = ap some h

      reverse :
          (wanted : Text × Text)
          → some (resource, permission) ≡ some wanted
          → store.has_permission user_id wanted.0 wanted.1 ≡ some true
          → or_denied (store.has_permission user_id resource permission) ≡ true
      reverse wanted same h =
          let parts : (resource, permission) ≡ wanted = ground (arith, same) in
          ap (λ (w : Text × Text). or_denied (store.has_permission user_id w.0 w.1)) parts
          ∙ ap or_denied h

  -- A user may do an action exactly when the super role is among the roles that the store gives the
  -- user, or the action has a dot and the store says that the user holds the permission it names:
  -- the text before the first dot as resource, and the text after it as permission.
  pub can-true_iff :
      (action : Text) → (can super_role store user_id action ≡ true) ↔ (IsSuper ⊎ IsHolder action)
  unfolding can
  can-true_iff action =
      let super = bypass_iff (store.get_roles user_id) refl in
      let holder = IsHolder-iff action (split_action action) refl in
      elim (Bool-cases (role_bypass super_role store user_id)) [
        | inl bypass ↦ ((λ _. inl (super.0 bypass)), (λ _. rw bypass refl))
        | inr ordinary ↦ (
          λ h. inr (holder.0 (rw ordinary at h)),
          λ h. elim h [
            | inl s ↦ absurd (never (sym ordinary ∙ super.1 s))
            | inr k ↦ rw ordinary (holder.1 k)
          ],
        )
      ]
    where
      never : false ≢ true
      never h = cc

  granted_one :
      (permissions : List Permission) (parts : Option (Text × Text))
      → ((resource permission : Text)
          → store.has_permission user_id resource permission
            ≡ some (any (λ p. p.resource == resource && p.name == permission) permissions))
      → is_granted (for_each permissions grant []) parts
        ≡ check_action super_role store user_id parts
  unfolding check_action names_of
  granted_one permissions none agrees = refl
  granted_one permissions (some (resource, permission)) agrees =
      rw (agrees resource permission, granted-holds permissions [] resource permission) refl

  ordinary_can :
      (action : Text)
      → role_bypass super_role store user_id ≡ false
      → check_action super_role store user_id (split_action action)
        ≡ can super_role store user_id action
  unfolding can
  ordinary_can action ordinary = rw ordinary refl

  -- When the store answers with the user's permissions, and says that the user has a permission
  -- exactly when it is one of them, a check of several actions is the check for the super role, or
  -- one of the checks of a single action.
  pub can_any-any :
      (permissions : List Permission) (actions : List Text)
      → store.get_permissions user_id ≡ some permissions
      → ((resource permission : Text)
          → store.has_permission user_id resource permission
            ≡ some (any (λ p. p.resource == resource && p.name == permission) permissions))
      → can_any super_role store user_id actions
        ≡ (role_bypass super_role store user_id || any (can super_role store user_id) actions)
  unfolding can_any any_granted
  can_any-any permissions actions listed agrees =
      elim (Bool-cases (role_bypass super_role store user_id)) [
        | inl bypass ↦ rw bypass refl
        | inr ordinary ↦
            rw (ordinary, listed)
              (any-same _ _ actions λ action.
                granted_one permissions (split_action action) agrees ∙ ordinary_can action ordinary)
      ]
