-- ===== src/Auth/Sound.antt =====
-- The keys of the tables of accounts, and the writes that keep them.
pub mod Statements
pub mod Steps
pub mod Service
use schema_forge_backend.Base.{
  Bool, true, false, not, ◌||◌, ◌==◌, ==_iff, ==_refl, list_eq, nat_eq, if◌then◌else◌, any, filter,
  map, List, [], ◌∷◌, ◌≡◌, refl, sym, ◌∙◌, ap, ap₂, arith, Option,
}
use schema_forge_backend.Text.{Text}
use schema_forge_backend.Auth.Account.{Uuid, PasswordReset, Instant}
use schema_forge_backend.Auth.Tables.{User, Tables, clashes, with_user, renamed, rekeyed}

-- No two rows have the id, the email or the user name in common.
abbrev pub IsDistinct : List User → Type 0
IsDistinct [] = Unit
IsDistinct (row ∷ rows) = (any (clashes row) rows ≡ false) × IsDistinct rows

abbrev pub is_pending : Text → List PasswordReset → Bool
is_pending email resets = any (λ reset. reset.email == email) resets

-- No two resets are for one address.
abbrev pub IsSingle : List PasswordReset → Type 0
IsSingle [] = Unit
IsSingle (reset ∷ resets) = (is_pending reset.email resets ≡ false) × IsSingle resets

pub record IsSound (tables : Tables) : Type 0 where
  pub distinct : IsDistinct tables.users
  pub single : IsSingle tables.password_resets

-- An update that leaves the keys of a row as they are.
abbrev pub IsKeyed : (User → User) → Type 0
IsKeyed f =
    (row other : User)
    → (clashes other (f row) ≡ clashes other row) × (clashes (f row) other ≡ clashes row other)

chosen_keyed :
    (b : Bool) (new row other : User)
    → (clashes other new ≡ clashes other row) × (clashes new other ≡ clashes row other)
    → let chosen = if b then new else row in
      (clashes other chosen ≡ clashes other row) × (clashes chosen other ≡ clashes row other)
chosen_keyed true new row other h = h
chosen_keyed false new row other h = (refl, refl)

pub renamed-IsKeyed :
    (user_id : Uuid) (first last : Text) (url : Option Text)
    → IsKeyed (renamed user_id first last url)
renamed-IsKeyed user_id first last url row other =
    chosen_keyed (row.id == user_id)
      (record row { first_name = first; last_name = last; avatar_url = url }) row other (refl, refl)

pub rekeyed-IsKeyed : (email password : Text) → IsKeyed (rekeyed email password)
rekeyed-IsKeyed email password row other =
    chosen_keyed (row.email == email) (record row { password = password }) row other (refl, refl)

any-keyed :
    (f : User → User)
    → IsKeyed f
    → (row : User) (rows : List User) → any (clashes (f row)) (map f rows) ≡ any (clashes row) rows
any-keyed f keyed row [] = refl
any-keyed f keyed row (other ∷ rows) =
    ap₂ (λ a b. a || b) ((keyed other (f row)).0 ∙ (keyed row other).1) (any-keyed f keyed row rows)

pub map-IsDistinct :
    (f : User → User) → IsKeyed f → (rows : List User) → IsDistinct rows → IsDistinct (map f rows)
map-IsDistinct f keyed [] d = tt
map-IsDistinct f keyed (row ∷ rows) d =
    (any-keyed f keyed row rows ∙ d.0, map-IsDistinct f keyed rows d.1)

any-filter {ℓ} :
    {A : Type ℓ} (p q : A → Bool) (xs : List A) → any p xs ≡ false → any p (filter q xs) ≡ false
any-filter p q [] h = h
any-filter p q (x ∷ xs) h = ground (arith, any-filter p q xs)

keep-IsSingle :
    (b : Bool) (reset : PasswordReset) (resets : List PasswordReset)
    → is_pending reset.email resets ≡ false
    → IsSingle resets
    → IsSingle (if not b then reset ∷ resets else resets)
keep-IsSingle true reset resets h s = s
keep-IsSingle false reset resets h s = (h, s)

-- Without the resets of one address, the rest is as single as before.
pub filter-IsSingle :
    (email : Text) (resets : List PasswordReset)
    → IsSingle resets
    → IsSingle (filter (λ reset. not (reset.email == email)) resets)
filter-IsSingle email [] h = tt
filter-IsSingle email (reset ∷ resets) h =
    keep-IsSingle (reset.email == email) reset _
      (any-filter (λ r. r.email == reset.email) (λ r. not (r.email == email)) resets h.0)
      (filter-IsSingle email resets h.1)

pub filter-is_pending :
    (email : Text) (resets : List PasswordReset)
    → is_pending email (filter (λ reset. not (reset.email == email)) resets) ≡ false
filter-is_pending email [] = refl
filter-is_pending email (reset ∷ resets) = ground (arith, filter-is_pending email resets)
