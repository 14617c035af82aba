-- ===== src/Auth/Sound/Statements.antt =====
-- No call, whatever fails on the way, breaks the keys of the tables or leaves two resets for one
-- address.
use schema_forge_backend.Base.{◌≡◌, false, any, map, List, Option, none, some, Action}
use schema_forge_backend.Text.{Text}
use schema_forge_backend.Auth.Account.{NewUser, Uuid}
use schema_forge_backend.Auth.Outside.{Outside}
use schema_forge_backend.Auth.Tables.{
  Tables, World, User, row_of, clashes, with_user, find_user_by_id, find_user_by_email, create_user,
  update_profile, create_password_reset, reset_password, find_password_by_token,
  delete_password_reset, enrich, get_user_roles, insert_user, taken,
}
use schema_forge_backend.Auth.Triples.{
  Ends, Reads, Ends-pure, Ends-fail, Ends-if, Ends-within_bind, Ends-drawn, Ends-tables, Ends-write,
  Ends-last_write, Ends-weaken, reads_rules,
}
use schema_forge_backend.Auth.Sound.{
  IsSound, is_pending, IsKeyed, renamed-IsKeyed, rekeyed-IsKeyed, map-IsDistinct, filter-IsSingle,
  filter-is_pending,
}

-- From tables that are sound to tables that are sound.
abbrev pub Sound : {W E A : Type 0} → Tables → Action (World W) E A → Type 0
Sound t m = Ends t IsSound (λ a t'. IsSound t') m

module _ {W : Type 0} (o : Outside W) where
  enrich-Reads : (row : Option User) → Reads (enrich o row)
  unfolding enrich get_user_roles
  enrich-Reads none = search reads_rules
  enrich-Reads (some row) = search reads_rules

  pub find_user_by_email-Reads : (email : Text) → Reads (find_user_by_email o email)
  unfolding find_user_by_email
  find_user_by_email-Reads email = search (reads_rules, enrich-Reads)

  pub find_user_by_id-Reads : (user_id : Uuid) → Reads (find_user_by_id o user_id)
  unfolding find_user_by_id
  find_user_by_id-Reads user_id = search (reads_rules, enrich-Reads)

  pub find_password_by_token-Reads : (token : Text) → Reads (find_password_by_token o token)
  unfolding find_password_by_token
  find_password_by_token-Reads token = search reads_rules

  with_user-IsSound :
      (t : Tables) (row : User) (names : List Text)
      → IsSound t
      → any (clashes row) t.users ≡ false
      → IsSound (with_user row names t)
  with_user-IsSound t row names h free = record { distinct = (free, h.distinct); single = h.single }

  map-IsSound :
      (t : Tables) (f : User → User)
      → IsKeyed f
      → IsSound t
      → IsSound (record t { users = map f t.users })
  map-IsSound t f keyed h = record {
    distinct = map-IsDistinct f keyed t.users h.distinct;
    single = h.single;
  }

  pub create_user-Sound : (user : NewUser) (t : Tables) → IsSound t → Sound t (create_user o user)
  unfolding create_user insert_user taken
  create_user-Sound user t h = Ends-within_bind _ _ h (λ _. Ends-within_bind _ _ h (λ _.
      Ends-drawn _ _ (λ id. Ends-tables _ (
        Ends-if (any (clashes (row_of id user)) t.users) _ _ (λ _. Ends-fail _ h)
          (λ free. Ends-within_bind _ _ h (λ _. Ends-within_bind _ _ h (λ _.
            Ends-write _ _
              (Ends-pure _ (with_user-IsSound t (row_of id user) user.roles h free)))))))))

  pub update_profile-Sound :
      (user_id : Uuid) (first last : Text) (url : Option Text) (t : Tables)
      → IsSound t
      → Sound t (update_profile o user_id first last url)
  unfolding update_profile
  update_profile-Sound user_id first last url t h =
      Ends-within_bind _ _ h
        (λ _. Ends-last_write _ (map-IsSound t _ (renamed-IsKeyed user_id first last url) h))

  pub reset_password-Sound :
      (email password : Text) (t : Tables) → IsSound t → Sound t (reset_password o email password)
  unfolding reset_password
  reset_password-Sound email password t h =
      Ends-within_bind _ _ h
        (λ _. Ends-last_write _ (map-IsSound t _ (rekeyed-IsKeyed email password) h))

  -- Sound, and with no reset for the address.
  abbrev pub IsFree : Text → Tables → Type 0
  IsFree email t = IsSound t × (is_pending email t.password_resets ≡ false)

  pub delete_password_reset-IsFree :
      (email : Text) (t : Tables)
      → IsSound t
      → Ends t IsSound (λ _ t'. IsFree email t') (delete_password_reset o email)
  unfolding delete_password_reset
  delete_password_reset-IsFree email t h = Ends-within_bind _ _ h (λ _. Ends-last_write _ (
    record { distinct = h.distinct; single = filter-IsSingle email t.password_resets h.single },
    filter-is_pending email t.password_resets,
  ))

  pub delete_password_reset-Sound :
      (email : Text) (t : Tables) → IsSound t → Sound t (delete_password_reset o email)
  delete_password_reset-Sound email t h =
      Ends-weaken _ (delete_password_reset-IsFree email t h) (λ _ t' free. free.0)

  pub create_password_reset-Sound :
      (email token : Text) (t : Tables)
      → IsFree email t
      → Sound t (create_password_reset o email token)
  unfolding create_password_reset
  create_password_reset-Sound email token t h = Ends-within_bind _ _ h.0 (λ _.
      Ends-drawn _ _
        (λ now. Ends-last_write _ (record { distinct = h.0.distinct; single = (h.1, h.0.single) })))
