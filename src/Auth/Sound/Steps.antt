-- ===== src/Auth/Sound/Steps.antt =====
-- The functions of src/package/auth/service.rs keep the tables sound.
use schema_forge_backend.Base.{Result, ok, err, Action, pure, ◌>>=◌}
use schema_forge_backend.Text.{Text}
use schema_forge_backend.Domain.Schema.{SchemaDraft}
use schema_forge_backend.Auth.Account.{Identity, Uuid, GoogleAccount}
use schema_forge_backend.Auth.Outside.{Outside, SqlxError, is_code, unique_violation_code}
use schema_forge_backend.Auth.Tables.{Tables, within}
use schema_forge_backend.Auth.Steps.{
  known, seed, follow_google_profile, require_user_by_id, create_google_user, adopt,
  after_insertion, is_current,
}
use schema_forge_backend.Auth.Triples.{
  Post, Ends, Reads, Ends-pure, Ends-fail, Ends-settled, Ends-within, Ends-if, Ends-bind,
  Ends-reads, Ends-failing, Ends-tried, Ends-drawn, Ends-within_bind, Reads-Ends, reads_rules,
}
use schema_forge_backend.Auth.Sound.{IsSound}
use schema_forge_backend.Auth.Sound.Statements.{
  Sound, find_user_by_email-Reads, find_user_by_id-Reads, find_password_by_token-Reads,
  create_user-Sound, update_profile-Sound, reset_password-Sound, delete_password_reset-IsFree,
  create_password_reset-Sound, delete_password_reset-Sound,
}

pub ruleset found_rules =
    (reads_rules, find_user_by_email-Reads, find_user_by_id-Reads, find_password_by_token-Reads)

module _ {W : Type 0} (o : Outside W) (sample : SchemaDraft) where
  pub within-Sound : {E A : Type 0} (m : Action W E A) (t : Tables) → IsSound t → Sound t (within m)
  within-Sound m t h = Ends-within m h (λ a. h)

  pub seed-Reads : (user_id : Uuid) → Reads (seed o sample user_id)
  unfolding seed
  seed-Reads user_id = search reads_rules

  pub require_user_by_id-Reads : (user_id : Uuid) → Reads (require_user_by_id o sample user_id)
  unfolding require_user_by_id known
  require_user_by_id-Reads user_id = search found_rules

  pub follow_google_profile-Sound :
      (user : Identity) (account : GoogleAccount) (t : Tables)
      → IsSound t
      → Sound t (follow_google_profile o sample user account)
  unfolding follow_google_profile known
  follow_google_profile-Sound user account t h =
      Ends-if (is_current user account) _ _ (λ _. Ends-pure tt h)
        (λ _. Ends-failing _ _ (update_profile-Sound o user.id _ _ account.picture t h))

  pub followed-Sound :
      (user : Identity) (account : GoogleAccount) (t : Tables)
      → IsSound t
      → Sound t (follow_google_profile o sample user account >>= λ _. pure user)
  followed-Sound user account t h =
      Ends-bind _ _ (follow_google_profile-Sound user account t h) (λ _ t' h'. Ends-pure user h')

  pub adopt-Sound :
      (email : Text) (account : GoogleAccount) (e : SqlxError) (t : Tables)
      → IsSound t
      → Sound t (adopt o sample email account e)
  unfolding adopt known
  adopt-Sound email account e t h =
      Ends-reads _ _ (search found_rules) h
        (λ found. Ends-reads _ _ (search reads_rules) h (λ user. followed-Sound user account t h))

  pub after_insertion-Sound :
      (email : Text) (account : GoogleAccount) (r : Result Uuid SqlxError) (t : Tables)
      → IsSound t
      → Sound t (after_insertion o sample email account r)
  unfolding after_insertion
  after_insertion-Sound email account (ok user_id) t h =
      Ends-reads _ _ (seed-Reads user_id) h
        (λ _. Reads-Ends _ t h (require_user_by_id-Reads user_id))
  after_insertion-Sound email account (err e) t h =
      Ends-if (is_code e unique_violation_code) _ _ (λ _. adopt-Sound email account e t h)
        (λ _. Ends-fail _ h)

  pub create_google_user-Sound :
      (email : Text) (account : GoogleAccount) (t : Tables)
      → IsSound t
      → Sound t (create_google_user o sample email account)
  unfolding create_google_user
  create_google_user-Sound email account t h =
      Ends-tried _ _ (create_user-Sound o _ t h)
        (λ user_id t' h'. after_insertion-Sound email account (ok user_id) t' h')
        (λ e t' h'. after_insertion-Sound email account (err e) t' h')
