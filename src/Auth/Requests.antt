-- ===== src/Auth/Requests.antt =====
-- A sequence of calls of src/package/auth/mod.rs, one after the other, whatever each answers.
use schema_forge_backend.Base.{List, [], ◌∷◌}
use schema_forge_backend.Text.{Text}
use schema_forge_backend.Text.Case.{Unicode}
use schema_forge_backend.Domain.Schema.{SchemaDraft}
use schema_forge_backend.Auth.Account.{Registration}
use schema_forge_backend.Auth.Outside.{Outside}
use schema_forge_backend.Auth.Tables.{World}
use schema_forge_backend.Auth.Tokens.{Lifetimes}
use schema_forge_backend.Auth.Service.{
  generate_token, register, refresh_token, login_with_google, get_identity, password_recovery,
  reset_password,
}

-- The trait `Auth`, by its methods that can read or write the tables.
pub data Request : Type 0 where
  signing_in : (email password : Text) → Request
  registering : Registration → Request
  refreshing : Text → Request
  google : Text → Request
  identifying : Text → Request
  recovering : (email callback_uri : Text) → Request
  resetting : (token new_password : Text) → Request

module _ {W : Type 0} (u : Unicode) (o : Outside W) (sample : SchemaDraft) (ttl : Lifetimes) where
  -- The world after a call.
  unfoldable pub serve : Request → World W → World W
  serve (signing_in email password) world = (generate_token u o sample ttl email password world).1
  serve (registering registration) world = (register u o sample ttl registration world).1
  serve (refreshing token) world = (refresh_token u o sample ttl token world).1
  serve (google code) world = (login_with_google u o sample ttl code world).1
  serve (identifying token) world = (get_identity u o sample ttl token world).1
  serve (recovering email callback_uri) world =
      (password_recovery u o sample ttl email callback_uri world).1
  serve (resetting token new_password) world =
      (reset_password u o sample ttl token new_password world).1

  unfoldable pub run : List Request → World W → World W
  unfolding serve
  run [] world = world
  run (request ∷ requests) world = run requests (serve request world)
