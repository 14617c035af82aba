-- ===== src/Tests/Desk.antt =====
-- A world for the accounts: the clock counts statements, a hash is the text with a mark, and a token
-- is its claims written out with the lengths of the texts.
use schema_forge_backend.Base.{
  ℕ, zero, suc, ◌≤◌, ◌+◌, ltb, ◌≡◌, refl, ap, subst, any, true, false, ◌==◌, list_eq, nat_eq, [],
  ◌∷◌, ◌++◌, length, take, drop, none, some, Result, ok, err, arith, if◌then◌else◌,
}
use schema_forge_backend.Text.{Text, lit}
use schema_forge_backend.Domain.Schema.{new}
use schema_forge_backend.Auth.Claims.{Claims, string, strings, number, get}
use schema_forge_backend.Auth.Outside.{Outside}
use schema_forge_backend.Auth.Tokens.{exp_key}
use schema_forge_backend.Auth.Service.Live.{IsUp}
use schema_forge_backend.Auth.Tokens.RoundTrip.{IsFaithful, aud_key}

framed : Text → Text → Text
framed text rest = length text ∷ text ++ rest

unframed : Text → Text × Text
unframed [] = ([], [])
unframed (n ∷ text) = (take n text, drop n text)

-- A token for the claims of a refresh token, or of an access token of a user with no role.
unfoldable pub encode : Claims → Result Text Text
unfolding framed
encode ((k, number exp) ∷ (l, string id) ∷ []) = ok (0 ∷ exp ∷ framed k (framed l id))
encode ((k, number exp) ∷ (r, strings []) ∷ (l, string id) ∷ []) =
    ok (1 ∷ exp ∷ framed k (framed r (framed l id)))
encode _ = err []

read_claims : ℕ → ℕ → Text → Claims
unfolding unframed
read_claims zero exp text =
    let (k, rest) = unframed text in
    let (l, id) = unframed rest in (k, number exp) ∷ (l, string id) ∷ []
read_claims (suc _) exp text =
    let (k, rest) = unframed text in
    let (r, others) = unframed rest in
    let (l, id) = unframed others in (k, number exp) ∷ (r, strings []) ∷ (l, string id) ∷ []

unfoldable pub decode : ℕ → Text → Result Claims Text
unfolding read_claims
decode now (tag ∷ exp ∷ text) = if ltb exp now then err [] else ok (read_claims tag exp text)
decode now _ = err []

unframed-framed : (text rest : Text) → unframed (framed text rest) ≡ (text, rest)
unfolding unframed framed
unframed-framed [] rest = refl
unframed-framed (c ∷ text) rest =
    ap (λ (parts : Text × Text). (c ∷ parts.0, parts.1)) (unframed-framed text rest)

refresh_read :
    (now exp : ℕ) (k l id : Text)
    → now ≤ exp
    → decode now (0 ∷ exp ∷ framed k (framed l id)) ≡ ok ((k, number exp) ∷ (l, string id) ∷ [])
unfolding decode
refresh_read now exp k l id h =
    let in_time : ltb exp now ≡ false = ground (arith, h) in
    rw (in_time, unframed-framed k (framed l id), unframed-framed l id)

access_read :
    (now exp : ℕ) (k r l id : Text)
    → now ≤ exp
    → decode now (1 ∷ exp ∷ framed k (framed r (framed l id)))
      ≡ ok ((k, number exp) ∷ (r, strings []) ∷ (l, string id) ∷ [])
unfolding decode
access_read now exp k r l id h =
    let in_time : ltb exp now ≡ false = ground (arith, h) in
    rw (
      in_time,
      unframed-framed k (framed r (framed l id)),
      unframed-framed r (framed l id),
      unframed-framed l id,
    )

-- Only the first claim is a number.
first_exp :
    (k l : Text) (exp wanted : ℕ) (id : Text)
    → get exp_key ((k, number exp) ∷ (l, string id) ∷ []) ≡ some (number wanted)
    → exp ≡ wanted
unfolding get
first_exp k l exp wanted id h = ground (arith, h)

first_exp_of_three :
    (k r l : Text) (exp wanted : ℕ) (id : Text)
    → get exp_key ((k, number exp) ∷ (r, strings []) ∷ (l, string id) ∷ []) ≡ some (number wanted)
    → exp ≡ wanted
unfolding get
first_exp_of_three k r l exp wanted id h = ground (arith, h)

decoded :
    (claims : Claims) (token : Text) (now exp : ℕ)
    → encode claims ≡ ok token
    → get exp_key claims ≡ some (number exp)
    → get aud_key claims ≡ none
    → now ≤ exp
    → decode now token ≡ ok claims
unfolding encode
decoded ((k, number e) ∷ (l, string id) ∷ []) token now exp signed found free h =
    let same : e ≡ exp = first_exp k l e exp id found in
    let written : 0 ∷ e ∷ framed k (framed l id) ≡ token = ground (arith, signed) in
    subst (λ token. decode now token ≡ ok ((k, number e) ∷ (l, string id) ∷ [])) written
      (refresh_read now e k l id (ground (arith, same, h)))
decoded ((k, number e) ∷ (r, strings []) ∷ (l, string id) ∷ []) token now exp signed found free h =
    let same : e ≡ exp = first_exp_of_three k r l e exp id found in
    let written : 1 ∷ e ∷ framed k (framed r (framed l id)) ≡ token = ground (arith, signed) in
    subst (λ token. decode now token ≡ ok ((k, number e) ∷ (r, strings []) ∷ (l, string id) ∷ []))
      written (access_read now e k r l id (ground (arith, same, h)))
decoded _ token now exp signed found free h = cc

unfoldable pub desk : Outside ℕ
unfolding lit
desk = record {
  uuid_text = λ id. id ∷ [];
  parse_uuid = λ text. elim text [ [] ↦ none | id ∷ _ ↦ some id ];
  validate_email = any (λ c. c == b'@');
  encode = encode;
  decode = decode;
  bcrypt_hash = λ password w. (ok (b'#' ∷ password), w);
  bcrypt_verify = λ password hashed. ok (hashed == b'#' ∷ password);
  sha256_hex = λ text. text;
  random_hex = λ w. (w ∷ [], w);
  now = λ w. (w, w);
  new_uuid = λ w. (w, w);
  statement = λ w. (ok tt, w + 1);
  taken_text = [];
  send_html = λ to subject template_name values w. (ok tt, w);
  consent_url = λ state. state;
  account_for = λ code w. (
    ok (record {
      email = lit "ada@example.com";
      email_verified = true;
      name = lit "Ada Lovelace";
      picture = none;
    }),
    w,
  );
  create_schema = λ user_id draft w. (ok (new [] draft w), w);
}

pub desk-IsFaithful : IsFaithful desk
unfolding desk
desk-IsFaithful = record { decoded = decoded; parsed = λ id. refl }

unfoldable pub desk-IsUp : IsUp desk
unfolding desk
desk-IsUp = record {
  carried_out = λ w. (w + 1, refl);
  hashes = λ password w. (b'#' ∷ password, w, refl);
}
