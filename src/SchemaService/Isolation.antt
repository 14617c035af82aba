-- ===== src/SchemaService/Isolation.antt =====
-- That one user's requests leave what another user owns as it is, given that the store's operations do.
use schema_forge_backend.Base.{
  ℕ, ◌≡◌, ◌≢◌, refl, ◌∙◌, List, [], ◌∷◌, Result, ok, err, Action, pure, settled, failing, after,
  ◌>>=◌, All,
}
use schema_forge_backend.Text.{Text}
use schema_forge_backend.Text.Case.{Unicode}
use schema_forge_backend.Domain.Schema.{SchemaDraft}
use schema_forge_backend.Pagination.{ListRequest}
use schema_forge_backend.SchemaService.Ports.{
  Uuid, SchemaRepository, Generator, ValidationTarget, stored, drawn, GenerateRequest,
  CompareRequest,
}
use schema_forge_backend.SchemaService.Service.{
  index, create, find_by_id, resolve, replace, delete, validate, generate_ddl, compare,
}

-- The trait `SchemaService`, by the methods that go to the store.
pub data Request : Type 0 where
  listing : ListRequest → Request
  creating : SchemaDraft → Request
  finding : Text → Request
  replacing : Text → SchemaDraft → Request
  deleting : Text → Request
  validating : ValidationTarget → Request
  generating : GenerateRequest → Request
  comparing : CompareRequest → Request

module _ {S V : Type 0} (view : Uuid → S → V) (inv : S → Type 0) where
  -- From a state in which `inv` holds, the action leaves what the user owns as it is, and `inv`
  -- holds after it.
  pub record Spares {E A : Type 0} (user : Uuid) (m : Action S E A) : Type 0 where
    pub at : (s : S) → inv s → (view user (m s).1 ≡ view user s) × inv (m s).1

  -- What ports.rs says of the store: it only ever answers about, and changes, the caller's own.
  pub record IsIsolated (repository : SchemaRepository S) : Type 0 where
    pub index_spares :
        (user caller : Uuid)
        → caller ≢ user
        → (r : ListRequest) → Spares user (repository.index caller r)
    pub create_spares :
        (user caller : Uuid)
        → caller ≢ user
        → (d : SchemaDraft) → Spares user (repository.create caller d)
    pub find_spares :
        (user caller : Uuid)
        → caller ≢ user
        → (id : Text) → Spares user (repository.find_by_id caller id)
    pub replace_spares :
        (user caller : Uuid)
        → caller ≢ user
        → (id : Text) (d : SchemaDraft) → Spares user (repository.replace caller id d)
    pub delete_spares :
        (user caller : Uuid)
        → caller ≢ user
        → (id : Text) → Spares user (repository.delete caller id)

  module _ {E : Type 0} (user : Uuid) where
    Spares-pure : {A : Type 0} (a : A) → Spares {E = E} user (pure a)
    unfolding pure
    Spares-pure a = record { at = λ s i. (refl, i) }

    Spares-settled : {A : Type 0} (r : Result A E) → Spares user (settled r)
    unfolding settled
    Spares-settled r = record { at = λ s i. (refl, i) }

    Spares-failing :
        {D A : Type 0} (f : D → E) (m : Action S D A) → Spares user m → Spares user (failing f m)
    unfolding failing
    Spares-failing f m h = record { at = h.at }

    after-Spares :
        {A B : Type 0} (r : Result A E) (s : S) (f : A → Action S E B)
        → inv s
        → ((a : A) → Spares user (f a))
        → (view user (after (r, s) f).1 ≡ view user s) × inv (after (r, s) f).1
    after-Spares (ok a) s f i k = (k a).at s i
    after-Spares (err e) s f i k = (refl, i)

    Spares-bind :
        {A B : Type 0} (m : Action S E A) (f : A → Action S E B)
        → Spares user m
        → ((a : A) → Spares user (f a))
        → Spares user (m >>= f)
    unfolding ◌>>=◌
    Spares-bind m f h k = record {
      at = λ s i.
          let (r, s') = m s in
          let (same, kept) = h.at s i in
          let (later, last) = after-Spares r s' f kept k in (later ∙ same, last);
    }

ruleset spares_rules = (Spares-pure, Spares-settled, Spares-failing, Spares-bind)

module _ {S : Type 0} (u : Unicode) (show_f64 : ℕ → Text) (repository : SchemaRepository S)
    (generators : List Generator) where
  -- The state after a request of a caller.
  unfoldable pub serve : Uuid × Request → S → S
  serve (caller, listing r) s = (index u show_f64 repository generators caller r s).1
  serve (caller, creating d) s = (create u show_f64 repository generators caller d s).1
  serve (caller, finding id) s = (find_by_id u show_f64 repository generators caller id s).1
  serve (caller, replacing id d) s = (replace u show_f64 repository generators caller id d s).1
  serve (caller, deleting id) s = (delete u show_f64 repository generators caller id s).1
  serve (caller, validating t) s = (validate u show_f64 repository generators caller t s).1
  serve (caller, generating r) s = (generate_ddl u show_f64 repository generators caller r s).1
  serve (caller, comparing r) s = (compare u show_f64 repository generators caller r s).1

  unfoldable pub run : List (Uuid × Request) → S → S
  unfolding serve
  run [] s = s
  run (request ∷ requests) s = run requests (serve request s)

  module _ {V : Type 0} (view : Uuid → S → V) (inv : S → Type 0)
      (isolated : IsIsolated view inv repository) (user caller : Uuid)
      (another : caller ≢ user) where
    resolve-Spares :
        (t : ValidationTarget)
        → Spares view inv user (resolve u show_f64 repository generators caller t)
    unfolding resolve find_by_id
    resolve-Spares (stored id) = search (spares_rules, isolated.find_spares user caller another)
    resolve-Spares (drawn schema) = search spares_rules

    index-Spares :
        (r : ListRequest) → Spares view inv user (index u show_f64 repository generators caller r)
    unfolding index
    index-Spares r = search (spares_rules, isolated.index_spares user caller another)

    create-Spares :
        (d : SchemaDraft) → Spares view inv user (create u show_f64 repository generators caller d)
    unfolding create
    create-Spares d = search (spares_rules, isolated.create_spares user caller another)

    find_by_id-Spares :
        (id : Text) → Spares view inv user (find_by_id u show_f64 repository generators caller id)
    unfolding find_by_id
    find_by_id-Spares id = search (spares_rules, isolated.find_spares user caller another)

    replace-Spares :
        (id : Text) (d : SchemaDraft)
        → Spares view inv user (replace u show_f64 repository generators caller id d)
    unfolding replace
    replace-Spares id d = search (spares_rules, isolated.replace_spares user caller another)

    delete-Spares :
        (id : Text) → Spares view inv user (delete u show_f64 repository generators caller id)
    unfolding delete
    delete-Spares id = search (spares_rules, isolated.delete_spares user caller another)

    validate-Spares :
        (t : ValidationTarget)
        → Spares view inv user (validate u show_f64 repository generators caller t)
    unfolding validate
    validate-Spares t = search (spares_rules, resolve-Spares)

    generate_ddl-Spares :
        (r : GenerateRequest)
        → Spares view inv user (generate_ddl u show_f64 repository generators caller r)
    unfolding generate_ddl
    generate_ddl-Spares r = search (spares_rules, resolve-Spares)

    compare-Spares :
        (r : CompareRequest)
        → Spares view inv user (compare u show_f64 repository generators caller r)
    unfolding compare
    compare-Spares r = search (spares_rules, resolve-Spares)

    serve-view :
        (request : Request) (s : S)
        → inv s
        → (view user (serve (caller, request) s) ≡ view user s) × inv (serve (caller, request) s)
    unfolding serve
    serve-view (listing r) s = (index-Spares r).at s
    serve-view (creating d) s = (create-Spares d).at s
    serve-view (finding id) s = (find_by_id-Spares id).at s
    serve-view (replacing id d) s = (replace-Spares id d).at s
    serve-view (deleting id) s = (delete-Spares id).at s
    serve-view (validating t) s = (validate-Spares t).at s
    serve-view (generating r) s = (generate_ddl-Spares r).at s
    serve-view (comparing r) s = (compare-Spares r).at s

  -- The requests of other callers, whatever they answer.
  pub run-view :
      {V : Type 0} (view : Uuid → S → V) (inv : S → Type 0)
      → IsIsolated view inv repository
      → (user : Uuid) (requests : List (Uuid × Request)) (s : S) → inv s
      → All (λ (request : Uuid × Request). request.0 ≢ user) requests
      → view user (run requests s) ≡ view user s
  unfolding run
  run-view view inv isolated user [] s i others = refl
  run-view view inv isolated user ((caller, request) ∷ requests) s i (another, others) =
      let (same, kept) = serve-view view inv isolated user caller another request s i in
      run-view view inv isolated user requests (serve (caller, request) s) kept others ∙ same
