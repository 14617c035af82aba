-- ===== src/SchemaService/Postgres/Isolation.antt =====
-- That a user's schemas are as they were after the requests of other users, over the two tables.
use schema_forge_backend.Base.{
  ==_refl, none, some, ℕ, true, nat_eq, List, ◌∷◌, any, All, Option, Result, ok, err, Action, ◌≡◌,
  ◌≢◌, refl, sym, ◌∙◌, subst,
}
use schema_forge_backend.Text.{Text}
use schema_forge_backend.Text.Case.{Unicode}
use schema_forge_backend.Domain.Schema.{Schema}
use schema_forge_backend.Pagination.{ListRequest}
use schema_forge_backend.SchemaService.Ports.{Uuid, Generator}
use schema_forge_backend.SchemaService.Isolation.{Spares, IsIsolated, Request, run, run-view}
use schema_forge_backend.SchemaService.Postgres.Rows.{SchemaRow, Tables, Outside, World}
use schema_forge_backend.SchemaService.Postgres.Repository.{
  find_row, index, find_by_id, delete, pg_schema_repository, found_by_id,
}
use schema_forge_backend.SchemaService.Postgres.Statements.{inserted, deleted, is_hit}
use schema_forge_backend.SchemaService.Postgres.Ownership.{
  IsSound, owned, names, owned-updated, updated-IsSound, owned-deleted, deleted-IsSound,
  owned-inserted, inserted-IsSound, owned-owned_by, owned_by-IsSound,
}
use schema_forge_backend.Triples.{
  Post, Ends, Reads, Ends-pure, Ends-fail, Ends-if, Ends-reads, Ends-tables, Ends-write,
  Ends-weaken, Ends-refail, Ends-required, Reads-pure, Reads-Ends, reads_rules,
}
use schema_forge_backend.SchemaService.Postgres.Changes.{
  stated, create-IsCreated, IsCreated, replace-IsReplaced, IsReplaced,
}

module _ {Doc W : Type 0} (o : Outside Doc W) where
  module _ (user caller : Uuid) (another : caller ≢ user) where
    -- The user owns what the user owned, and the keys hold.
    abbrev Fine : Tables Doc → Tables Doc → Type 0
    Fine t t' = (owned user t' ≡ owned user t) × IsSound t'

    created-Fine :
        (t : Tables Doc)
        → IsSound t
        → (schema : Schema) (t' : Tables Doc) → IsCreated o caller t schema t'
        → Fine t t'
    created-Fine t sound schema t' (row, mapped, fresh, free, same) =
        let kept = inserted-IsSound t sound row fresh in
        subst (Fine t) (sym same) (
          owned-owned_by (inserted row t) kept user caller another row
              ∙ owned-inserted t sound user caller another row fresh,
          owned_by-IsSound (inserted row t) kept row caller (named row t) free,
        )
      where
        named : (row : SchemaRow Doc) (t : Tables Doc) → names (row ∷ t.schemas) row.id ≡ true
        named row t = rw (==_refl row.id) refl

    replaced-Fine : (t t' : Tables Doc) → IsSound t → IsReplaced o caller t t' → Fine t t'
    replaced-Fine t t' sound (id, set, kept, same) = subst (Fine t) (sym same) (
      owned-updated t sound user caller another id set kept,
      updated-IsSound t sound user caller another id set kept,
    )

    delete-Fine :
        (id : Text) (t : Tables Doc)
        → IsSound t
        → Ends t (Fine t) (λ _. Fine t) (delete o caller id)
    unfolding delete
    delete-Fine id t sound =
        Ends-required _ (o.parse_uuid id) _ (refl, sound)
          λ uuid _.
            let fine : Fine t (deleted caller uuid t) = (
              owned-deleted t sound user caller another uuid,
              deleted-IsSound t sound user caller another uuid,
            ) in
            Ends-reads _ _ (stated o) (refl, sound)
              λ _. Ends-tables _ (
                Ends-write _ _ (
                  Ends-if (any (is_hit caller uuid t.user_schemas) t.schemas) _ _
                    (λ _. Ends-pure _ fine) (λ _. Ends-fail _ fine)))

    unchanged : (t : Tables Doc) → IsSound t → (t' : Tables Doc) → t' ≡ t → Fine t t'
    unchanged t sound t' same = subst (Fine t) (sym same) (refl, sound)

    spared :
        {E A : Type 0} (m : Action (World Doc W) E A)
        → ((t : Tables Doc) → IsSound t → Ends t (Fine t) (λ _. Fine t) m)
        → Spares (λ u s. owned u s.0) (λ s. IsSound s.0) user m
    spared {E = E} {A = A} m h = record {
      at = λ s sound. let (t, w) = s in let (r, s') = m (t, w) in ended t r s' ((h t sound).at w);
    }
      where
        ended :
            (t : Tables Doc) (r : Result A E) (s' : World Doc W)
            → Post (Fine t) (λ _. Fine t) (r, s')
            → Fine t s'.0
        ended t (ok a) (t', w) fine = fine
        ended t (err e) (t', w) fine = fine

    reads_spared :
        {E A : Type 0} (m : Action (World Doc W) E A)
        → Reads m
        → Spares (λ u s. owned u s.0) (λ s. IsSound s.0) user m
    reads_spared m reads = spared m λ t sound. Reads-Ends m t (refl, sound) reads

    find_by_id-Reads : (id : Text) → Reads (find_by_id o caller id)
    unfolding find_by_id found_by_id find_row
    find_by_id-Reads id = by_id (o.parse_uuid id)
      where
        by_id : (id : Option Uuid) → Reads (found_by_id o caller id)
        by_id none = Reads-pure _
        by_id (some id) = search (reads_rules, stated) depth 8

    index-Reads : (request : ListRequest) → Reads (index o caller request)
    unfolding index
    index-Reads request = search (reads_rules, stated) depth 12

  pg_schema_repository-IsIsolated :
      IsIsolated (λ u s. owned u s.0) (λ s. IsSound s.0) (pg_schema_repository o)
  unfolding pg_schema_repository
  pg_schema_repository-IsIsolated = record {
    index_spares = λ user caller another r.
        reads_spared user caller another _ (index-Reads user caller another r);
    create_spares = λ user caller another d. spared user caller another _ λ t sound.
        Ends-weaken _
          (Ends-refail _ (create-IsCreated o caller d t) (unchanged user caller another t sound))
          (created-Fine user caller another t sound);
    find_spares = λ user caller another id.
        reads_spared user caller another _ (find_by_id-Reads user caller another id);
    replace_spares = λ user caller another id d. spared user caller another _ λ t sound.
        Ends-weaken _
          (Ends-refail _ (replace-IsReplaced o caller id d t)
            (unchanged user caller another t sound))
          (λ _ t'. replaced-Fine user caller another t t' sound);
    delete_spares =
        λ user caller another id. spared user caller another _ (delete-Fine user caller another id);
  }

-- Over the two tables, while their keys hold, any sequence of requests of other users, whatever they
-- answer and whatever statement fails, leaves what a user owns as it is: the same schemas, with the
-- same content, owned since the same time.
pub run-owned :
    {Doc W : Type 0} (u : Unicode) (show_f64 : ℕ → Text) (o : Outside Doc W)
    (generators : List Generator) (user : Uuid) (requests : List (Uuid × Request)) (t : Tables Doc)
    (w : W)
    → IsSound t
    → All (λ (request : Uuid × Request). request.0 ≢ user) requests
    → owned user (run u show_f64 (pg_schema_repository o) generators requests (t, w)).0
      ≡ owned user t
run-owned u show_f64 o generators user requests t w sound others =
    run-view u show_f64 (pg_schema_repository o) generators (λ u s. owned u s.0) (λ s. IsSound s.0)
      (pg_schema_repository-IsIsolated o) user requests (t, w) sound others
