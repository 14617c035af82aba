-- ===== src/SchemaService/Postgres/Changes.antt =====
-- What a creation and a replacement of src/module/schema/adapter/repository/postgres.rs change in the
-- two tables.
use schema_forge_backend.Base.{
  none, some, false, ◌==◌, nat_eq, any, Option, Result, ok, err, Action, within, settled, ◌>>=◌,
  ◌≡◌, refl, ap, ◌∙◌, subst,
}
use schema_forge_backend.Text.{Text}
use schema_forge_backend.Domain.Schema.{Schema, SchemaDraft}
use schema_forge_backend.SchemaService.Ports.{Uuid, storage}
use schema_forge_backend.SchemaService.Postgres.Rows.{
  SchemaRow, Tables, Outside, World, rolled, transaction,
}
use schema_forge_backend.SchemaService.Postgres.Repository.{
  statement, is_taken, reserve_name, insert_schema, insert_ownership, update_schema, map_schema,
  create, replace,
}
use schema_forge_backend.SchemaService.Postgres.Statements.{inserted, owned_by, updated}
use schema_forge_backend.SchemaService.Postgres.Ownership.{names}
use schema_forge_backend.Triples.{
  Post, Ends, Reads, Ends-pure, Ends-fail, Ends-if, Ends-bind, Ends-reads, Ends-drawn, Ends-tables,
  Ends-write, Ends-last_write, Ends-required, Reads-failing, Reads-within, Reads-settled,
}

-- What holds after a transaction: it failed and nothing changed, or its last step was carried out.
Ends-transaction :
    {Doc W E A : Type 0} {t : Tables Doc} {F G : Tables Doc → Type 0} {Q : A → Tables Doc → Type 0}
    (m : Action (World Doc W) E A)
    → G t
    → Ends t F Q m
    → Ends t G Q (transaction m)
unfolding transaction
Ends-transaction {Doc = Doc} {W = W} {E = E} {A = A} {t = t} {F = F} {G = G} {Q = Q} m g h =
    record { at = λ w. let (r, s) = m (t, w) in settled_tables r s (h.at w) }
  where
    settled_tables :
        (r : Result A E) (s : World Doc W) → Post F Q (r, s) → Post G Q (rolled t (r, s))
    settled_tables (ok a) s q = q
    settled_tables (err e) (t', w) q = g

-- A result that is there, or its error.
Ends-required_result :
    {T W E A B : Type 0} {t : T} {F : T → Type 0} {R : B → T → Type 0} (r : Result A E)
    (f : A → Action (T × W) E B)
    → F t
    → ((a : A) → r ≡ ok a → Ends t F R (f a))
    → Ends t F R (settled r >>= f)
unfolding settled ◌>>=◌
Ends-required_result (err e) f h k = record { at = λ w. h }
Ends-required_result (ok a) f h k = record { at = (k a refl).at }

-- Any tables.
abbrev Anything : {Doc : Type 0} → Tables Doc → Type 0
Anything _ = Unit

module _ {Doc W : Type 0} (o : Outside Doc W) where
  pub stated : Reads (statement o)
  stated = Reads-failing storage (within o.statement) (Reads-within o.statement)

  reserve_name-Reads :
      (owner : Uuid) (name : Text) (except : Option Uuid) → Reads (reserve_name o owner name except)
  unfolding reserve_name
  reserve_name-Reads owner name except = record {
    at = λ t. Ends-reads _ _ stated refl λ _. Ends-reads _ _ stated refl λ _. Ends-tables _ (
        Ends-if (is_taken o owner name except t) _ _ (λ _. Ends-fail _ refl)
          (λ _. Ends-pure _ refl));
  }

  -- The row that an insertion makes is new, and the only change.
  insert_schema-inserted :
      (draft : SchemaDraft) (t : Tables Doc)
      → Ends t Anything
          (λ row t'. (names t.schemas row.id ≡ false) × (t' ≡ inserted row t))
          (insert_schema o draft)
  unfolding insert_schema
  insert_schema-inserted draft t = Ends-reads _ _ stated tt λ _.
      Ends-reads _ _ (Reads-settled _) tt λ _. Ends-drawn _ _ λ id. Ends-drawn _ _ λ now.
        Ends-tables _ (
          Ends-if (names t.schemas id) _ _ (λ _. Ends-fail _ tt)
            (λ fresh. Ends-write _ _ (Ends-pure _ (fresh, refl))))

  insert_ownership-owned_by :
      (owner : Uuid) (row : SchemaRow Doc) (t : Tables Doc)
      → Ends t Anything
          (λ _ t'.
            (any (λ us. us.schema_id == row.id) t.user_schemas ≡ false)
            × (t' ≡ owned_by owner row t))
          (insert_ownership o owner row)
  unfolding insert_ownership
  insert_ownership-owned_by owner row t = Ends-reads _ _ stated tt λ _. Ends-tables _ (
      Ends-if (any (λ us. us.schema_id == row.id) t.user_schemas) _ _ (λ _. Ends-fail _ tt)
        (λ free. Ends-last_write _ (free, refl)))

  -- What a creation that succeeds adds: a schema under a new id, and its row of user_schemas.
  abbrev pub IsCreated : Uuid → Tables Doc → Schema → Tables Doc → Type 0
  IsCreated owner t schema t' =
      (row : SchemaRow Doc) × (map_schema o row ≡ ok schema)
      × (names t.schemas row.id ≡ false)
      × (any (λ us. us.schema_id == row.id) t.user_schemas ≡ false)
      × (t' ≡ owned_by owner row (inserted row t))

  pub create-IsCreated :
      (owner : Uuid) (draft : SchemaDraft) (t : Tables Doc)
      → Ends t (λ t'. t' ≡ t) (IsCreated owner t) (create o owner draft)
  unfolding create
  create-IsCreated owner draft t = Ends-transaction {F = Anything} _ refl (
      Ends-reads _ _ stated tt λ _.
        Ends-reads _ _ (reserve_name-Reads owner draft.name none) tt λ _.
          Ends-bind _ _ (insert_schema-inserted draft t) λ row t₁ (fresh, first).
            Ends-required_result (map_schema o row) _ tt λ schema mapped.
              Ends-bind _ _ (insert_ownership-owned_by owner row t₁) λ _ t₂ (free, second).
                Ends-reads _ _ stated tt λ _. Ends-pure schema (
                  row,
                  mapped,
                  fresh,
                  subst
                      (λ (t₃ : Tables Doc).
                        any (λ us. us.schema_id == row.id) t₃.user_schemas ≡ false)
                      first free,
                  second ∙ ap (owned_by owner row) first,
                ))

  -- What a replacement that succeeds changes: the row that is hit.
  abbrev pub IsReplaced : Uuid → Tables Doc → Tables Doc → Type 0
  IsReplaced owner t t' =
      (id : Uuid) × (set : SchemaRow Doc → SchemaRow Doc) × ((s : SchemaRow Doc)
        → (set s).id ≡ s.id)
      × (t' ≡ updated owner id set t)

  update_schema-IsReplaced :
      (owner id : Uuid) (draft : SchemaDraft) (t : Tables Doc)
      → Ends t Anything (λ _. IsReplaced owner t) (update_schema o owner id draft)
  unfolding update_schema
  update_schema-IsReplaced owner id draft t = Ends-reads _ _ stated tt λ _.
      Ends-reads _ _ (Reads-settled _) tt λ _.
        Ends-drawn _ _
          λ now. Ends-write _ _ (Ends-tables _ (Ends-pure _ (id, _, (λ s. refl), refl)))

  pub replace-IsReplaced :
      (owner : Uuid) (id : Text) (draft : SchemaDraft) (t : Tables Doc)
      → Ends t (λ t'. t' ≡ t) (λ _. IsReplaced owner t) (replace o owner id draft)
  unfolding replace
  replace-IsReplaced owner id draft t = Ends-required _ (o.parse_uuid id) _ refl λ uuid _.
      Ends-transaction {F = Anything} _ refl (
        Ends-reads _ _ stated tt λ _.
          Ends-reads _ _ (reserve_name-Reads owner draft.name (some uuid)) tt λ _.
            Ends-bind _ _ (update_schema-IsReplaced owner uuid draft t) λ found t₁ changed.
              Ends-reads _ _ (Reads-settled _) tt λ row.
                Ends-reads _ _ (Reads-settled _) tt
                  λ schema. Ends-reads _ _ stated tt λ _. Ends-pure schema changed)
