-- ===== src/SchemaService/Postgres/Ownership.antt =====
-- What a change of one user's rows leaves of another's, and that the keys of the two tables hold.
use schema_forge_backend.Base.{
  Bool, true, false, not, ◌&&◌, ◌==◌, ==_iff, nat_eq, if◌then◌else◌, List, map, filter, flat_map,
  any, any-true_iff, any-none, All, All-mem, All-of_mem, Memᴰ, ◌≡◌, ◌≢◌, refl, sym, ap, ◌∙◌, arith,
  any-false_iff, Bool-cases, inl, inr, ◌↔◌,
}
use schema_forge_backend.SchemaService.Ports.{Uuid}
use schema_forge_backend.SchemaService.Postgres.Rows.{SchemaRow, Ownership, Tables, rows_of}
use schema_forge_backend.SchemaService.Postgres.Statements.{
  is_hit, inserted, owned_by, updated, deleted,
}
use schema_forge_backend.SchemaService.Postgres.Keys.{
  Distinct, All-filtered, Distinct-filter, filter-kept, filter-changed, Distinct-changed,
  any-changed, any-left, flat_map-same, Distinct-single,
}

-- What a user owns: each schema that the user's rows of user_schemas name, beside that row.
abbrev pub of_user : Uuid → List Ownership → List Ownership
of_user user user_schemas = filter (λ us. us.user_id == user) user_schemas

abbrev pub owned : {Doc : Type 0} → Uuid → Tables Doc → List (SchemaRow Doc × Ownership)
owned user t = flat_map (rows_of t.schemas) (of_user user t.user_schemas)

abbrev pub names : {Doc : Type 0} → List (SchemaRow Doc) → Uuid → Bool
names schemas id = any (λ s. s.id == id) schemas

-- The two primary keys, and the foreign key from one table to the other.
pub record IsSound {Doc : Type 0} (t : Tables Doc) : Type 0 where
  pub single : Distinct (λ us. us.schema_id) t.user_schemas
  pub keyed : Distinct (λ s. s.id) t.schemas
  pub refers : All (λ us. names t.schemas us.schema_id ≡ true) t.user_schemas

module _ {Doc : Type 0} (t : Tables Doc) (sound : IsSound t) (user caller : Uuid)
    (another : caller ≢ user) where
  never : {b : Bool} → b ≡ true → b ≡ false → ⊥
  never h k = cc

  -- A change of the caller's does not hit a schema of the user's.
  unhit :
      (us : Ownership)
      → Memᴰ us t.user_schemas
      → us.user_id ≡ user
      → (id : Uuid) (s : SchemaRow Doc) → (s.id == us.schema_id) ≡ true
      → is_hit caller id t.user_schemas s ≡ false
  unhit us member of id s named =
      elim (Bool-cases (any (λ vs. vs.schema_id == s.id && vs.user_id == caller) t.user_schemas)) [
        | inl e ↦
            let (vs, n, h) =
              (any-true_iff (λ (vs : Ownership). vs.schema_id == s.id && vs.user_id == caller)
                  t.user_schemas).0
                e in
            let key : us.schema_id ≡ vs.schema_id =
              ground (arith, ==_iff s.id us.schema_id, ==_iff vs.schema_id s.id) in
            let same = Distinct-single _ t.user_schemas sound.single us vs member n key in
            let caller_of : vs.user_id ≡ caller = ground (arith, ==_iff vs.user_id caller) in
            absurd (another (sym caller_of ∙ sym (ap (λ o. o.user_id) same) ∙ of))
        | inr e ↦ rw e (ground arith)
      ]

  spared :
      (us : Ownership)
      → Memᴰ us t.user_schemas
      → us.user_id ≡ user
      → (id : Uuid) (s : SchemaRow Doc)
      → (is_hit caller id t.user_schemas s && s.id == us.schema_id) ≡ false
  spared us member of id s = elim (Bool-cases (s.id == us.schema_id)) [
    | inl named ↦ rw (unhit us member of id s named) refl
    | inr e ↦ rw e (ground arith)
  ]

  module _ (id : Uuid) (set : SchemaRow Doc → SchemaRow Doc)
      (kept : (s : SchemaRow Doc) → (set s).id ≡ s.id) where
    changed : SchemaRow Doc → SchemaRow Doc
    changed s = if is_hit caller id t.user_schemas s then set s else s

    changed-id : (s : SchemaRow Doc) → (changed s).id ≡ s.id
    unfolding changed
    changed-id s = elim (Bool-cases (is_hit caller id t.user_schemas s)) [
      | inl e ↦ rw e (kept s)
      | inr e ↦ rw e refl
    ]

    pub owned-updated : owned user (updated caller id set t) ≡ owned user t
    unfolding changed
    owned-updated = flat_map-same _ _ (of_user user t.user_schemas) (
        All-filtered _ _ t.user_schemas (
          All-of_mem _ t.user_schemas λ us member of. ap (map λ s. (s, us)) (
            filter-changed (λ s. s.id == us.schema_id) changed t.schemas
              (λ s. ap (λ k. k == us.schema_id) (changed-id s))
              (λ s named. rw (unhit us member ((==_iff us.user_id user).0 of) id s named) refl))))

    pub updated-IsSound : IsSound (updated caller id set t)
    unfolding changed
    updated-IsSound = record {
      single = sound.single;
      keyed = Distinct-changed (λ s. s.id) changed t.schemas changed-id sound.keyed;
      refers = All-of_mem _ t.user_schemas λ us member.
          any-changed (λ s. s.id == us.schema_id) changed t.schemas
            (λ s. ap (λ k. k == us.schema_id) (changed-id s))
          ∙ All-mem _ t.user_schemas sound.refers us member;
    }

  gone : Uuid → Ownership → Bool
  gone id us = any (λ s. is_hit caller id t.user_schemas s && s.id == us.schema_id) t.schemas

  pub owned-deleted : (id : Uuid) → owned user (deleted caller id t) ≡ owned user t
  unfolding gone
  owned-deleted id =
      ap (flat_map (rows_of (deleted caller id t).schemas)) (
        filter-kept _ (λ us. not (gone id us)) t.user_schemas
          (All-of_mem _ t.user_schemas λ us member of.
            ap not
              (any-none _ t.schemas λ s. spared us member ((==_iff us.user_id user).0 of) id s)))
      ∙ flat_map-same _ _ (of_user user t.user_schemas) (
          All-filtered _ _ t.user_schemas (
            All-of_mem _ t.user_schemas λ us member of. ap (map λ s. (s, us)) (
              filter-kept _ (λ s. not (is_hit caller id t.user_schemas s)) t.schemas
                (All-of_mem _ t.schemas λ s _ named.
                  ap not (unhit us member ((==_iff us.user_id user).0 of) id s named)))))

  pub deleted-IsSound : (id : Uuid) → IsSound (deleted caller id t)
  unfolding gone
  deleted-IsSound id = record {
    single =
        Distinct-filter (λ us. us.schema_id) (λ us. not (gone id us)) t.user_schemas sound.single;
    keyed =
        Distinct-filter (λ s. s.id) (λ s. not (is_hit caller id t.user_schemas s)) t.schemas
          sound.keyed;
    refers =
        All-filtered _ (λ us. not (gone id us)) t.user_schemas
          (All-of_mem _ t.user_schemas λ us member stays. ground (
            arith,
            any-left (λ s. s.id == us.schema_id) (is_hit caller id t.user_schemas) t.schemas
                (All-mem _ t.user_schemas sound.refers us member),
          ));
  }

  pub owned-inserted :
      (row : SchemaRow Doc)
      → names t.schemas row.id ≡ false
      → owned user (inserted row t) ≡ owned user t
  owned-inserted row fresh = flat_map-same _ _ (of_user user t.user_schemas) (
      All-filtered _ _ t.user_schemas (
        All-of_mem _ t.user_schemas λ us member of.
          let named = All-mem _ t.user_schemas sound.refers us member in
          elim (Bool-cases (row.id == us.schema_id)) [
            | inl e ↦ absurd (never named (ap (names t.schemas) (sym ((==_iff _ _).0 e)) ∙ fresh))
            | inr e ↦ rw e refl
          ]))

  pub owned-owned_by : (row : SchemaRow Doc) → owned user (owned_by caller row t) ≡ owned user t
  owned-owned_by row =
      let other : (caller == user) ≡ false = ground (arith, ==_iff caller user) in rw other refl

module _ {Doc : Type 0} (t : Tables Doc) (sound : IsSound t) (row : SchemaRow Doc) where
  apart_iff : (k : Uuid) → ((k == row.id) ≡ false) ↔ (k ≢ row.id)
  apart_iff k = ground (arith, ==_iff k row.id)

  pub inserted-IsSound : names t.schemas row.id ≡ false → IsSound (inserted row t)
  inserted-IsSound fresh = record {
    single = sound.single;
    keyed = (
      (any-false_iff (λ s. s.id == row.id) t.schemas (λ s. apart_iff s.id)).0 fresh,
      sound.keyed,
    );
    refers = All-of_mem _ t.user_schemas λ us member.
        let named = All-mem _ t.user_schemas sound.refers us member in rw named (ground arith);
  }

  pub owned_by-IsSound :
      (caller : Uuid)
      → names t.schemas row.id ≡ true
      → any (λ us. us.schema_id == row.id) t.user_schemas ≡ false
      → IsSound (owned_by caller row t)
  owned_by-IsSound caller named free = record {
    single = (
      (any-false_iff (λ us. us.schema_id == row.id) t.user_schemas (λ us. apart_iff us.schema_id)).0
          free,
      sound.single,
    );
    keyed = sound.keyed;
    refers = (named, sound.refers);
  }
