-- ===== src/Verifier/Cycles/Laws.antt =====
-- What the cycle check adds to a report.
use schema_forge_backend.Base.{
  ℕ, Bool, true, false, ◌≡◌, refl, ◌∙◌, any, if◌then◌else◌, List, [], ◌∷◌, Option, none, some,
  get_elem?,
}
use schema_forge_backend.Text.{Text}
use schema_forge_backend.Domain.Entity.{Entity}
use schema_forge_backend.Domain.Schema.{Schema}
use schema_forge_backend.Domain.Diagnostic.{
  Diagnostic, error, warning, an_error, a_warning, at, push,
}
use schema_forge_backend.Domain.Diagnostic.Code
use schema_forge_backend.Domain.Diagnostic.Laws.{
  Flag, Adds, Adds-push, Adds-cast, Adds-for_each, for_each-about,
}
use schema_forge_backend.Verifier.Cycles.{
  overlaps, id_at, at_position, at_first_of, cycle_diagnostic, report_component, linked, blocked,
  check_cycles,
}

module _ (p : Flag) where
  abbrev pub component_hit : List (List ℕ) → List ℕ → Bool
  component_hit blocked component =
      if overlaps blocked component
      then p Code.circular_dependency error
      else p Code.circular_dependency warning

  at_position-flag :
      (e : Option Entity) (d : Diagnostic)
      → (let d' = at_position e d in p d'.code d'.severity) ≡ p d.code d.severity
  unfolding at_position at
  at_position-flag none d = refl
  at_position-flag (some e) d = refl

  at_first_of-flag :
      (es : List Entity) (component : List ℕ) (d : Diagnostic)
      → (let e = at_first_of es component d in p e.code e.severity) ≡ p d.code d.severity
  unfolding at_first_of
  at_first_of-flag es [] d = refl
  at_first_of-flag es (position ∷ _) d = at_position-flag (get_elem? es position) d

  cycle_diagnostic-flag :
      (b : Bool) (names : Text)
      → (let d = cycle_diagnostic b names in p d.code d.severity)
        ≡ (if b then p Code.circular_dependency error else p Code.circular_dependency warning)
  unfolding cycle_diagnostic an_error a_warning
  cycle_diagnostic-flag true names = refl
  cycle_diagnostic-flag false names = refl

  report_component-Adds :
      (es : List Entity) (blocked : List (List ℕ)) (component : List ℕ)
      → Adds p (report_component es blocked component) (component_hit blocked component)
  unfolding report_component
  report_component-Adds es blocked component =
      Adds-cast p (push _)
        (for_each-about (id_at es) p component _
          ∙ at_first_of-flag es component _
          ∙ cycle_diagnostic-flag _ _)
        (Adds-push p _)

  pub check_cycles-Adds :
      (s : Schema) → Adds p (check_cycles s) (any (component_hit (blocked s)) (linked s))
  unfolding check_cycles
  check_cycles-Adds s =
      Adds-for_each p _ _ (report_component-Adds s.entities (blocked s)) (linked s)
