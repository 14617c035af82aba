-- ===== src/Verifier/Syntax/Laws.antt =====
-- What the syntax checks add to a report, and which type parameters they accept.
use schema_forge_backend.Base.{
  ℕ, ◌≤◌, Bool, true, false, not, ◌&&◌, ◌||◌, ◌≡◌, ◌↔◌, refl, any, Option, none, some, is_some,
  is_empty, arith, is_empty,
}
use schema_forge_backend.Text.{Text}
use schema_forge_backend.Text.Trim.{trim}
use schema_forge_backend.Domain.DataType.{DataType, takes_length, takes_precision}
use schema_forge_backend.Domain.Attribute.{Attribute}
use schema_forge_backend.Domain.Entity.{Entity}
use schema_forge_backend.Domain.Relationship.{Relationship}
use schema_forge_backend.Domain.Schema.{Schema, has_no_entities}
use schema_forge_backend.Domain.Diagnostic.{
  Diagnostic, warning, error, an_error, a_warning, about, at, push,
}
use schema_forge_backend.Domain.Diagnostic.Code
use schema_forge_backend.Domain.Diagnostic.Laws.{
  Flag, Adds, Adds-skip, Adds-push, Adds-if, Adds-unless, Adds-cast, Adds-for_each_and,
}
use schema_forge_backend.Verifier.Syntax.{
  check_not_empty, check_attribute_name, check_entity_name, check_names, parameter_problem,
  length_problem, precision_problem, report_problem, check_type_parameters, ends_resolve,
  check_ends, check_relationship_ends, max_length, max_precision, at_entity,
}

abbrev pub is_blank : Text → Bool
is_blank name = is_empty (trim name)

abbrev pub has_unnamed : Entity → Bool
has_unnamed e = is_blank e.name || any (λ a. is_blank a.name) e.attributes

abbrev pub has_bad_parameter : Entity → Bool
has_bad_parameter e = any (λ a. is_some (parameter_problem a.data_type)) e.attributes

at_entity-flag :
    (p : Flag) (e : Option Entity) (d : Diagnostic)
    → p (at_entity e d).code (at_entity e d).severity ≡ p d.code d.severity
unfolding at_entity at
at_entity-flag p none d = refl
at_entity-flag p (some e) d = refl

module _ (p : Flag) where
  pub check_not_empty-Adds :
      (s : Schema) → Adds p (check_not_empty s) (has_no_entities s && p Code.empty_schema warning)
  unfolding check_not_empty a_warning
  check_not_empty-Adds s = Adds-if p (has_no_entities s) (push _) _ (Adds-push p _)

  check_entity_name-Adds :
      (e : Entity) → Adds p (check_entity_name e) (is_blank e.name && p Code.empty_name error)
  unfolding check_entity_name at about an_error
  check_entity_name-Adds e = Adds-if p (is_blank e.name) (push _) _ (Adds-push p _)

  check_attribute_name-Adds :
      (e : Entity) (a : Attribute)
      → Adds p (check_attribute_name e a) (is_blank a.name && p Code.empty_name error)
  unfolding check_attribute_name at about an_error
  check_attribute_name-Adds e a = Adds-if p (is_blank a.name) (push _) _ (Adds-push p _)

  pub check_names-Adds :
      (s : Schema) → Adds p (check_names s) (any has_unnamed s.entities && p Code.empty_name error)
  unfolding check_names
  check_names-Adds s =
      Adds-for_each_and p _ has_unnamed (p Code.empty_name error)
        (λ e r. ground (
          arith,
          check_entity_name-Adds e r,
          Adds-for_each_and p (check_attribute_name e) (λ a. is_blank a.name)
              (p Code.empty_name error) (check_attribute_name-Adds e) e.attributes
              (check_entity_name e r),
        ))
        s.entities

  report_problem-Adds :
      (e : Entity) (a : Attribute) (problem : Option Text)
      → Adds p (report_problem e a problem) (is_some problem && p Code.invalid_type_parameter error)
  unfolding report_problem at about an_error
  report_problem-Adds e a none = Adds-skip p
  report_problem-Adds e a (some problem) = Adds-push p _

  pub check_type_parameters-Adds :
      (s : Schema)
      → Adds p
          (check_type_parameters s)
          (any has_bad_parameter s.entities && p Code.invalid_type_parameter error)
  unfolding check_type_parameters
  check_type_parameters-Adds s =
      Adds-for_each_and p _ has_bad_parameter (p Code.invalid_type_parameter error)
        (λ e.
          Adds-for_each_and p _ (λ a. is_some (parameter_problem a.data_type))
            (p Code.invalid_type_parameter error) (λ a. report_problem-Adds e a _) e.attributes)
        s.entities

  check_ends-Adds :
      (s : Schema) (link : Relationship)
      → Adds p (check_ends s link) (not (ends_resolve s link) && p Code.dangling_relationship error)
  unfolding check_ends about an_error
  check_ends-Adds s link =
      Adds-unless p (ends_resolve s link) (push _) _
        (Adds-cast p (push _) (at_entity-flag p _ _) (Adds-push p _))

  pub check_relationship_ends-Adds :
      (s : Schema)
      → Adds p (check_relationship_ends s) (
          any (λ link. not (ends_resolve s link)) s.relationships
          && p Code.dangling_relationship error)
  unfolding check_relationship_ends
  check_relationship_ends-Adds s =
      Adds-for_each_and p (check_ends s) (λ link. not (ends_resolve s link))
        (p Code.dangling_relationship error) (check_ends-Adds s) s.relationships

-- A length of at least 1 that the database allows; none at all is accepted.
abbrev LengthFits : Option ℕ → Type 0
LengthFits none = Unit
LengthFits (some length) = (1 ≤ length) × (length ≤ max_length)

abbrev ScaleFits : Option ℕ → Type 0
ScaleFits none = Unit
ScaleFits (some scale) = scale ≤ max_precision

abbrev PrecisionFits : Option ℕ → Option ℕ → Type 0
PrecisionFits none none = Unit
PrecisionFits none (some scale) = ⊥
PrecisionFits (some precision) scale =
    (1 ≤ precision) × (precision ≤ max_precision) × ScaleFits scale

-- The parameters that apply to the kind, and no others, are read.
abbrev pub ParametersFit : DataType → Type 0
ParametersFit t =
    (takes_length t.kind ≡ true → LengthFits t.length)
    × (takes_length t.kind ≡ false
        → takes_precision t.kind ≡ true
        → PrecisionFits t.precision t.scale)

length_problem_iff : (l : Option ℕ) → (length_problem l ≡ none) ↔ LengthFits l
unfolding length_problem
length_problem_iff none = ground arith
length_problem_iff (some l) = ground arith

precision_problem_iff :
    (precision scale : Option ℕ)
    → (precision_problem precision scale ≡ none) ↔ PrecisionFits precision scale
unfolding precision_problem
precision_problem_iff none none = ground arith
precision_problem_iff none (some scale) = ground arith
precision_problem_iff (some precision) none = ground arith
precision_problem_iff (some precision) (some scale) = ground arith

-- A type is reported exactly when one of the parameters that its kind takes is out of range: a
-- length is from 1 to 10485760, a precision from 1 to 1000, and a scale at most 1000 and not
-- without a precision.
pub parameter_problem_iff : (t : DataType) → (parameter_problem t ≡ none) ↔ ParametersFit t
unfolding parameter_problem
parameter_problem_iff t =
    ground (arith, length_problem_iff t.length, precision_problem_iff t.precision t.scale)
