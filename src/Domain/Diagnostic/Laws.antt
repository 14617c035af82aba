-- ===== src/Domain/Diagnostic/Laws.antt =====
-- How a check changes a report: which diagnostics are in it afterwards. A flag reads the code and
-- the severity of a diagnostic, which are fixed when it is made.
use schema_forge_backend.Base.{
  Bool, true, false, not, ◌&&◌, ◌||◌, ◌≡◌, refl, List, [], ◌∷◌, ◌++◌, any, for_each, arith,
  if◌then◌else◌,
}
use schema_forge_backend.Text.{Text}
use schema_forge_backend.Domain.Diagnostic.{
  Diagnostic, Severity, Report, push, is_valid, is_error_severity, about, empty,
}

abbrev pub Flag : Type 0
Flag = Text → Severity → Bool

abbrev pub hits : Flag → Report → Bool
hits p r = any (λ d. p d.code d.severity) r.diagnostics

abbrev pub severe : Flag
severe _ severity = is_error_severity severity

-- Whatever is in a report before, a flagged diagnostic is in it afterwards if it was there or `hit`.
abbrev pub Adds : Flag → (Report → Report) → Bool → Type 0
Adds p f hit = (r : Report) → hits p (f r) ≡ (hits p r || hit)

any-append {ℓ} :
    {A : Type ℓ} (p : A → Bool) (xs ys : List A) → any p (xs ++ ys) ≡ (any p xs || any p ys)
any-append p [] ys = refl
any-append p (x ∷ xs) ys = ground (arith, any-append p xs ys)

pub is_valid-eq-hits : (r : Report) → is_valid r ≡ not (hits severe r)
unfolding is_valid
is_valid-eq-hits r = refl

pub hits-empty : (p : Flag) → hits p empty ≡ false
unfolding empty
hits-empty p = refl

module _ (p : Flag) where
  pub Adds-skip : Adds p (λ r. r) false
  Adds-skip r = ground arith

  pub Adds-push : (d : Diagnostic) → Adds p (push d) (p d.code d.severity)
  unfolding push
  Adds-push d r = ground (arith, any-append (λ e. p e.code e.severity) r.diagnostics (d ∷ []))

  pub Adds-then :
      (f g : Report → Report) (a b : Bool)
      → Adds p f a
      → Adds p g b
      → Adds p (λ r. g (f r)) (a || b)
  Adds-then f g a b hf hg r = ground (arith, hf r, hg (f r))

  pub Adds-if :
      (c : Bool) (f : Report → Report) (a : Bool)
      → Adds p f a
      → Adds p (λ r. if c then f r else r) (c && a)
  Adds-if true f a h r = h r
  Adds-if false f a h r = ground arith

  pub Adds-unless :
      (c : Bool) (f : Report → Report) (a : Bool)
      → Adds p f a
      → Adds p (λ r. if c then r else f r) (not c && a)
  Adds-unless true f a h r = ground arith
  Adds-unless false f a h r = h r

  pub Adds-either :
      (c : Bool) (f g : Report → Report) (a b : Bool)
      → Adds p f a
      → Adds p g b
      → Adds p (λ r. if c then f r else g r) (if c then a else b)
  Adds-either true f g a b hf hg = hf
  Adds-either false f g a b hf hg = hg

  pub Adds-for_each {ℓ} :
      {A : Type ℓ} (body : A → Report → Report) (hit : A → Bool)
      → ((x : A) → Adds p (body x) (hit x))
      → (xs : List A) → Adds p (for_each xs body) (any hit xs)
  Adds-for_each body hit h [] r = ground arith
  Adds-for_each body hit h (x ∷ xs) r =
      ground (arith, h x r, Adds-for_each body hit h xs (body x r))

pub any-and {ℓ} :
    {A : Type ℓ} (q : A → Bool) (c : Bool) (xs : List A) → any (λ x. q x && c) xs ≡ (any q xs && c)
any-and q c [] = refl
any-and q c (x ∷ xs) = ground (arith, any-and q c xs)

-- The code and the severity survive what is attached to a diagnostic later.
pub about-code : (i : Text) (d : Diagnostic) → (about i d).code ≡ d.code
unfolding about
about-code i d = refl

pub for_each-about {ℓ} :
    {A : Type ℓ} (id_of : A → Text) (p : Flag) (xs : List A) (d : Diagnostic)
    → let e = for_each xs (λ x. about (id_of x)) d in p e.code e.severity ≡ p d.code d.severity
unfolding about
for_each-about id_of p [] d = refl
for_each-about id_of p (x ∷ xs) d = for_each-about id_of p xs (about (id_of x) d)

pub Adds-cast : (p : Flag) (f : Report → Report) {a b : Bool} → a ≡ b → Adds p f a → Adds p f b
Adds-cast p f e h r = rw (← e) (h r)

-- A loop whose every round adds, if anything, a diagnostic of one code and severity.
pub Adds-for_each_and {ℓ} :
    {A : Type ℓ} (p : Flag) (body : A → Report → Report) (q : A → Bool) (c : Bool)
    → ((x : A) → Adds p (body x) (q x && c))
    → (xs : List A) → Adds p (for_each xs body) (any q xs && c)
Adds-for_each_and p body q c h xs =
    Adds-cast p (for_each xs body) (any-and q c xs) (Adds-for_each p body (λ x. q x && c) h xs)
