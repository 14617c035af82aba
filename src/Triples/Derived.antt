-- ===== src/Triples/Derived.antt =====
-- Rules for an action that only reads, or that asks for less than is known.
use schema_forge_backend.Base.{
  ◌≡◌, refl, sym, subst, Option, none, some, Result, ok, err, ok_or, Action, pure, settled, failing,
  ◌>>=◌, within, tables_of,
}
use schema_forge_backend.Triples.Basic.{
  Post, Ends, Reads, Ends-answer, Ends-pure, Ends-settled, Ends-within, Ends-reads, Ends-failing,
}

-- The rules that leave the tables as they are.
module _ {T W E : Type 0} where
  pub Reads-pure : {A : Type 0} (a : A) → Reads {T = T} {W = W} {E = E} (pure a)
  Reads-pure a = record { at = λ t. Ends-pure a refl }

  pub Reads-settled : {A : Type 0} (r : Result A E) → Reads {T = T} {W = W} (settled r)
  Reads-settled r = record { at = λ t. Ends-settled r refl (λ a h. refl) }

  pub Reads-within : {A : Type 0} (m : Action W E A) → Reads {T = T} (within m)
  Reads-within m = record { at = λ t. Ends-within m refl (λ a. refl) }

  pub Reads-tables : Reads {T = T} {W = W} {E = E} tables_of
  unfolding tables_of
  Reads-tables = record { at = λ t. record { at = λ w. refl } }

  pub Reads-bind :
      {A B : Type 0} (m : Action (T × W) E A) (f : A → Action (T × W) E B)
      → Reads m
      → ((a : A) → Reads (f a))
      → Reads (m >>= f)
  Reads-bind m f h k = record { at = λ t. Ends-reads m f h refl (λ a. (k a).at t) }

  pub Reads-failing :
      {G A : Type 0} (g : E → G) (m : Action (T × W) E A) → Reads m → Reads (failing g m)
  Reads-failing g m h = record { at = λ t. Ends-failing g m (h.at t) }

pub Ends-weaken :
    {T W E A : Type 0} {t : T} {F : T → Type 0} {Q R : A → T → Type 0} (m : Action (T × W) E A)
    → Ends t F Q m
    → ((a : A) (t' : T) → Q a t' → R a t')
    → Ends t F R m
Ends-weaken {T = T} {W = W} {E = E} {A = A} {t = t} {F = F} {Q = Q} {R = R} m h k = record {
  at = λ w. let (r, s) = m (t, w) in weaker r s (h.at w);
}
  where
    weaker : (r : Result A E) (s : T × W) → Post F Q (r, s) → Post F R (r, s)
    weaker (ok a) (t', w) q = k a t' q
    weaker (err e) (t', w) q = q

pub Ends-refail :
    {T W E A : Type 0} {t : T} {F G : T → Type 0} {Q : A → T → Type 0} (m : Action (T × W) E A)
    → Ends t F Q m
    → ((t' : T) → F t' → G t')
    → Ends t G Q m
Ends-refail {T = T} {W = W} {E = E} {A = A} {F = F} {G = G} {Q = Q} m h k = record {
  at = λ w. let (r, s) = m (_, w) in refailed r s (h.at w);
}
  where
    refailed : (r : Result A E) (s : T × W) → Post F Q (r, s) → Post G Q (r, s)
    refailed (ok a) s q = q
    refailed (err e) (t', w) q = k t' q

-- A result that is there, or the error in its place.
pub Ends-required :
    {T W E A B : Type 0} {t : T} {F : T → Type 0} {R : B → T → Type 0} (e : E) (found : Option A)
    (f : A → Action (T × W) E B)
    → F t
    → ((a : A) → found ≡ some a → Ends t F R (f a))
    → Ends t F R (settled (ok_or e found) >>= f)
unfolding settled ◌>>=◌
Ends-required e none f h k = record { at = λ w. h }
Ends-required e (some a) f h k = record { at = (k a refl).at }

module _ {T W E A : Type 0} (t : T) where
  made :
      (m : Action W E A) (w : W) (r : Result A E) (w' : W)
      → m w ≡ (r, w')
      → Post (λ t'. t' ≡ t) (λ a t'. ((v v' : W) × (m v ≡ (ok a, v'))) × (t' ≡ t)) (r, (t, w'))
  made m w (ok a) w' h = ((w, w', h), refl)
  made m w (err e) w' h = refl

module _ {T W E A B : Type 0} {t : T} {F : T → Type 0} {R : B → T → Type 0} where
  -- A step outside the tables, whose value is one that the step gives.
  pub Ends-made :
      (m : Action W E A) (f : A → Action (T × W) E B)
      → F t
      → ((a : A) → (v v' : W) × (m v ≡ (ok a, v')) → Ends t F R (f a))
      → Ends t F R (within m >>= f)
  unfolding within
  Ends-made m f = Ends-answer (within m) f (record { at = λ w. made t m w (m w).0 (m w).1 refl })

-- An action that only reads keeps what holds of the tables.
pub Reads-Ends :
    {T W E A : Type 0} {F : T → Type 0} (m : Action (T × W) E A) (t : T)
    → F t
    → Reads m
    → Ends t F (λ a t'. F t') m
Reads-Ends {T = T} {W = W} {E = E} {A = A} {F = F} m t h reads = record {
  at = λ w. let (r, s) = m (t, w) in kept r s ((reads.at t).at w);
}
  where
    kept :
        (r : Result A E) (s : T × W)
        → Post (λ t'. t' ≡ t) (λ a t'. t' ≡ t) (r, s)
        → Post F (λ a t'. F t') (r, s)
    kept (ok a) s same = subst F (sym same) h
    kept (err e) s same = subst F (sym same) h

pub ruleset reads_rules =
    (Reads-pure, Reads-settled, Reads-within, Reads-tables, Reads-bind, Reads-failing)
