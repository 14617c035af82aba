-- ===== src/Triples/Basic.antt =====
-- Triples of an action, and a rule for each way to build one.
use schema_forge_backend.Base.{
  ◌≡◌, refl, sym, subst, Bool, true, false, if◌then◌else◌, Result, ok, err, Action, pure, fail,
  settled, failing, after, ◌>>=◌, within, drawn, tables_of, write,
}

module _ {T W E A : Type 0} where
  abbrev pub Post : (T → Type 0) → (A → T → Type 0) → Result A E × (T × W) → Type 0
  Post F Q (ok a, (t, w)) = Q a t
  Post F Q (err e, (t, w)) = F t

  -- From the tables `t`, the action fails with tables where `F` holds, or returns a value `a` with
  -- tables where `Q a` holds.
  pub record Ends (t : T) (F : T → Type 0) (Q : A → T → Type 0) (m : Action (T × W) E A)
      : Type 0 where
    pub at : (w : W) → Post F Q (m (t, w))

  -- The action leaves the tables as they are.
  pub record Reads (m : Action (T × W) E A) : Type 0 where
    pub at : (t : T) → Ends t (λ t'. t' ≡ t) (λ a t'. t' ≡ t) m

module _ {T W E A : Type 0} (F : T → Type 0) (Q : A → T → Type 0) where
  within_result : (t : T) (w : W) (r : Result A E) → F t → ((a : A) → Q a t) → Post F Q (r, (t, w))
  within_result t w (ok a) h k = k a
  within_result t w (err e) h k = h

  failing_result :
      {G : Type 0} (g : E → G) (r : Result A E) (s : T × W)
      → Post F Q (r, s)
      → Post F Q (failing g (λ s. (r, s)) s)
  unfolding failing
  failing_result g (ok a) s h = h
  failing_result g (err e) s h = h

  after_result :
      {B : Type 0} (R : B → T → Type 0) (r : Result A E) (s : T × W) (f : A → Action (T × W) E B)
      → Post F Q (r, s)
      → ((a : A) (t' : T) → Q a t' → Ends t' F R (f a))
      → Post F R (after (r, s) f)
  after_result R (ok a) (t', w) f h k = (k a t' h).at w
  after_result R (err e) (t', w) f h k = h

module _ {T W E A : Type 0} {t : T} {F : T → Type 0} {Q : A → T → Type 0} where
  pub Ends-pure : (a : A) → Q a t → Ends {W = W} {E = E} t F Q (pure a)
  unfolding pure
  Ends-pure a h = record { at = λ w. h }

  pub Ends-fail : (e : E) → F t → Ends {W = W} t F Q (fail e)
  unfolding fail
  Ends-fail e h = record { at = λ w. h }

  pub Ends-settled :
      (r : Result A E) → F t → ((a : A) → r ≡ ok a → Q a t) → Ends {W = W} t F Q (settled r)
  unfolding settled
  Ends-settled (ok a) h k = record { at = λ w. k a refl }
  Ends-settled (err e) h k = record { at = λ w. h }

  pub Ends-within : (m : Action W E A) → F t → ((a : A) → Q a t) → Ends t F Q (within m)
  unfolding within
  Ends-within m h k = record { at = λ w. within_result F Q t (m w).1 (m w).0 h k }

  pub Ends-if :
      (b : Bool) (m n : Action (T × W) E A)
      → (b ≡ true → Ends t F Q m)
      → (b ≡ false → Ends t F Q n)
      → Ends t F Q (if b then m else n)
  Ends-if true m n k l = k refl
  Ends-if false m n k l = l refl

module _ {T W E B : Type 0} {F : T → Type 0} {R : B → T → Type 0} where
  answered :
      {A : Type 0} (t : T) (P : A → Type 0) (r : Result A E) (s : T × W)
      (f : A → Action (T × W) E B)
      → Post (λ t'. t' ≡ t) (λ a t'. P a × (t' ≡ t)) (r, s)
      → F t
      → ((a : A) → P a → Ends t F R (f a))
      → Post F R (after (r, s) f)
  answered t P (ok a) (t', w) f h k l =
      subst (λ t'. Post F R (f a (t', w))) (sym h.1) ((l a h.0).at w)
  answered t P (err e) (t', w) f h k l = subst F (sym h) k

  -- A step that answers with what `P` says and leaves the tables as they are.
  pub Ends-answer :
      {A : Type 0} {t : T} {P : A → Type 0} (m : Action (T × W) E A) (f : A → Action (T × W) E B)
      → Ends t (λ t'. t' ≡ t) (λ a t'. P a × (t' ≡ t)) m
      → F t
      → ((a : A) → P a → Ends t F R (f a))
      → Ends t F R (m >>= f)
  unfolding ◌>>=◌
  Ends-answer {t = t} {P = P} m f h k l = record {
    at = λ w. let (r, s) = m (t, w) in answered t P r s f (h.at w) k l;
  }

module _ {T W E A B : Type 0} {t : T} {F : T → Type 0} {R : B → T → Type 0} where
  pub Ends-bind :
      {Q : A → T → Type 0} (m : Action (T × W) E A) (f : A → Action (T × W) E B)
      → Ends t F Q m
      → ((a : A) (t' : T) → Q a t' → Ends t' F R (f a))
      → Ends t F R (m >>= f)
  unfolding ◌>>=◌
  Ends-bind {Q = Q} m f h k = record {
    at = λ w. let (r, s) = m (t, w) in after_result F Q R r s f (h.at w) k;
  }

  reads_result :
      (r : Result A E) (s : T × W) (f : A → Action (T × W) E B)
      → Post (λ t'. t' ≡ t) (λ a t'. t' ≡ t) (r, s)
      → F t
      → ((a : A) → Ends t F R (f a))
      → Post F R (after (r, s) f)
  reads_result (ok a) (t', w) f same h k =
      subst (λ t'. Post F R (f a (t', w))) (sym same) ((k a).at w)
  reads_result (err e) (t', w) f same h k = subst F (sym same) h

  pub Ends-reads :
      (m : Action (T × W) E A) (f : A → Action (T × W) E B)
      → Reads m
      → F t
      → ((a : A) → Ends t F R (f a))
      → Ends t F R (m >>= f)
  unfolding ◌>>=◌
  Ends-reads m f reads h k = record {
    at = λ w. let (r, s) = m (t, w) in reads_result r s f ((reads.at t).at w) h k;
  }

  pub Ends-within_bind :
      (m : Action W E A) (f : A → Action (T × W) E B)
      → F t
      → ((a : A) → Ends t F R (f a))
      → Ends t F R (within m >>= f)
  Ends-within_bind m f h k =
      Ends-bind {Q = λ a t'. t' ≡ t} (within m) f (Ends-within m h (λ a. refl))
        (λ a t' same. subst (λ t'. Ends t' F R (f a)) (sym same) (k a))

  pub Ends-drawn :
      (m : W → A × W) (f : A → Action (T × W) E B)
      → ((a : A) → Ends t F R (f a))
      → Ends t F R (drawn m >>= f)
  unfolding drawn ◌>>=◌
  Ends-drawn m f k = record { at = λ w. (k (m w).0).at (m w).1 }

module _ {T W E B : Type 0} {t : T} {F : T → Type 0} {R : B → T → Type 0} where
  pub Ends-tables : (f : T → Action (T × W) E B) → Ends t F R (f t) → Ends t F R (tables_of >>= f)
  unfolding tables_of ◌>>=◌
  Ends-tables f h = record { at = h.at }

  pub Ends-write :
      (g : T → T) (f : Unit {0} → Action (T × W) E B)
      → Ends (g t) F R (f tt)
      → Ends t F R (write g >>= f)
  unfolding write ◌>>=◌
  Ends-write g f h = record { at = h.at }

module _ {T W E : Type 0} {t : T} {F : T → Type 0} where
  pub Ends-last_write :
      {Q : Unit {0} → T → Type 0} (g : T → T) → Q tt (g t) → Ends {W = W} {E = E} t F Q (write g)
  unfolding write
  Ends-last_write g h = record { at = λ w. h }

module _ {T W E A : Type 0} {t : T} {F : T → Type 0} {Q : A → T → Type 0} where
  pub Ends-failing :
      {G : Type 0} (g : E → G) (m : Action (T × W) E A) → Ends t F Q m → Ends t F Q (failing g m)
  unfolding failing
  Ends-failing g m h = record {
    at = λ w. let (r, s) = m (t, w) in failing_result F Q g r s (h.at w);
  }
