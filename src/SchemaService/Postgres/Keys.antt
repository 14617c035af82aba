-- ===== src/SchemaService/Postgres/Keys.antt =====
-- Lists of rows under a key: what a filter or a change of the rows leaves as it is.
use schema_forge_backend.Base.{
  ℕ, Bool, true, false, not, ◌&&◌, ◌||◌, nat_eq, List, [], ◌∷◌, ◌++◌, map, filter, any, All, Memᴰ,
  ◌≡◌, ◌≢◌, refl, sym, ap, ap₂, ◌∙◌, arith, Bool-cases, inl, inr, All-mem, All-of_mem,
}
use mathlib.Core.List.{flat_map}

module _ {A : Type 0} where
  -- No key occurs twice.
  abbrev pub Distinct : (A → ℕ) → List A → Type 0
  Distinct key [] = Unit
  Distinct key (x ∷ xs) = All (λ y. key y ≢ key x) xs × Distinct key xs

  -- What holds of each member that the filter keeps holds of what it keeps.
  pub All-filtered :
      (P : A → Type 0) (p : A → Bool) (xs : List A)
      → All (λ x. p x ≡ true → P x) xs
      → All P (filter p xs)
  All-filtered P p [] h = tt
  All-filtered P p (x ∷ xs) (h, hs) = elim (Bool-cases (p x)) [
    | inl e ↦ rw e (h e, All-filtered P p xs hs)
    | inr e ↦ rw e (All-filtered P p xs hs)
  ]

  All-filter : (P : A → Type 0) (p : A → Bool) (xs : List A) → All P xs → All P (filter p xs)
  All-filter P p xs h = All-filtered P p xs (All-of_mem _ xs (λ x m _. All-mem P xs h x m))

  pub Distinct-filter :
      (key : A → ℕ) (p : A → Bool) (xs : List A) → Distinct key xs → Distinct key (filter p xs)
  Distinct-filter key p [] d = tt
  Distinct-filter key p (x ∷ xs) (h, d) = elim (Bool-cases (p x)) [
    | inl e ↦ rw e (All-filter _ p xs h, Distinct-filter key p xs d)
    | inr e ↦ rw e (Distinct-filter key p xs d)
  ]

  pub filter-kept :
      (p keep : A → Bool) (xs : List A)
      → All (λ x. p x ≡ true → keep x ≡ true) xs
      → filter p (filter keep xs) ≡ filter p xs
  filter-kept p keep [] h = refl
  filter-kept p keep (x ∷ xs) (h, hs) = ground (arith, h, filter-kept p keep xs hs)

  pub filter-changed :
      (p : A → Bool) (f : A → A) (xs : List A)
      → ((x : A) → p (f x) ≡ p x)
      → ((x : A) → p x ≡ true → f x ≡ x)
      → filter p (map f xs) ≡ filter p xs
  filter-changed p f [] same fixed = refl
  filter-changed p f (x ∷ xs) same fixed =
      ground (arith, same x, fixed x, filter-changed p f xs same fixed)

  pub Distinct-changed :
      (key : A → ℕ) (f : A → A) (xs : List A)
      → ((x : A) → key (f x) ≡ key x)
      → Distinct key xs
      → Distinct key (map f xs)
  Distinct-changed key f [] same d = tt
  Distinct-changed key f (x ∷ xs) same (h, d) = (apart xs h, Distinct-changed key f xs same d)
    where
      apart : (ys : List A) → All (λ y. key y ≢ key x) ys → All (λ y. key y ≢ key (f x)) (map f ys)
      apart [] h = tt
      apart (y ∷ ys) (h, hs) = ((λ e. h (sym (same y) ∙ e ∙ same x)), apart ys hs)

  pub any-changed :
      (p : A → Bool) (f : A → A) (xs : List A)
      → ((x : A) → p (f x) ≡ p x)
      → any p (map f xs) ≡ any p xs
  any-changed p f [] same = refl
  any-changed p f (x ∷ xs) same = ap₂ (λ a b. a || b) (same x) (any-changed p f xs same)

  -- A member that is found and not dropped is found in what is left.
  pub any-left :
      (p drop : A → Bool) (xs : List A)
      → any p xs ≡ true
      → any (λ x. drop x && p x) xs ≡ false
      → any p (filter (λ x. not (drop x)) xs) ≡ true
  any-left p drop [] h k = h
  any-left p drop (x ∷ xs) h k = ground (arith, any-left p drop xs)

  pub flat_map-same :
      {B : Type 0} (f g : A → List B) (xs : List A)
      → All (λ x. f x ≡ g x) xs
      → flat_map f xs ≡ flat_map g xs
  unfolding flat_map
  flat_map-same f g [] h = refl
  flat_map-same f g (x ∷ xs) (h, hs) = ap₂ (λ a b. a ++ b) h (flat_map-same f g xs hs)

  -- Of distinct rows, two with one key are the same.
  pub Distinct-single :
      (key : A → ℕ) (xs : List A)
      → Distinct key xs
      → (x y : A) → Memᴰ x xs
      → Memᴰ y xs
      → key x ≡ key y
      → x ≡ y
  Distinct-single key [] _ x y m n same = elim m [ ]
  Distinct-single key (z ∷ xs) (apart, d) x y (Memᴰ.head e) (Memᴰ.head f) same = e ∙ sym f
  Distinct-single key (z ∷ xs) (apart, d) x y (Memᴰ.head e) (Memᴰ.tail n) same =
      absurd (All-mem (λ w. key w ≢ key z) xs apart y n (sym same ∙ ap key e))
  Distinct-single key (z ∷ xs) (apart, d) x y (Memᴰ.tail m) (Memᴰ.head f) same =
      absurd (All-mem (λ w. key w ≢ key z) xs apart x m (same ∙ ap key f))
  Distinct-single key (z ∷ xs) (apart, d) x y (Memᴰ.tail m) (Memᴰ.tail n) same =
      Distinct-single key xs d x y m n same
