-- ===== src/Exchange/Compare/InOrder.antt =====
-- When a list is matched against itself, each element takes its own copy: all before it are taken, all
-- after it are free.
use schema_forge_backend.Base.{
  ℕ, suc, Bool, true, false, ◌≡◌, refl, sym, ap, ◌∙◌, List, [], ◌∷◌, ◌++◌, append_assoc, append-nil,
  length, arith, set, get_elem?, some, for_each, subst, ap₂, ◌-◌, ◌+◌, replicate, length-append,
}
use schema_forge_backend.Exchange.Compare.Matching.{find_free, free_from, none_taken}

abbrev pub all_taken {ℓ} : {A : Type ℓ} → List A → List Bool
all_taken [] = []
all_taken (x ∷ xs) = true ∷ all_taken xs

-- What holds before a loop and is carried over each element holds after it, at the whole list.
pub for_each-prefix :
    {X S : Type 0} (J : List X → S → Type 0) (step : X → S → S) (lefts : List X)
    → ((pre : List X) (x : X) (suf : List X) (s : S)
        → lefts ≡ pre ++ x ∷ suf
        → J pre s
        → J (pre ++ x ∷ []) (step x s))
    → (pre suf : List X) (s : S) → lefts ≡ pre ++ suf
    → J pre s
    → J lefts (for_each suf step s)
for_each-prefix J step lefts carry pre [] s e j = subst (λ xs. J xs s) (sym (e ∙ append-nil pre)) j
for_each-prefix J step lefts carry pre (x ∷ suf) s e j =
    for_each-prefix J step lefts carry (pre ++ x ∷ []) suf (step x s)
      (e ∙ sym (append_assoc pre (x ∷ []) suf)) (carry pre x suf s e j)

module _ {A : Type 0} where
  pub find_next :
      (fits : A → Bool) (pre : List A) (x : A) (suf : List A)
      → fits x ≡ true
      → find_free fits (all_taken pre ++ none_taken (x ∷ suf)) (pre ++ x ∷ suf)
        ≡ some (length pre, x)
  unfolding find_free
  find_next fits [] x suf h = ground (arith, h)
  find_next fits (y ∷ pre) x suf h = rw (find_next fits pre x suf h) refl

  pub set_next :
      (pre : List A) (x : A) (rest : List Bool)
      → set (all_taken pre ++ false ∷ rest) (length pre) true ≡ all_taken (pre ++ x ∷ []) ++ rest
  set_next [] x rest = refl
  set_next (y ∷ pre) x rest = ap (λ ts. true ∷ ts) (set_next pre x rest)

  pub get_next :
      (pre : List A) (x : A) (suf : List A) → get_elem? (pre ++ x ∷ suf) (length pre) ≡ some x
  get_next [] x suf = refl
  get_next (y ∷ pre) x suf = get_next pre x suf

  pub none_free : (at : ℕ) (xs : List A) → free_from at (all_taken xs) xs ≡ []
  unfolding free_from
  none_free at [] = refl
  none_free at (x ∷ xs) = none_free (suc at) xs

  -- The flags when exactly the elements of `pre`, the first of `xs`, are taken.
  abbrev pub TakenUpTo : List A → List A → List Bool → Type 0
  TakenUpTo xs pre taken = taken ≡ all_taken pre ++ replicate (length xs - length pre) false

  left_over :
      (xs pre suf : List A)
      → xs ≡ pre ++ suf
      → replicate (length xs - length pre) false ≡ none_taken suf
  left_over xs pre suf e =
      let sum : length xs ≡ length pre + length suf = ap length e ∙ length-append pre suf in
      let rest : length xs - length pre ≡ length suf = omega (arith, sum) in
      ap (λ n. replicate n false) rest

  pub taken_start : (xs : List A) → TakenUpTo xs [] (none_taken xs)
  taken_start xs = sym (left_over xs [] xs refl)

  pub found_next :
      (fits : A → Bool) (xs pre : List A) (x : A) (suf : List A) (taken : List Bool)
      → xs ≡ pre ++ x ∷ suf
      → TakenUpTo xs pre taken
      → fits x ≡ true
      → find_free fits taken xs ≡ some (length pre, x)
  found_next fits xs pre x suf taken e up_to h =
      ap₂ (λ ts ys. find_free fits ts ys)
        (up_to ∙ ap (λ rest. all_taken pre ++ rest) (left_over xs pre (x ∷ suf) e)) e
      ∙ find_next fits pre x suf h

  pub taken_next :
      (xs pre : List A) (x : A) (suf : List A) (taken : List Bool)
      → xs ≡ pre ++ x ∷ suf
      → TakenUpTo xs pre taken
      → TakenUpTo xs (pre ++ x ∷ []) (set taken (length pre) true)
  taken_next xs pre x suf taken e up_to =
      ap (λ ts. set ts (length pre) true)
        (up_to ∙ ap (λ rest. all_taken pre ++ rest) (left_over xs pre (x ∷ suf) e))
      ∙ set_next pre x (none_taken suf)
      ∙ ap (λ rest. all_taken (pre ++ x ∷ []) ++ rest)
          (sym (left_over xs (pre ++ x ∷ []) suf (e ∙ sym (append_assoc pre (x ∷ []) suf))))

  pub all_found :
      (xs : List A) (taken : List Bool) → TakenUpTo xs xs taken → free_from 0 taken xs ≡ []
  all_found xs taken up_to =
      ap (λ ts. free_from 0 ts xs)
        (up_to
          ∙ ap (λ rest. all_taken xs ++ rest) (left_over xs xs [] (sym (append-nil xs)))
          ∙ append-nil (all_taken xs))
      ∙ none_free 0 xs
