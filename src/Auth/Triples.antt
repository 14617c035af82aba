-- ===== src/Auth/Triples.antt =====
-- What an action does to the tables of accounts, and the rule for an action that is tried.
use schema_forge_backend.Base.{Result, ok, err, Action, ◌>>=◌}
use schema_forge_backend.Auth.Tables.{Tables, World}
use schema_forge_backend.Auth.Steps.{tried}
pub use schema_forge_backend.Triples.{
  Post, Ends, Reads, Ends-pure, Ends-fail, Ends-settled, Ends-within, Ends-if, Ends-answer,
  Ends-bind, Ends-reads, Ends-within_bind, Ends-drawn, Ends-tables, Ends-write, Ends-last_write,
  Ends-failing, Reads-pure, Reads-settled, Reads-within, Reads-tables, Reads-bind, Reads-failing,
  Ends-weaken, Ends-refail, Ends-required, Ends-made, Reads-Ends, reads_rules,
}

module _ {W E B : Type 0} (F : Tables → Type 0) (R : B → Tables → Type 0) where
  tried_result :
      {G A : Type 0} (Q : A → Tables → Type 0) (r : Result A G) (s : World W)
      (f : Result A G → Action (World W) E B)
      → Post F Q (r, s)
      → ((a : A) (t' : Tables) → Q a t' → Ends t' F R (f (ok a)))
      → ((e : G) (t' : Tables) → F t' → Ends t' F R (f (err e)))
      → Post F R (f r s)
  tried_result Q (ok a) (t', w) f h k l = (k a t' h).at w
  tried_result Q (err e) (t', w) f h k l = (l e t' h).at w

module _ {W E B : Type 0} {t : Tables} {F : Tables → Type 0} {R : B → Tables → Type 0} where
  pub Ends-tried :
      {G A : Type 0} {Q : A → Tables → Type 0} (m : Action (World W) G A)
      (f : Result A G → Action (World W) E B)
      → Ends t F Q m
      → ((a : A) (t' : Tables) → Q a t' → Ends t' F R (f (ok a)))
      → ((e : G) (t' : Tables) → F t' → Ends t' F R (f (err e)))
      → Ends t F R (tried m >>= f)
  unfolding tried ◌>>=◌
  Ends-tried {Q = Q} m f h k l = record {
    at = λ w. let (r, s) = m (t, w) in tried_result F R Q r s f (h.at w) k l;
  }
