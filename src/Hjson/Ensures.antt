-- ===== src/Hjson/Ensures.antt =====
-- Postconditions of the functions that read a part of a text: they have fuel enough, they stop at a
-- tail of the text, and `T` holds when they throw.
use async.Base.{◌≡◌, refl, Bool, true, false, if◌then◌else◌}
use async.Hjson.Reader.{Reader}
use async.Hjson.Strings.{Outcome, ok, rejected, thrown, and_then}

pub data Ensures {A : Type 0} (T : Type 0) (Q : A → Reader → Type 0) : Outcome A → Type 0 where
  holds : {a : A} {r : Reader} → Q a r → Ensures T Q (ok a r)
  refused : Ensures T Q rejected
  raised : T → Ensures T Q thrown

module _ {A : Type 0} {T : Type 0} {Q : A → Reader → Type 0} where
  pub Ensures-weaken :
      {R : A → Reader → Type 0} {o : Outcome A}
      → Ensures T Q o
      → ((a : A) (r : Reader) → Q a r → R a r)
      → Ensures T R o
  Ensures-weaken (holds {a = a} {r = r} q) f = holds (f a r q)
  Ensures-weaken refused f = refused
  Ensures-weaken (raised t) f = raised t

  pub Ensures-if :
      (b : Bool) {o p : Outcome A}
      → (b ≡ true → Ensures T Q o)
      → (b ≡ false → Ensures T Q p)
      → Ensures T Q (if b then o else p)
  Ensures-if true h k = h refl
  Ensures-if false h k = k refl

  pub Ensures-bind :
      {B : Type 0} {R : B → Reader → Type 0} {o : Outcome A} {f : A → Reader → Outcome B}
      → Ensures T Q o
      → ((a : A) (r : Reader) → Q a r → Ensures T R (f a r))
      → Ensures T R (and_then o f)
  Ensures-bind (holds {a = a} {r = r} q) next = next a r q
  Ensures-bind refused next = refused
  Ensures-bind (raised t) next = raised t
