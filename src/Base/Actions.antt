-- ===== src/Base/Actions.antt =====
-- C++ code that changes a state and may come to no value, and what such code ensures where it returns.
use mathlib.Core.Path.{◌≡◌, refl, subst}
use sr_scanner_demo.Base.Outcomes.{Outcome, done, fault, done-injective, Fault, >>=-eq-done}
use sr_scanner_demo.Base.Outcomes
use mathlib.Core.Bool.{Bool, true, false}
use sr_scanner_demo.Base.Tests.{if◌then◌else◌}

abbrev pub Action {ℓ κ} : Type ℓ → Type κ → Type (ℓ ⊔ κ)
Action W A = W → Outcome (A × W)

-- An action for its effect alone.
abbrev pub Effect : Type 0 → Type 0
Effect W = Action {0, 0} W Unit

module _ {ℓ κ} {W : Type ℓ} {A : Type κ} where
  abbrev pub give : A → Action W A
  give a w = done (a, w)

  abbrev pub fails : Fault → Action W A
  fails e w = fault e

infixl 5 ◌>>=◌
unfoldable pub ◌>>=◌ {ℓ κ ι} :
    {W : Type ℓ} {A : Type κ} {B : Type ι} → Action W A → (A → Action W B) → Action W B
◌>>=◌ m f w = Outcomes.◌>>=◌ (m w) (λ r. f r.0 r.1)

-- An outcome that changes nothing.
abbrev pub lift {ℓ κ} : {W : Type ℓ} {A : Type κ} → Outcome A → Action W A
lift m w = Outcomes.◌>>=◌ m (λ a. done (a, w))

-- Inversion of a chain that returns.
pub run->>= {ℓ κ ι} :
    {W : Type ℓ} {A : Type κ} {B : Type ι} (m : Action W A) (f : A → Action W B) (w : W) {r : B × W}
    → (m >>= f) w ≡ done r
    → (p : A × W) × (m w ≡ done p) × (f p.0 p.1 ≡ done r)
unfolding ◌>>=◌
run->>= m f w h = >>=-eq-done (m w) (λ q. f q.0 q.1) h

-- `m` on a part of the state.
abbrev pub on {ℓ κ ι} :
    {V : Type ℓ} {W : Type κ} {A : Type ι} → (V → W) → (V → W → V) → Action W A → Action V A
on get put m v = Outcomes.◌>>=◌ (m (get v)) (λ r. done (r.0, put v r.1))

-- Wherever `m` returns from a state in `P`, its value and the state that it leaves are in `Q`.
pub record Ensures {ℓ κ ι} {W : Type ℓ} {A : Type κ} (P : W → Type ι) (m : Action W A)
    (Q : A → W → Type ι) : Type (ℓ ⊔ κ ⊔ ι) where
  pub at : (w : W) (r : A × W) → P w → m w ≡ done r → Q r.0 r.1

module _ {ℓ κ ι} {W : Type ℓ} {A : Type κ} {P : W → Type ι} {Q : A → W → Type ι} where
  pub Ensures-give : (a : A) → ((w : W) → P w → Q a w) → Ensures P (give a) Q
  Ensures-give a f = record {
    at = λ w r h e. subst (λ p. Q p.0 p.1) (done-injective (a, w) r e) (f w h);
  }

  pub Ensures-fails : (e : Fault) → Ensures P (fails e) Q
  Ensures-fails e = record { at = λ w r h. cc }

  pub Ensures-lift :
      (m : Outcome A) → ((a : A) (w : W) → m ≡ done a → P w → Q a w) → Ensures P (lift m) Q
  Ensures-lift m f = record {
    at = λ w r h e.
        let (a, e', rest) = >>=-eq-done m (λ a. done (a, w)) e in
        subst (λ p. Q p.0 p.1) (done-injective (a, w) r rest) (f a w e' h);
  }

  pub Ensures-if :
      (b : Bool) (m n : Action W A)
      → (b ≡ true → Ensures P m Q)
      → (b ≡ false → Ensures P n Q)
      → Ensures P (if b then m else n) Q
  Ensures-if true m n km kn = km refl
  Ensures-if false m n km kn = kn refl

  pub Ensures-mono :
      {Q' : A → W → Type ι} {m : Action W A}
      → ((a : A) (w : W) → Q' a w → Q a w)
      → Ensures P m Q'
      → Ensures P m Q
  Ensures-mono f k = record { at = λ w r h e. f r.0 r.1 (k.at w r h e) }

  pub Ensures-bind {λ'} :
      {B : Type λ'} {R : B → W → Type ι} (m : Action W B) (f : B → Action W A)
      → Ensures P m R
      → ((b : B) → Ensures (R b) (f b) Q)
      → Ensures P (m >>= f) Q
  unfolding ◌>>=◌
  Ensures-bind m f km kf = record {
    at = λ w r h e.
        let (p, e', rest) = >>=-eq-done (m w) (λ q. f q.0 q.1) e in
        (kf p.0).at p.1 r (km.at w p h e') rest;
  }

-- A condition that does not depend on the state is a hypothesis.
pub Ensures-assume {ℓ κ} :
    {W : Type ℓ} {A : Type κ} {P : Type 0} {m : Action W A} {Q : A → W → Type 0}
    → (P → Ensures (λ w. Unit) m Q)
    → Ensures (λ w. P) m Q
Ensures-assume k = record { at = λ w r p e. (k p).at w r tt e }

pub Ensures-any {ℓ κ} :
    {W : Type ℓ} {A : Type κ} {P : W → Type 0} (m : Action W A) → Ensures P m (λ a w. Unit)
Ensures-any m = record { at = λ w r h e. tt }

-- What is ensured behind `m`, whatever it does.
pub Ensures-skip {ℓ κ ι} :
    {W : Type ℓ} {A : Type κ} {B : Type ι} {P : W → Type 0} {Q : B → W → Type 0} (m : Action W A)
    (f : A → Action W B)
    → ((a : A) → Ensures (λ w. Unit) (f a) Q)
    → Ensures P (m >>= f) Q
Ensures-skip m f k = Ensures-bind m f (Ensures-any m) k

-- `m` never returns.
pub record Never {ℓ κ} {W : Type ℓ} {A : Type κ} (m : Action W A) : Type (ℓ ⊔ κ) where
  pub at : (w : W) (r : A × W) → ¬ (m w ≡ done r)

pub Never-fails {ℓ κ} : {W : Type ℓ} {A : Type κ} (e : Fault) → Never (fails {W = W} {A = A} e)
Never-fails e = record { at = λ w r h. cc h }

module _ {ℓ κ ι} {W : Type ℓ} {A : Type κ} {B : Type ι} where
  pub Never-first : (m : Action W A) (f : A → Action W B) → Never m → Never (m >>= f)
  Never-first m f n = record { at = λ w r h. let (p, e, rest) = run->>= m f w h in n.at w p e }

  pub Never-after :
      (m : Action W A) (f : A → Action W B) → ((a : A) → Never (f a)) → Never (m >>= f)
  Never-after m f n = record {
    at = λ w r h. let (p, e, rest) = run->>= m f w h in (n p.0).at p.1 r rest;
  }
