-- ===== src/Pots/Refusals.antt =====
-- The errors of server/poker/pots.js, server/poker/evaluator.js and server/poker/showdown.js that are no
-- failed conservation check.
use x_poker.Base.{
  ℕ, ◌≡◌, refl, sym, subst, Bool, true, false, Option, none, some, ◌==◌, if◌then◌else◌, ==_iff, ok,
  err, ◌>>=◌, ◌>>◌, assert, or_fail,
}
use x_poker.Pots.Types.{
  SettleError, unconserved_pots, unconserved_rake, unconserved_settlement, unconserved_showdown,
  Outcome,
}

abbrev pub IsRefusal : SettleError → Type 0
IsRefusal unconserved_pots = ⊥
IsRefusal unconserved_rake = ⊥
IsRefusal unconserved_settlement = ⊥
IsRefusal unconserved_showdown = ⊥
IsRefusal _ = Unit

-- A result with a property, or such an error.
abbrev pub Gives : {A : Type 0} → (A → Type 0) → Outcome A → Type 0
Gives P (ok a) = P a
Gives P (err e) = IsRefusal e

pub Gives-bind :
    {A B : Type 0} (P : A → Type 0) (Q : B → Type 0) (m : Outcome A) (f : A → Outcome B)
    → Gives P m
    → ((a : A) → P a → Gives Q (f a))
    → Gives Q (m >>= f)
Gives-bind P Q (ok a) f h k = k a h
Gives-bind P Q (err e) f h k = h

pub Gives-assert :
    {B : Type 0} (Q : B → Type 0) (c : Bool) (e : SettleError) (k : Outcome B)
    → IsRefusal e
    → (c ≡ true → Gives Q k)
    → Gives Q (assert c e >> k)
Gives-assert Q true e k bad good = good refl
Gives-assert Q false e k bad good = bad

-- A conservation check that is true is passed.
pub Gives-check :
    {B : Type 0} (Q : B → Type 0) (a b : ℕ) (e : SettleError) (k : Outcome B)
    → a ≡ b
    → Gives Q k
    → Gives Q (assert (a == b) e >> k)
Gives-check Q a b e k same good =
    subst (λ c. Gives Q (assert c e >> k)) (sym ((==_iff a b).1 same)) good

pub Gives-or_fail :
    {A : Type 0} (o : Option A) (e : SettleError) → IsRefusal e → Gives (λ _. Unit) (or_fail o e)
Gives-or_fail none e bad = bad
Gives-or_fail (some a) e bad = tt

pub Gives-if :
    {B : Type 0} (Q : B → Type 0) (c : Bool) (x y : Outcome B)
    → Gives Q x
    → Gives Q y
    → Gives Q (if c then x else y)
Gives-if Q true x y h k = h
Gives-if Q false x y h k = k

pub Gives-map :
    {B : Type 0} (P Q : B → Type 0) (m : Outcome B)
    → Gives P m
    → ((b : B) → m ≡ ok b → Q b)
    → Gives Q m
Gives-map P Q (ok b) h k = k b refl
Gives-map P Q (err e) h k = h

pub Gives-last : (c : Bool) (e : SettleError) → IsRefusal e → Gives (λ _. Unit) (assert c e)
Gives-last true e bad = tt
Gives-last false e bad = bad
