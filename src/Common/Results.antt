-- ===== src/Common/Results.antt =====
-- What a call of the program ends in: a value, an exception, or undefined behaviour of C++.
use mathlib.Core.Path.{◌≡◌, refl, subst}
use mathlib.Core.Bool.{Bool, true, false}
use ufo_torrent.Common.Tests.{if◌then◌else◌}

-- The exceptions of the standard library that the program throws or lets through, and that of
-- `boost::get`.
pub data Exception : Type 0 where
  runtime_error invalid_argument out_of_range length_error bad_get filesystem_error : Exception

-- `undefined` stands for undefined behaviour, such as an index past the end of a string or
-- a read of an uninitialised pointer, and `aborted` for an `assert` that fails.
pub data Outcome {ℓ} (A : Type ℓ) : Type ℓ where
  ok : A → Outcome A
  throws : Exception → Outcome A
  undefined : Outcome A
  aborted : Outcome A

infixl 5 ◌>>=◌ ◌>>◌
abbrev pub ◌>>=◌ {ℓ κ} : {A : Type ℓ} {B : Type κ} → Outcome A → (A → Outcome B) → Outcome B
ok a >>= f = f a
throws e >>= f = throws e
undefined >>= f = undefined
aborted >>= f = aborted

abbrev pub ◌>>◌ {ℓ} : {B : Type ℓ} → Outcome (Unit {0}) → Outcome B → Outcome B
m >> k = m >>= λ _. k

-- `if (!b) throw e;`
abbrev pub ensure : Bool → Exception → Outcome (Unit {0})
ensure true e = ok tt
ensure false e = throws e

-- Inversion of a successful bind.
pub >>=-eq-ok {ℓ κ} :
    {A : Type ℓ} {B : Type κ} (call : Outcome A) (then_do : A → Outcome B) {b : B}
    → (call >>= then_do) ≡ ok b
    → (value : A) × (call ≡ ok value) × (then_do value ≡ ok b)
>>=-eq-ok (ok value) then_do e = (value, refl, e)
>>=-eq-ok (throws x) then_do e = cc
>>=-eq-ok undefined then_do e = cc
>>=-eq-ok aborted then_do e = cc

-- The value has the property, if the call returns one.
abbrev pub Returns {ℓ κ} : {A : Type ℓ} → (A → Type κ) → Outcome A → Type κ
Returns P (ok a) = P a
Returns P (throws e) = Unit
Returns P undefined = Unit
Returns P aborted = Unit

pub Returns-ok {ℓ κ} :
    {A : Type ℓ} (P : A → Type κ) (m : Outcome A) {a : A} → Returns P m → m ≡ ok a → P a
Returns-ok P (ok b) h e = subst P (cc) h
Returns-ok P (throws x) h e = cc
Returns-ok P undefined h e = cc
Returns-ok P aborted h e = cc

pub Returns-both {ℓ κ κ'} :
    {A : Type ℓ} (P : A → Type κ) (Q : A → Type κ') (m : Outcome A)
    → Returns P m
    → Returns Q m
    → Returns (λ a. P a × Q a) m
Returns-both P Q (ok a) p q = (p, q)
Returns-both P Q (throws e) p q = tt
Returns-both P Q undefined p q = tt
Returns-both P Q aborted p q = tt

-- Whatever is returned is what the call returned.
pub Returns-self {ℓ} : {A : Type ℓ} (m : Outcome A) → Returns (λ a. m ≡ ok a) m
Returns-self (ok a) = refl
Returns-self (throws e) = tt
Returns-self undefined = tt
Returns-self aborted = tt

pub Returns-bind {ℓ κ ℓ' κ'} :
    {A : Type ℓ} {B : Type ℓ'} (P : A → Type κ) (Q : B → Type κ') (m : Outcome A)
    (f : A → Outcome B)
    → Returns P m
    → ((a : A) → P a → Returns Q (f a))
    → Returns Q (m >>= f)
Returns-bind P Q (ok a) f h k = k a h
Returns-bind P Q (throws e) f h k = tt
Returns-bind P Q undefined f h k = tt
Returns-bind P Q aborted f h k = tt

pub Returns-any {ℓ} : {A : Type ℓ} (m : Outcome A) → Returns (λ a. Unit {0}) m
Returns-any (ok a) = tt
Returns-any (throws e) = tt
Returns-any undefined = tt
Returns-any aborted = tt

pub Returns-imp {ℓ κ κ'} :
    {A : Type ℓ} (P : A → Type κ) (Q : A → Type κ') (m : Outcome A)
    → Returns P m
    → ((a : A) → P a → Returns Q (ok a))
    → Returns Q m
Returns-imp P Q (ok a) h f = f a h
Returns-imp P Q (throws e) h f = tt
Returns-imp P Q undefined h f = tt
Returns-imp P Q aborted h f = tt

pub Returns-if {ℓ κ} :
    {A : Type ℓ} (P : A → Type κ) (b : Bool) (m n : Outcome A)
    → Returns P m
    → Returns P n
    → Returns P (if b then m else n)
Returns-if P true m n h k = h
Returns-if P false m n h k = k

-- What follows has the property, whatever the call returns.
pub Returns-after {ℓ κ ℓ'} :
    {A : Type ℓ} {B : Type ℓ'} (Q : B → Type κ) (m : Outcome A) (f : A → Outcome B)
    → ((a : A) → Returns Q (f a))
    → Returns Q (m >>= f)
Returns-after Q m f k = Returns-bind (λ a. Unit {0}) Q m f (Returns-any m) (λ a h. k a)
