-- ===== src/Common/Outcomes.antt =====
-- What a C function does when it does not return: the model makes each such event a value.
use mathlib.Core.Path.{◌≡◌, refl}
use mathlib.Core.Logic.{◌≢◌}

-- A read or write past the end of an object, a null pointer that is followed, a shift by the width
-- of the type or more, and a failed `assert`. (`out_of_fuel` is no event of the code: a bound on the
-- rounds of a loop was too small.)
pub data Fault : Type 0 where
  out_of_bounds null_pointer shift_range assertion out_of_fuel : Fault

pub data Outcome {ℓ} (A : Type ℓ) : Type ℓ where
  ok : A → Outcome A
  fault : Fault → Outcome A

infixl 5 ◌>>=◌
abbrev pub ◌>>=◌ {ℓ κ} : {A : Type ℓ} {B : Type κ} → Outcome A → (A → Outcome B) → Outcome B
fault e >>= next = fault e
ok x >>= next = next x

-- A chain that succeeds has a first part that succeeds.
pub >>=-eq-ok {ℓ κ} :
    {A : Type ℓ} {B : Type κ} (first : Outcome A) (next : A → Outcome B) {result : B}
    → first >>= next ≡ ok result
    → (x : A) × (first ≡ ok x) × (next x ≡ ok result)
>>=-eq-ok (fault e) next h = cc
>>=-eq-ok (ok x) next h = (x, refl, h)

-- A chain does not end in a fault that neither of its parts ends in.
pub >>=-avoids {ℓ κ} :
    {A : Type ℓ} {B : Type κ} (e : Fault) (first : Outcome A) (next : A → Outcome B)
    → first ≢ fault e
    → ((x : A) → first ≡ ok x → next x ≢ fault e)
    → first >>= next ≢ fault e
>>=-avoids e (fault e') next h rest bad = h cc
>>=-avoids e (ok x) next h rest bad = rest x refl bad

pub ok-avoids {ℓ} : {A : Type ℓ} {e : Fault} (x : A) → ok x ≢ fault e
ok-avoids x bad = cc

-- A chain that ends in a fault, and not by its first part, ends so by its second.
pub >>=-eq-fault {ℓ κ} :
    {A : Type ℓ} {B : Type κ} (first : Outcome A) (next : A → Outcome B) {e : Fault}
    → first >>= next ≡ fault e
    → first ≢ fault e
    → (x : A) × (first ≡ ok x) × (next x ≡ fault e)
>>=-eq-fault (fault e') next bad h = absurd (h cc)
>>=-eq-fault (ok x) next bad h = (x, refl, bad)
