-- ===== src/Base/Outcomes.antt =====
-- How a call of the C code can end: it returns, it calls exit(), or it leaves what C defines.
use Prim.Native.Nat.{ℕ}
use mathlib.Core.Path.{◌≡◌, refl, subst}
use mathlib.Core.Logic.{◌≢◌}
use mathlib.Core.Option.{Option, none, some}
use mathlib.Core.Bool.{Bool, true, false}
use dstc.Base.Tests.{if◌then◌else◌}

-- `fault` is undefined behaviour, such as an access outside an object or through a null pointer;
-- `out_of_fuel` says that a loop was given too few rounds.
pub data Outcome {ℓ} (A : Type ℓ) : Type ℓ where
  done : A → Outcome A
  exit : ℕ → Outcome A
  fault : Outcome A
  out_of_fuel : Outcome A

infixl 5 ◌>>=◌
abbrev pub ◌>>=◌ {ℓ κ} : {A : Type ℓ} {B : Type κ} → Outcome A → (A → Outcome B) → Outcome B
done a >>= f = f a
exit n >>= f = exit n
fault >>= f = fault
out_of_fuel >>= f = out_of_fuel

-- Inversion of a bind that returns.
pub >>=-eq-done {ℓ κ} :
    {A : Type ℓ} {B : Type κ} (m : Outcome A) (f : A → Outcome B) {b : B}
    → (m >>= f) ≡ done b
    → (a : A) × (m ≡ done a) × (f a ≡ done b)
>>=-eq-done (done a) f h = (a, refl, h)
>>=-eq-done (exit n) f h = cc
>>=-eq-done fault f h = cc
>>=-eq-done out_of_fuel f h = cc

pub >>=-cong {ℓ κ} :
    {A : Type ℓ} {B : Type κ} (m : Outcome A) (f g : A → Outcome B)
    → ((a : A) → f a ≡ g a)
    → (m >>= f) ≡ (m >>= g)
>>=-cong (done a) f g h = h a
>>=-cong (exit n) f g h = refl
>>=-cong fault f g h = refl
>>=-cong out_of_fuel f g h = refl

pub >>=-cong_done {ℓ κ} :
    {A : Type ℓ} {B : Type κ} (m : Outcome A) (f g : A → Outcome B)
    → ((a : A) → m ≡ done a → f a ≡ g a)
    → (m >>= f) ≡ (m >>= g)
>>=-cong_done (done a) f g h = h a refl
>>=-cong_done (exit n) f g h = refl
>>=-cong_done fault f g h = refl
>>=-cong_done out_of_fuel f g h = refl

pub >>=-done {ℓ} : {A : Type ℓ} (m : Outcome A) → (m >>= λ a. done a) ≡ m
>>=-done (done a) = refl
>>=-done (exit n) = refl
>>=-done fault = refl
>>=-done out_of_fuel = refl

pub >>=-assoc {ℓ κ μ} :
    {A : Type ℓ} {B : Type κ} {C : Type μ} (m : Outcome A) (f : A → Outcome B) (g : B → Outcome C)
    → ((m >>= f) >>= g) ≡ (m >>= λ a. f a >>= g)
>>=-assoc (done a) f g = refl
>>=-assoc (exit n) f g = refl
>>=-assoc fault f g = refl
>>=-assoc out_of_fuel f g = refl

-- A result that carries a known number along.
pub >>=-tag {ℓ κ} :
    {A : Type ℓ} {B : Type κ} (m : Outcome A) (n : ℕ) (g : ℕ × A → Outcome B)
    → ((m >>= λ a. done (n, a)) >>= g) ≡ (m >>= λ a. g (n, a))
>>=-tag (done a) n g = refl
>>=-tag (exit k) n g = refl
>>=-tag fault n g = refl
>>=-tag out_of_fuel n g = refl

-- Enough fuel in both parts is enough for the whole.
pub >>=-ne-out_of_fuel {ℓ κ} :
    {A : Type ℓ} {B : Type κ} (m : Outcome A) (f : A → Outcome B)
    → m ≢ out_of_fuel
    → ((a : A) → m ≡ done a → f a ≢ out_of_fuel)
    → (m >>= f) ≢ out_of_fuel
>>=-ne-out_of_fuel (done a) f hm hf = hf a refl
>>=-ne-out_of_fuel (exit n) f hm hf = λ e. cc
>>=-ne-out_of_fuel fault f hm hf = λ e. cc
>>=-ne-out_of_fuel out_of_fuel f hm hf = λ e. hm refl

-- What holds of the result of code, if it returns.
abbrev pub Holds {ℓ} : {A : Type ℓ} → (A → Type 0) → Outcome A → Type 0
Holds P (done a) = P a
Holds P (exit n) = Unit {0}
Holds P fault = Unit {0}
Holds P out_of_fuel = Unit {0}

pub Holds->>= {ℓ κ} :
    {A : Type ℓ} {B : Type κ} (Q : A → Type 0) (P : B → Type 0) (m : Outcome A) (f : A → Outcome B)
    → Holds Q m
    → ((a : A) → Q a → Holds P (f a))
    → Holds P (m >>= f)
Holds->>= Q P (done a) f h k = k a h
Holds->>= Q P (exit n) f h k = tt
Holds->>= Q P fault f h k = tt
Holds->>= Q P out_of_fuel f h k = tt

-- A bind that uses nothing of what comes before it.
pub Holds-any {ℓ κ} :
    {A : Type ℓ} {B : Type κ} (P : B → Type 0) (m : Outcome A) (f : A → Outcome B)
    → ((a : A) → Holds P (f a))
    → Holds P (m >>= f)
Holds-any P (done a) f k = k a
Holds-any P (exit n) f k = tt
Holds-any P fault f k = tt
Holds-any P out_of_fuel f k = tt

pub Holds-intro {ℓ} :
    {A : Type ℓ} (P : A → Type 0) (m : Outcome A) → ((a : A) → m ≡ done a → P a) → Holds P m
Holds-intro P (done a) k = k a refl
Holds-intro P (exit n) k = tt
Holds-intro P fault k = tt
Holds-intro P out_of_fuel k = tt

pub Holds-elim {ℓ} :
    {A : Type ℓ} (P : A → Type 0) {m : Outcome A} {a : A} → Holds P m → m ≡ done a → P a
Holds-elim P h e = subst (Holds P) e h

pub Holds-if {ℓ} :
    {A : Type ℓ} (P : A → Type 0) (b : Bool) (m n : Outcome A)
    → Holds P m
    → Holds P n
    → Holds P (if b then m else n)
Holds-if P true m n hm hn = hm
Holds-if P false m n hm hn = hn

pub Holds-option {ℓ κ} :
    {A : Type ℓ} {B : Type κ} (P : A → Type 0) (o : Option B) (m : Outcome A) (f : B → Outcome A)
    → Holds P m
    → ((b : B) → Holds P (f b))
    → Holds P (elim o [ none ↦ m | some b ↦ f b ])
Holds-option P none m f hm hf = hm
Holds-option P (some b) m f hm hf = hf b
