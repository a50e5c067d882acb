-- ===== src/Common/Faults.antt =====
-- Steps that may fault: `none` is undefined behaviour (an access out of bounds, a division by zero)
-- or an allocation that throws.
use mathlib.Core.Path.{◌≡◌, refl}
use mathlib.Core.Bool.{Bool, true, false}
use mathlib.Core.List.{List, [], ◌∷◌}
use mathlib.Core.Option.{Option, none, some}

infixl 5 ◌>>=◌ ◌>>◌
abbrev pub ◌>>=◌ {ℓ κ} : {A : Type ℓ} {B : Type κ} → Option A → (A → Option B) → Option B
none >>= f = none
some a >>= f = f a

abbrev pub ◌>>◌ {ℓ} : {B : Type ℓ} → Option (Unit {0}) → Option B → Option B
m >> k = m >>= λ _. k

abbrev pub require : Bool → Option (Unit {0})
require true = some tt
require false = none

-- A step for each element, in order.
unfoldable pub map_all {ℓ κ} : {A : Type ℓ} {B : Type κ} → (A → Option B) → List A → Option (List B)
map_all f [] = some []
map_all f (x ∷ xs) = do y ← f x; ys ← map_all f xs; some (y ∷ ys)

pub >>=-eq-some {ℓ κ} :
    {A : Type ℓ} {B : Type κ} (m : Option A) (f : A → Option B) {b : B}
    → (m >>= f) ≡ some b
    → (a : A) × (m ≡ some a) × (f a ≡ some b)
>>=-eq-some none f h = cc
>>=-eq-some (some a) f h = (a, refl, h)

pub eq_of_some {ℓ} : {A : Type ℓ} {a b : A} → some a ≡ some b → a ≡ b
eq_of_some h = cc

-- A property of every element.
abbrev pub All {ℓ κ} : {A : Type ℓ} → (A → Type κ) → List A → Type κ
All P [] = Unit
All P (x ∷ xs) = P x × All P xs

-- Steps that succeed on every element, and give it a property, succeed on the list.
pub map_all-All {ℓ κ μ ν} :
    {A : Type ℓ} {B : Type κ} (P : A → Type μ) (Q : B → Type ν) (f : A → Option B)
    → ((x : A) → P x → (y : B) × (f x ≡ some y) × Q y)
    → (xs : List A) → All P xs
    → (ys : List B) × (map_all f xs ≡ some ys) × All Q ys
unfolding map_all
map_all-All P Q f step [] h = ([], refl, tt)
map_all-All P Q f step (x ∷ xs) h =
    let (y, e, q) = step x h.0 in
    let (ys, es, qs) = map_all-All P Q f step xs h.1 in (y ∷ ys, rw (e, es) refl, (q, qs))

pub All-weaken {ℓ κ μ} :
    {A : Type ℓ} (P : A → Type κ) (Q : A → Type μ)
    → ((x : A) → P x → Q x)
    → (xs : List A) → All P xs
    → All Q xs
All-weaken P Q f [] h = tt
All-weaken P Q f (x ∷ xs) h = (f x h.0, All-weaken P Q f xs h.1)

pub >>=-some {ℓ} : {A : Type ℓ} (m : Option A) → (m >>= some) ≡ m
>>=-some none = refl
>>=-some (some a) = refl

pub >>=_assoc {ℓ κ μ} :
    {A : Type ℓ} {B : Type κ} {C : Type μ} (m : Option A) (f : A → Option B) (g : B → Option C)
    → ((m >>= f) >>= g) ≡ (m >>= λ a. f a >>= g)
>>=_assoc none f g = refl
>>=_assoc (some a) f g = refl
