-- ===== src/Base/Outcomes.antt =====
-- How a run of C++ code ends: with a value, by an exception, by a failed `assert`, or in undefined
-- behaviour. Nothing in the program catches an exception, so none of the last three keeps a state.
use mathlib.Core.Path.{◌≡◌, refl, subst}
use mathlib.Core.Option.{Option, none, some}

pub data Exception : Type 0 where
  bad_input not_an_elf_file bad_maps no_unwind_cursor out_of_range popen_failed bad_mutex :
      Exception

pub data Outcome {ℓ} (A : Type ℓ) : Type ℓ where
  ok : A → Outcome A
  throws : Exception → Outcome A
  aborts : Outcome A
  undefined : Outcome A

infixl 5 ◌>>=◌ ◌>>◌
abbrev pub ◌>>=◌ {ℓ κ} : {A : Type ℓ} {B : Type κ} → Outcome A → (A → Outcome B) → Outcome B
ok a >>= f = f a
throws e >>= f = throws e
aborts >>= f = aborts
undefined >>= f = undefined

abbrev pub ◌>>◌ {ℓ} : {B : Type ℓ} → Outcome (Unit {0}) → Outcome B → Outcome B
m >> k = m >>= λ _. k

-- What a run gives has the property, if it gives anything.
abbrev pub IfOk {ℓ κ} : {A : Type ℓ} → (A → Type κ) → Outcome A → Type κ
IfOk P (ok a) = P a
IfOk P (throws e) = Unit
IfOk P aborts = Unit
IfOk P undefined = Unit

pub IfOk-any {ℓ κ} : {A : Type ℓ} {P : A → Type κ} (m : Outcome A) → ((a : A) → P a) → IfOk P m
IfOk-any (ok a) h = h a
IfOk-any (throws e) h = tt
IfOk-any aborts h = tt
IfOk-any undefined h = tt

pub IfOk-bind {ℓ κ μ ν} :
    {A : Type ℓ} {B : Type κ} (P : A → Type μ) (Q : B → Type ν) (m : Outcome A) (f : A → Outcome B)
    → IfOk P m
    → ((a : A) → P a → IfOk Q (f a))
    → IfOk Q (m >>= f)
IfOk-bind P Q (ok a) f h k = k a h
IfOk-bind P Q (throws e) f h k = tt
IfOk-bind P Q aborts f h k = tt
IfOk-bind P Q undefined f h k = tt

pub IfOk-ok {ℓ κ} :
    {A : Type ℓ} (P : A → Type κ) (m : Outcome A) {a : A} → m ≡ ok a → IfOk P m → P a
IfOk-ok P m e h = subst (IfOk P) e h

pub IfOk-bind_any {ℓ κ ν} :
    {A : Type ℓ} {B : Type κ} (Q : B → Type ν) (m : Outcome A) (f : A → Outcome B)
    → ((a : A) → IfOk Q (f a))
    → IfOk Q (m >>= f)
IfOk-bind_any Q (ok a) f k = k a
IfOk-bind_any Q (throws e) f k = tt
IfOk-bind_any Q aborts f k = tt
IfOk-bind_any Q undefined f k = tt

pub IfOk-mono {ℓ κ ν} :
    {A : Type ℓ} (P : A → Type κ) (Q : A → Type ν) (m : Outcome A)
    → ((a : A) → P a → Q a)
    → IfOk P m
    → IfOk Q m
IfOk-mono P Q (ok a) k h = k a h
IfOk-mono P Q (throws e) k h = tt
IfOk-mono P Q aborts k h = tt
IfOk-mono P Q undefined k h = tt

pub IfOk-bind_eq {ℓ κ ν} :
    {A : Type ℓ} {B : Type κ} (Q : B → Type ν) (m : Outcome A) (f : A → Outcome B)
    → ((a : A) → m ≡ ok a → IfOk Q (f a))
    → IfOk Q (m >>= f)
IfOk-bind_eq Q (ok a) f k = k a refl
IfOk-bind_eq Q (throws e) f k = tt
IfOk-bind_eq Q aborts f k = tt
IfOk-bind_eq Q undefined f k = tt

-- A run that may also run out of fuel.
abbrev pub Attempt {ℓ} : Type ℓ → Type ℓ
Attempt A = Option (Outcome A)

-- Going on with what a run gives, in a run that may run out of fuel.
abbrev pub and_then {ℓ κ} : {A : Type ℓ} {B : Type κ} → Outcome A → (A → Attempt B) → Attempt B
and_then (ok a) f = f a
and_then (throws e) f = some (throws e)
and_then aborts f = some aborts
and_then undefined f = some undefined

abbrev pub bind_attempt {ℓ κ} : {A : Type ℓ} {B : Type κ} → Attempt A → (A → Attempt B) → Attempt B
bind_attempt none f = none
bind_attempt (some result) f = and_then result f

abbrev pub IfDone {ℓ κ} : {A : Type ℓ} → (A → Type κ) → Attempt A → Type κ
IfDone P none = Unit
IfDone P (some result) = IfOk P result

pub IfDone-bind {ℓ κ μ ν} :
    {A : Type ℓ} {B : Type κ} (P : A → Type μ) (Q : B → Type ν) (m : Attempt A) (f : A → Attempt B)
    → IfDone P m
    → ((a : A) → P a → IfDone Q (f a))
    → IfDone Q (bind_attempt m f)
IfDone-bind P Q none f h k = tt
IfDone-bind P Q (some (ok a)) f h k = k a h
IfDone-bind P Q (some (throws e)) f h k = tt
IfDone-bind P Q (some aborts) f h k = tt
IfDone-bind P Q (some undefined) f h k = tt

-- No property at all.
pub IfDone-any {ℓ} : {A : Type ℓ} (m : Attempt A) → IfDone (λ (a : A). Unit {0}) m
IfDone-any none = tt
IfDone-any (some (ok a)) = tt
IfDone-any (some (throws e)) = tt
IfDone-any (some aborts) = tt
IfDone-any (some undefined) = tt

pub bind_attempt-some {ℓ κ} :
    {A : Type ℓ} {B : Type κ} (m : Attempt A) (f : A → Attempt B) {a : A} {result : Attempt B}
    → m ≡ some (ok a)
    → f a ≡ result
    → bind_attempt m f ≡ result
bind_attempt-some m f e h = rw e h
