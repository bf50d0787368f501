-- ===== src/Base/Results.antt =====
-- Rust's `Result`, its `?` as the bind of `do` blocks, and `ok_or`, `map_err` and guards.
use mathlib.Core.Path.{◌≡◌, refl, ap, ◌∙◌}
use mathlib.Core.Bool.{Bool, true, false}
use mathlib.Core.Option.{Option, none, some}
use mathlib.Core.Logic.{◌⊎◌, inl, inr}

pub data Result (E A : Type 0) : Type 0 where
  ok : A → Result E A
  err : E → Result E A

-- The value of a function that returns `Result<(), E>`.
abbrev pub Done : Type 0
Done = Unit {0}

module _ {E A B : Type 0} where
  infixl 5 ◌>>=◌
  -- `r?` and what comes after it: an error returns early.
  abbrev pub ◌>>=◌ : Result E A → (A → Result E B) → Result E B
  err why >>= next = err why
  ok value >>= next = next value

module _ {E B : Type 0} where
  infixl 5 ◌>>◌
  -- `r?;` where the value is `()`.
  abbrev pub ◌>>◌ : Result E Done → Result E B → Result E B
  check >> rest = check >>= (λ _. rest)

-- `result.map_err(f)?`
abbrev pub map_err : {E F A : Type 0} → (E → F) → Result E A → Result F A
map_err f (err why) = err (f why)
map_err f (ok value) = ok value

-- `option.ok_or(e)?`
abbrev pub ok_or : {E A : Type 0} → Option A → E → Result E A
ok_or (some value) why = ok value
ok_or none why = err why

-- `if !test { return Err(e); }`
abbrev pub guard : {E : Type 0} → Bool → E → Result E Done
guard test why = elim test [ false ↦ err why | true ↦ ok tt ]

-- What a `do` block that succeeds went through: its first step succeeded, and so did the rest from
-- there.
pub >>=-eq-ok :
    {E A B : Type 0} (r : Result E A) (next : A → Result E B) {out : B}
    → (r >>= next) ≡ ok out
    → (value : A) × (r ≡ ok value) × (next value ≡ ok out)
>>=-eq-ok (err why) next ran = cc
>>=-eq-ok (ok value) next ran = (value, refl, ran)

-- The same for a block that begins with a check.
pub >>-eq-ok :
    {E B : Type 0} (check : Result E Done) (rest : Result E B) {out : B}
    → (check >> rest) ≡ ok out
    → (check ≡ ok tt) × (rest ≡ ok out)
>>-eq-ok (err why) rest ran = cc
>>-eq-ok (ok tt) rest ran = (refl, ran)

pub ok-injective : {E A : Type 0} {a b : A} → ◌≡◌ {A = Result E A} (ok a) (ok b) → a ≡ b
ok-injective h = cc

pub Done-cases : {E : Type 0} (r : Result E Done) → (r ≡ ok tt) ⊎ ((e : E) × (r ≡ err e))
Done-cases (ok tt) = inl refl
Done-cases (err e) = inr (e, refl)

-- Running a `do` block whose first step, or first check, succeeds.
pub >>=-ok :
    {E A B : Type 0} (m : Result E A) (f : A → Result E B) {a : A} {r : Result E B}
    → m ≡ ok a
    → f a ≡ r
    → (m >>= f) ≡ r
>>=-ok m f h k = ap (λ x. x >>= f) h ∙ k

pub guard-ok :
    {E B : Type 0} (b : Bool) (e : E) (k : Result E B) {r : Result E B}
    → b ≡ true
    → k ≡ r
    → (guard b e >> k) ≡ r
guard-ok b e k h q = ap (λ x. guard x e >> k) h ∙ q

-- A check that was passed.
pub guard-eq-ok :
    {E B : Type 0} (b : Bool) (e : E) (k : Result E B) {r : B}
    → (guard b e >> k) ≡ ok r
    → (b ≡ true) × (k ≡ ok r)
guard-eq-ok true e k h = (refl, h)
guard-eq-ok false e k h = cc

-- What the conversions of an error leave as it was.
pub ok_or-ok : {E A : Type 0} (o : Option A) (why : E) (a : A) → ok_or o why ≡ ok a → o ≡ some a
ok_or-ok none why a h = cc
ok_or-ok (some b) why a h = cc

pub map_err-ok :
    {E F A : Type 0} (f : E → F) (r : Result E A) (a : A) → map_err f r ≡ ok a → r ≡ ok a
map_err-ok f (err e) a h = cc
map_err-ok f (ok b) a h = cc

pub some-injective {ℓ} : {A : Type ℓ} {a b : A} → some a ≡ some b → a ≡ b
some-injective h = cc

pub Result-cases :
    {E A : Type 0} (r : Result E A) → ((a : A) × (r ≡ ok a)) ⊎ ((e : E) × (r ≡ err e))
Result-cases (ok a) = inl (a, refl)
Result-cases (err e) = inr (e, refl)
