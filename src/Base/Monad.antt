-- ===== src/Base/Monad.antt =====
-- Results of fallible Rust code, and the state-passing monad of methods that take `&mut self`.
use mathlib.Core.Path.{◌≡◌, refl}

-- `Ok`, `Err`, or a panic: the thread unwinds.
pub data Result {ℓ κ} (E : Type ℓ) (A : Type κ) : Type (ℓ ⊔ κ) where
  ok : A → Result E A
  err : E → Result E A
  panic : Result E A

-- `map_err`
abbrev pub map_err {ℓ κ μ} :
    {E : Type ℓ} {F : Type κ} {A : Type μ} → (E → F) → Result E A → Result F A
map_err f (ok a) = ok a
map_err f (err e) = err (f e)
map_err f panic = panic

-- `?` on a plain result.
abbrev pub and_then {ℓ κ μ} :
    {E : Type ℓ} {A : Type κ} {B : Type μ} → Result E A → (A → Result E B) → Result E B
and_then (ok a) f = f a
and_then (err e) f = err e
and_then panic f = panic

-- A method over the state `S`: the state it leaves stands beside the result on every branch.
abbrev pub M {ℓ κ μ} : Type ℓ → Type κ → Type μ → Type (ℓ ⊔ κ ⊔ μ)
M S E A = S → Result E A × S

module _ {ℓ κ} {S : Type ℓ} {E : Type κ} where
  abbrev pub pure {μ} : {A : Type μ} → A → M S E A
  pure a s = (ok a, s)

  abbrev pub throw {μ} : {A : Type μ} → E → M S E A
  throw e s = (err e, s)

  -- A plain result as a step that leaves the state alone.
  abbrev pub lift {μ} : {A : Type μ} → Result E A → M S E A
  lift r s = (r, s)

  abbrev pub get : M S E S
  get s = (ok s, s)

  abbrev pub put : S → M S E (Unit {0})
  put t s = (ok tt, t)

  abbrev pub continue {μ ν} :
      {A : Type μ} {B : Type ν} → Result E A → S → (A → M S E B) → Result E B × S
  continue (ok a) s f = f a s
  continue (err e) s f = (err e, s)
  continue panic s f = (panic, s)

  infixl 5 ◌>>=◌ ◌>>◌
  abbrev pub ◌>>=◌ {μ ν} : {A : Type μ} {B : Type ν} → M S E A → (A → M S E B) → M S E B
  ◌>>=◌ m f s = let r = m s in continue r.0 r.1 f

  abbrev pub ◌>>◌ {μ} : {B : Type μ} → M S E (Unit {0}) → M S E B → M S E B
  m >> k = m >>= λ _. k

-- What a successful `?` says of its two parts.
pub and_then-eq-ok {ℓ κ μ} :
    {E : Type ℓ} {A : Type κ} {B : Type μ} (m : Result E A) (f : A → Result E B) {b : B}
    → and_then m f ≡ ok b
    → (a : A) × (m ≡ ok a) × (f a ≡ ok b)
and_then-eq-ok (ok a) f h = (a, refl, h)
and_then-eq-ok (err e) f h = cc
and_then-eq-ok panic f h = cc

pub ok-injective {ℓ κ} :
    {E : Type ℓ} {A : Type κ} {a b : A} → ◌≡◌ {A = Result E A} (ok a) (ok b) → a ≡ b
ok-injective h = cc

pub map_err-eq-ok {ℓ κ μ} :
    {E : Type ℓ} {F : Type κ} {A : Type μ} (f : E → F) (m : Result E A) {a : A}
    → map_err f m ≡ ok a
    → m ≡ ok a
map_err-eq-ok f (ok a) h = cc
map_err-eq-ok f (err e) h = cc
map_err-eq-ok f panic h = cc

-- To split on a computed result and keep the equation.
pub data Cases {ℓ κ} {E : Type ℓ} {A : Type κ} (r : Result E A) : Type (ℓ ⊔ κ) where
  ok_case : (a : A) → r ≡ ok a → Cases r
  err_case : (e : E) → r ≡ err e → Cases r
  panic_case : r ≡ panic → Cases r

pub Result-Cases {ℓ κ} : {E : Type ℓ} {A : Type κ} (r : Result E A) → Cases r
Result-Cases (ok a) = ok_case a refl
Result-Cases (err e) = err_case e refl
Result-Cases panic = panic_case refl

-- A sequence that succeeds has two steps that succeed, one after the other.
continue-eq-ok {ℓ κ μ ν} :
    {S : Type ℓ} {E : Type κ} {A : Type μ} {B : Type ν} (r : Result E A) (s : S) (f : A → M S E B)
    {b : B} {t : S}
    → ◌≡◌ {A = Result E B × S} (continue r s f) (ok b, t)
    → (a : A) × (r ≡ ok a) × (f a s ≡ (ok b, t))
continue-eq-ok (ok a) s f h = (a, refl, h)
continue-eq-ok {E = E} {B = B} (err e) s f {b = b} h =
    let bad : ◌≡◌ {A = Result E B} (err e) (ok b) = λ i. (h i).0 in cc
continue-eq-ok {E = E} {B = B} panic s f {b = b} h =
    let bad : ◌≡◌ {A = Result E B} panic (ok b) = λ i. (h i).0 in cc

pub bind-eq-ok {ℓ κ μ ν} :
    {S : Type ℓ} {E : Type κ} {A : Type μ} {B : Type ν} (m : M S E A) (f : A → M S E B) (s : S)
    {b : B} {t : S}
    → (m >>= f) s ≡ (ok b, t)
    → (a : A) × (s' : S) × (m s ≡ (ok a, s')) × (f a s' ≡ (ok b, t))
bind-eq-ok m f s h =
    let (a, e, k) = continue-eq-ok (m s).0 (m s).1 f h in (a, (m s).1, (λ i. (e i, (m s).1)), k)
