-- ===== src/Prelude/Outcome.antt =====
-- Calls that return `error`.
use mathlib.Core.Path.{◌≡◌, refl}
use mathlib.Core.Logic.{◌⊎◌, inl, inr}
use Prim.Native.String.{String}

-- What a call that returns only `error` leaves: nil or an error, and the state after it.
pub data Outcome {ℓ} (W : Type ℓ) : Type ℓ where
  done : W → Outcome W
  fail : String → W → Outcome W

infixl 5 ◌>>=◌
abbrev pub ◌>>=◌ {ℓ} : {W : Type ℓ} → Outcome W → (W → Outcome W) → Outcome W
done w >>= f = f w
fail e w >>= f = fail e w

-- The state, where the caller ignores the error.
abbrev pub state_of {ℓ} : {W : Type ℓ} → Outcome W → W
state_of (done w) = w
state_of (fail e w) = w

-- What a call that returns a value and `error` returns.
pub data Result {ℓ} (A : Type ℓ) : Type ℓ where
  ok : A → Result A
  err : String → Result A

pub Outcome-cases {ℓ} :
    {W : Type ℓ} (r : Outcome W)
    → ((w : W) × (r ≡ done w)) ⊎ ((e : String) × (w : W) × (r ≡ fail e w))
Outcome-cases (done w) = inl (w, refl)
Outcome-cases (fail e w) = inr (e, w, refl)

pub Result-cases {ℓ} :
    {A : Type ℓ} (r : Result A) → ((a : A) × (r ≡ ok a)) ⊎ ((e : String) × (r ≡ err e))
Result-cases (ok a) = inl (a, refl)
Result-cases (err e) = inr (e, refl)

abbrev pub Done {ℓ} : {W : Type ℓ} → Outcome W → Type ℓ
Done {W} r = (w : W) × (r ≡ done w)

pub Done-bind {ℓ} :
    {W : Type ℓ} (r : Outcome W) (f : W → Outcome W)
    → Done r
    → ((w : W) → Done (f w))
    → Done (r >>= f)
Done-bind r f (w, e) h = rw e (h w)
