-- ===== src/Prelude/Effects.antt =====
-- `Result<T, E>` with `?`, `tonic::Status`, and code that works on a shared state and may fail.
use mathlib.Core.Path.{◌≡◌, refl}
use mathlib.Core.Logic.{◌⊎◌, inl, inr}
use mathlib.Core.Option.{Option, none, some}
use seabird_core.Prelude.Basic.{Text}

pub data Result {ℓ κ} (E : Type ℓ) (A : Type κ) : Type (ℓ ⊔ κ) where
  ok : A → Result E A
  err : E → Result E A

-- The codes that the program returns.
pub data Code : Type 0 where
  invalid_argument not_found already_exists unauthenticated internal unknown : Code
  deadline_exceeded : Code

pub record Status : Type 0 where
  pub code : Code
  pub message : Text

abbrev pub RpcResult {ℓ} : Type ℓ → Type ℓ
RpcResult A = Result Status A

abbrev pub status : Code → Text → Status
status c m = record { code = c; message = m }

-- The `?` operator.
abbrev pub and_then {ℓ κ μ} :
    {E : Type ℓ} {A : Type κ} {B : Type μ} → Result E A → (A → Result E B) → Result E B
and_then (ok a) f = f a
and_then (err e) f = err e

abbrev pub map_err {ℓ κ μ} :
    {E : Type ℓ} {F : Type κ} {A : Type μ} → (E → F) → Result E A → Result F A
map_err f (ok a) = ok a
map_err f (err e) = err (f e)

abbrev pub ok_or {ℓ κ} : {E : Type ℓ} {A : Type κ} → E → Option A → Result E A
ok_or e none = err e
ok_or e (some a) = ok a

-- What is written before an error stays written: the state comes back beside the error too.
abbrev pub Rpc {ℓ κ} : Type ℓ → Type κ → Type (ℓ ⊔ κ)
Rpc S A = S → RpcResult A × S

abbrev pub pure {ℓ κ} : {S : Type ℓ} {A : Type κ} → A → Rpc S A
pure a s = (ok a, s)

abbrev pub lift {ℓ κ} : {S : Type ℓ} {A : Type κ} → RpcResult A → Rpc S A
lift r s = (r, s)

abbrev pub modify {ℓ} : {S : Type ℓ} → (S → S) → Rpc S (Unit {0})
modify f s = (ok tt, f s)

abbrev pub gets {ℓ κ} : {S : Type ℓ} {A : Type κ} → (S → A) → Rpc S A
gets f s = (ok (f s), s)

abbrev pub resume {ℓ κ μ} :
    {S : Type ℓ} {A : Type κ} {B : Type μ} → RpcResult A → (A → Rpc S B) → Rpc S B
resume (ok a) f s = f a s
resume (err e) f s = (err e, s)

infixl 10 ◌>>=◌ ◌>>◌
abbrev pub ◌>>=◌ {ℓ κ μ} :
    {S : Type ℓ} {A : Type κ} {B : Type μ} → Rpc S A → (A → Rpc S B) → Rpc S B
◌>>=◌ m f s = let (r, s') = m s in resume r f s'

abbrev pub ◌>>◌ {ℓ κ μ} : {S : Type ℓ} {A : Type κ} {B : Type μ} → Rpc S A → Rpc S B → Rpc S B
m >> k = m >>= λ _. k

pub and_then-eq-ok {ℓ κ μ} :
    {E : Type ℓ} {A : Type κ} {B : Type μ} (r : Result E A) (f : A → Result E B) {b : B}
    → and_then r f ≡ ok b
    → (a : A) × (r ≡ ok a) × (f a ≡ ok b)
and_then-eq-ok (ok a) f h = (a, refl, h)
and_then-eq-ok (err e) f h = cc

pub Result-cases {ℓ κ} :
    {E : Type ℓ} {A : Type κ} (r : Result E A) → ((a : A) × (r ≡ ok a)) ⊎ ((e : E) × (r ≡ err e))
Result-cases (ok a) = inl (a, refl)
Result-cases (err e) = inr (e, refl)
