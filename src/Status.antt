-- ===== src/Status.antt =====
-- libbitpunch/include/api/bitpunch-structs.h: the status that every fallible call returns.
use mathlib.Core.Path.{◌≡◌, refl}

-- `bitpunch_status_t`, without the value BITPUNCH_OK, which `Result.ok` stands for.
pub data Status : Type 0 where
  error invalid_param invalid_state no_item not_container data_error : Status
  out_of_bounds_error not_implemented no_data : Status

-- A call that returns BITPUNCH_OK and sets its output, or returns another status.
pub data Result {ℓ} (A : Type ℓ) : Type ℓ where
  ok : A → Result A
  err : Status → Result A

infixl 5 ◌>>=◌
abbrev pub ◌>>=◌ {ℓ κ} : {A : Type ℓ} {B : Type κ} → Result A → (A → Result B) → Result B
ok a >>= f = f a
err s >>= f = err s

infixl 5 ◌>>◌
abbrev pub ◌>>◌ {ℓ} : {B : Type ℓ} → Result (Unit {0}) → Result B → Result B
m >> k = m >>= λ _. k

pub >>=-eq-ok {ℓ κ} :
    {A : Type ℓ} {B : Type κ} (r : Result A) (f : A → Result B) {b : B}
    → (r >>= f) ≡ ok b
    → (a : A) × (r ≡ ok a) × (f a ≡ ok b)
>>=-eq-ok (ok a) f h = (a, refl, h)
>>=-eq-ok (err s) f h = cc
