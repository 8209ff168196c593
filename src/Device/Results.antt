-- ===== src/Device/Results.antt =====
-- How an operation ends: with a value, with an access outside an array or through NULL, or in a loop
-- that still waits for the hypervisor.
use hvisor_tool.Base.{ℕ, ◌≡◌, refl}

pub data Result {ℓ} (A : Type ℓ) : Type ℓ where
  returns : A → Result A
  faults : Result A
  spins : Result A

infixl 5 ◌>>=◌
abbrev pub ◌>>=◌ {ℓ κ} : {A : Type ℓ} {B : Type κ} → Result A → (A → Result B) → Result B
returns a >>= f = f a
faults >>= f = faults
spins >>= f = spins

pub >>=-eq-returns {ℓ κ} :
    {A : Type ℓ} {B : Type κ} (r : Result A) (f : A → Result B) {b : B}
    → (r >>= f) ≡ returns b
    → (a : A) × (r ≡ returns a) × (f a ≡ returns b)
>>=-eq-returns (returns a) f h = (a, refl, h)
>>=-eq-returns faults f h = cc
>>=-eq-returns spins f h = cc

-- How a system call that moves bytes ends: with their number, or with `errno`.
pub data Transfer : Type 0 where
  moved : ℕ → Transfer
  errno : ℕ → Transfer
