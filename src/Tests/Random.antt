-- ===== src/Tests/Random.antt =====
-- The random model with generators that count.
use openssl_wasm.Common.{
  ℕ, zero, suc, ◌+◌, ◌≡◌, refl, ap, Option, none, some, List, [], ◌∷◌, length, arith,
}
use openssl_wasm.Int.{ℤ, pos, negsuc}
use openssl_wasm.Memory.{World, object, update}
use openssl_wasm.Memory.Contract.{IsFresh, Yields}
use openssl_wasm.Random.Bytes.{EvpRand, random_bytes, private_bytes}
use openssl_wasm.Random.Contract.{or_failure, IsGenerator, stepped, random_bytes_lem}
use openssl_wasm.Tests.World.{enough_room}

abbrev repeat : ℕ → ℕ → List ℕ
repeat zero x = []
repeat (suc n) x = x ∷ repeat n x

length-repeat : (n x : ℕ) → length (repeat n x) ≡ n
length-repeat zero x = refl
length-repeat (suc n) x = ap suc (length-repeat n x)

-- The bytes for a count, if it is not negative.
abbrev repeated : ℤ → ℕ → Option (List ℕ)
repeated (pos n) x = some (repeat n x)
repeated (negsuc n) x = none

abbrev toy_rand : EvpRand
toy_rand = record {
  Drbg = ℕ;
  rand_bytes = λ n d q. ((repeated n d, d + 1), q);
  rand_priv_bytes = λ n d q. ((repeated n d, d + 2), q);
}

-- The generator at the address 1.
abbrev seeded : World ℕ ⊥
seeded = record { next = 1; cell = update (λ x. none) 1 (some (object 9)); errs = [] }

seeded-IsFresh : IsFresh seeded
seeded-IsFresh = record { unused = λ x h. ground arith; null_free = refl }

toy_rand-IsGenerator : IsGenerator toy_rand toy_rand.rand_bytes
toy_rand-IsGenerator = record {
  fills = λ n d q bs h. ground (arith, length-repeat n d);
  refuses = λ n d q. refl;
}

toy_rand_priv-IsGenerator : IsGenerator toy_rand toy_rand.rand_priv_bytes
toy_rand_priv-IsGenerator = record {
  fills = λ n d q bs h. ground (arith, length-repeat n d);
  refuses = λ n d q. refl;
}

random_bytes_example :
    Yields
      (stepped toy_rand toy_rand.rand_bytes 4 1 9 seeded)
      (random_bytes toy_rand enough_room 1 4 seeded)
      (or_failure (some (9 ∷ (9 ∷ (9 ∷ (9 ∷ []))))) [])
    × Yields
        (stepped toy_rand toy_rand.rand_priv_bytes 4 1 9 seeded)
        (private_bytes toy_rand enough_room 1 4 seeded)
        (or_failure (some (9 ∷ (9 ∷ (9 ∷ (9 ∷ []))))) [])
random_bytes_example =
    random_bytes_lem toy_rand enough_room 1 9 4 seeded seeded-IsFresh refl refl toy_rand-IsGenerator
      toy_rand_priv-IsGenerator
