-- ===== src/Tests/World.antt =====
-- A memory with nothing in it.
use openssl_wasm.Common.{ℕ, refl, Bool, true, none, []}
use openssl_wasm.Memory.{World}
use openssl_wasm.Memory.Contract.{IsFresh}

abbrev pub enough_room : ℕ → Bool
enough_room n = true

module _ {O R : Type 0} where
  abbrev pub empty_world : World O R
  empty_world = record { next = 0; cell = λ x. none; errs = [] }

  pub empty_world-IsFresh : IsFresh empty_world
  empty_world-IsFresh = record { unused = λ x h. refl; null_free = refl }
