-- ===== src/Tests/Errors.antt =====
-- The error model on a queue of two entries.
use openssl_wasm.Common.{refl, true, none, some, [], ◌∷◌, arith}
use openssl_wasm.Memory.{World}
use openssl_wasm.Memory.Contract.{IsFresh}
use openssl_wasm.Errors.Info.{ErrText}
use openssl_wasm.Errors.Drain.{ErrorArray, drain_errors}
use openssl_wasm.Errors.Loop.{Drained, drain_errors_lem}
use openssl_wasm.Tests.World.{enough_room}

abbrev no_text : ErrText
no_text = record { lib_error_string = λ c. none; reason_error_string = λ c. some (c ∷ []) }

abbrev two_errors : World ⊥ ErrorArray
two_errors = record {
  next = 0;
  cell = λ x. none;
  errs =
      record { code = 5; file = some (b'a' ∷ []); line = 12; extra = none; text = true }
      ∷ (record { code = 6; file = none; line = 0; extra = some (b'x' ∷ []); text = true } ∷ []);
}

two_errors-IsFresh : IsFresh two_errors
two_errors-IsFresh = record { unused = λ x h. refl; null_free = refl }

drain_errors_example : Drained (drain_errors enough_room no_text two_errors) (5 ∷ (6 ∷ []))
drain_errors_example =
    drain_errors_lem enough_room (λ n. refl) no_text two_errors two_errors-IsFresh (omega arith)
      refl
