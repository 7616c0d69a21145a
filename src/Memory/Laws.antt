-- ===== src/Memory/Laws.antt =====
-- Laws of the contracts that calls are composed by.
use openssl_wasm.Common.{ℕ, ◌≡◌, false, ◌==◌, Option, none, some, List, arith}
use openssl_wasm.Memory.{
  Queue, Ptr, null, Cell, raw, Run, done, abort, fault, Result, ok, err, Buffer, and_then, ◌>>◌,
  pure, free, update,
}
use openssl_wasm.Memory.Contract.{Yields}

module _ {O R : Type 0} where
  -- A buffer that lay in memory during a call is freed after it.
  pub Yields-free :
      {E : Type 0} (m : Ptr → Option (Cell O R)) (p n : ℕ) (old : List ℕ)
      (run : Run O R (Result E Buffer)) (v : Result E (List ℕ) × Queue)
      → m p ≡ some (raw n old)
      → (p == null) ≡ false
      → Yields m run v
      → Yields (update m p none) (and_then run (λ r. do free p; pure r)) v
  Yields-free m p n old (done (ok b) w) (ok bs, q) held set y =
      ground (arith, y.2, y.3 p, held, set, y.0)
  Yields-free m p n old (done (err e) w) (err e', q) held set y = ground (arith, y.1 p, held, set)
  Yields-free m p n old (done (ok b) w) (err e, q) held set y = absurd y
  Yields-free m p n old (done (err e) w) (ok bs, q) held set y = absurd y
  Yields-free m p n old abort v held set y = y
  Yields-free m p n old fault v held set y = y
