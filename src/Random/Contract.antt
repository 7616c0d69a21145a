-- ===== src/Random/Contract.antt =====
-- What the random interface returns.
use mathlib.Core.List.{append-nil}
use openssl_wasm.Common.{
  ℕ, suc, ◌-◌, ◌^◌, ltb, ◌≡◌, Bool, true, inl, inr, Bool-cases, if◌then◌else◌, Option, none, some,
  List, length, arith,
}
use openssl_wasm.Int.{ℤ, pos, negsuc, to_int}
use openssl_wasm.Memory.{
  Queue, Ptr, Cell, object, peek_last, World, Result, ok, err, update, at_least_one,
}
use openssl_wasm.Memory.Contract.{IsFresh, Yields, output}
use openssl_wasm.Random.Bytes.{
  EvpRand, RandomError, drbg_failure, bytes_from, random_bytes, private_bytes,
}

abbrev pub or_failure : Option (List ℕ) → Queue → Result RandomError (List ℕ) × Queue
or_failure none q = (err (drbg_failure (peek_last q)), q)
or_failure (some bs) q = (ok bs, q)

module _ (evp : EvpRand) where
  -- A generator fills the buffer that it is given, and fails if the count is negative.
  pub record IsGenerator (rand : ℤ → evp.Drbg → Queue → (Option (List ℕ) × evp.Drbg) × Queue)
      : Type 0 where
    pub fills :
        (n : ℕ) (d : evp.Drbg) (q : Queue) (bs : List ℕ)
        → (rand (pos n) d q).0.0 ≡ some bs
        → length bs ≡ n
    pub refuses : (n : ℕ) (d : evp.Drbg) (q : Queue) → (rand (negsuc n) d q).0.0 ≡ none

  -- What a generator gives for a 32-bit length: nothing from 2^31 on, where the count is negative.
  abbrev pub given :
      (ℤ → evp.Drbg → Queue → (Option (List ℕ) × evp.Drbg) × Queue)
      → ℕ
      → evp.Drbg
      → Queue
      → Option (List ℕ)
  given rand n d q = if ltb n (2 ^ 31) then (rand (pos n) d q).0.0 else none

  -- The memory with the generator's state after a call.
  abbrev pub stepped :
      (ℤ → evp.Drbg → Queue → (Option (List ℕ) × evp.Drbg) × Queue)
      → ℕ
      → Ptr
      → evp.Drbg
      → World evp.Drbg ⊥
      → Ptr
      → Option (Cell evp.Drbg ⊥)
  stepped rand n drbg d w = update w.cell drbg (some (object (rand (to_int n) d w.errs).0.1))

  module _ (room : ℕ → Bool) (drbg : Ptr) (d : evp.Drbg) (n : ℕ) (w : World evp.Drbg ⊥)
      (fresh : IsFresh w) (held : w.cell drbg ≡ some (object d))
      (grants : room (at_least_one n) ≡ true) where
    bytes_from-Yields :
        (rand : ℤ → evp.Drbg → Queue → (Option (List ℕ) × evp.Drbg) × Queue)
        → IsGenerator rand
        → Yields
            (stepped rand n drbg d w)
            (bytes_from evp room drbg rand n w)
            (or_failure (given rand n d w.errs) (rand (to_int n) d w.errs).1)
    bytes_from-Yields rand gen = elim (Bool-cases (ltb n (2 ^ 31))) [
      | inl small ↦
          let bs = output (rand (pos n) d w.errs).0.0 in
          ground (
            arith,
            small,
            held,
            grants,
            fresh.unused (suc w.next),
            append-nil bs,
            gen.fills n d w.errs bs,
          )
      | inr large ↦ ground (
        arith,
        large,
        held,
        grants,
        fresh.unused (suc w.next),
        gen.refuses (2 ^ 32 - 1 - n) d w.errs,
      )
    ]

    -- Both exports return the bytes that the generator that each asks gives, in one new buffer of the
    -- length asked for, or its failure, with the memory as it was but for that generator's state. From
    -- a length of 2^31 on, whose count is negative as an int, they fail. This holds where malloc grants
    -- the length, and the generators fill their buffer and fail on a negative count.
    pub random_bytes_lem :
        IsGenerator evp.rand_bytes
        → IsGenerator evp.rand_priv_bytes
        → Yields
            (stepped evp.rand_bytes n drbg d w)
            (random_bytes evp room drbg n w)
            (or_failure (given evp.rand_bytes n d w.errs) (evp.rand_bytes (to_int n) d w.errs).1)
          × Yields (stepped evp.rand_priv_bytes n drbg d w) (private_bytes evp room drbg n w) (
              or_failure
                (given evp.rand_priv_bytes n d w.errs)
                (evp.rand_priv_bytes (to_int n) d w.errs).1)
    unfolding random_bytes private_bytes
    random_bytes_lem gen gen_private =
        (bytes_from-Yields evp.rand_bytes gen, bytes_from-Yields evp.rand_priv_bytes gen_private)
