-- ===== src/Bignum/Word.antt =====
-- The number that from_u64 of src/bignum.c makes.
use openssl_wasm.Common.{
  ℕ, suc, ◌+◌, ◌*◌, ◌/◌, ◌%◌, ◌^◌, ◌<◌, ◌≡◌, Bool, false, ◌==◌, inl, inr, Bool-cases, Option, none,
  some, arith,
}
use openssl_wasm.Memory.{Queue, Ptr, Cell, object, World, Run, done, abort, fault}
use openssl_wasm.Memory.Contract.{IsFresh}
use openssl_wasm.Bignum.Bn.{BnLib, BnObject, bn}
use openssl_wasm.Bignum.Build.{from_u64}

module _ (lib : BnLib) where
  -- What the documentation says of the value of a number after BN_set_word, BN_lshift and BN_add,
  -- where the numbers given are not negative, and that BN_new has memory. A negative number has no
  -- value here.
  pub record HasValues : Type 0 where
    pub value : lib.Bn → Option ℕ
    pub zero_bn : lib.Bn
    pub bn_made : (q : Queue) → (lib.bn_new q).0 ≡ some zero_bn
    pub word_value : (v : ℕ) (q : Queue) → v < 2 ^ 32 → value (lib.set_word v q).0 ≡ some v
    pub lshift_value :
        (b : lib.Bn) (n x : ℕ) (q : Queue)
        → value b ≡ some x
        → value (lib.lshift b n q).0 ≡ some (x * 2 ^ n)
    pub add_value :
        (a b : lib.Bn) (x y : ℕ) (q : Queue)
        → value a ≡ some x
        → value b ≡ some y
        → value (lib.add a b q).0 ≡ some (x + y)

  -- The value of the number in a cell.
  abbrev pub value_in : (lib.Bn → Option ℕ) → Option (Cell (BnObject lib) ⊥) → Option ℕ
  value_in value (some (object (bn b))) = value b
  value_in value _ = none

  -- The call returns a new number of value `v` and changes nothing else.
  abbrev pub Holds :
      (lib.Bn → Option ℕ)
      → (Ptr → Option (Cell (BnObject lib) ⊥))
      → ℕ
      → Run (BnObject lib) ⊥ Ptr
      → Type 0
  Holds value m v (done p w) =
      (value_in value (w.cell p) ≡ some v)
      × (m p ≡ none)
      × ((x : Ptr) → (x == p) ≡ false → w.cell x ≡ m x)
  Holds value m v abort = ⊥
  Holds value m v fault = ⊥

  -- For every 64-bit number, made on a machine with 32-bit words: from_u64 returns one new BIGNUM
  -- of that value, and the number that holds the high half in between is freed. This holds where
  -- BN_new has memory, and BN_set_word, BN_lshift and BN_add do not fail and give the values that
  -- their documentation says, on numbers that are not negative.
  pub from_u64_lem :
      (room : ℕ → Bool) (v : ℕ) (w : World (BnObject lib) ⊥) (h : HasValues)
      → IsFresh w
      → v < 2 ^ 64
      → Holds h.value w.cell v (from_u64 lib room v w)
  unfolding from_u64
  from_u64_lem room v w h fresh small =
      let q1 = (lib.bn_new w.errs).1 in
      let word = lib.set_word (v % 2 ^ 32) q1 in
      let q2 = (lib.bn_new word.1).1 in
      let high_word = lib.set_word (v / 2 ^ 32 % 2 ^ 32) q2 in
      let shifted = lib.lshift high_word.0 32 high_word.1 in
      let low_half = h.word_value (v % 2 ^ 32) q1 (omega arith) in
      let high_half = h.word_value (v / 2 ^ 32 % 2 ^ 32) q2 (omega arith) in
      let moved = h.lshift_value high_word.0 32 (v / 2 ^ 32 % 2 ^ 32) high_word.1 high_half in
      let sum = h.add_value word.0 shifted.0 _ _ shifted.1 low_half moved in
      elim (Bool-cases (v / 2 ^ 32 == 0)) [
        | inl low ↦ ground (arith, low, h.bn_made w.errs, fresh.unused (suc w.next), low_half)
        | inr high ↦ ground (
          arith,
          high,
          h.bn_made w.errs,
          h.bn_made word.1,
          fresh.unused (suc w.next),
          fresh.unused (suc (suc w.next)),
          sum,
        )
      ]
