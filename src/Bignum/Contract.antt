-- ===== src/Bignum/Contract.antt =====
-- What the fallible divisions of src/bignum.c return.
use openssl_wasm.Common.{
  suc, ◌≡◌, refl, Bool, true, false, ◌==◌, if◌then◌else◌, Option, none, some, arith,
}
use openssl_wasm.Memory.{
  Queue, Ptr, Cell, object, peek_last, World, Run, done, abort, fault, Result, ok, err,
}
use openssl_wasm.Memory.Contract.{IsFresh}
use openssl_wasm.Bignum.Bn.{BnLib, BnError, div_by_zero, internal, BnObject, bn}
use openssl_wasm.Bignum.Arith.{bn_div, bn_modulo, bn_mod_exp}

module _ (lib : BnLib) where
  abbrev pub Memory : Type 0
  Memory = Ptr → Option (Cell (BnObject lib) ⊥)

  -- The call returns as the value says: a new number at the handle and nothing else, or the error
  -- and the memory as it was.
  abbrev pub Makes :
      Memory → Run (BnObject lib) ⊥ (Result BnError Ptr) → Result BnError lib.Bn × Queue → Type 0
  Makes m (done (ok p) w) (ok a, q) =
      (w.cell p ≡ some (object (bn a)))
      × (m p ≡ none)
      × ((x : Ptr) → (x == p) ≡ false → w.cell x ≡ m x)
      × (w.errs ≡ q)
  Makes m (done (err e) w) (err e', q) = (e ≡ e') × ((x : Ptr) → w.cell x ≡ m x) × (w.errs ≡ q)
  Makes m (done (ok p) w) (err e, q) = ⊥
  Makes m (done (err e) w) (ok a, q) = ⊥
  Makes m abort v = ⊥
  Makes m fault v = ⊥

  -- The same with two new numbers, at different handles.
  abbrev pub MakesTwo :
      Memory
      → Run (BnObject lib) ⊥ (Result BnError (Ptr × Ptr))
      → Result BnError (lib.Bn × lib.Bn) × Queue
      → Type 0
  MakesTwo m (done (ok (p, r)) w) (ok (a, b), q) =
      (w.cell p ≡ some (object (bn a)))
      × (w.cell r ≡ some (object (bn b)))
      × ((p == r) ≡ false)
      × (m p ≡ none)
      × (m r ≡ none)
      × ((x : Ptr) → (x == p) ≡ false → (x == r) ≡ false → w.cell x ≡ m x)
      × (w.errs ≡ q)
  MakesTwo m (done (err e) w) (err e', q) = (e ≡ e') × ((x : Ptr) → w.cell x ≡ m x) × (w.errs ≡ q)
  MakesTwo m (done (ok p) w) (err e, q) = ⊥
  MakesTwo m (done (err e) w) (ok a, q) = ⊥
  MakesTwo m abort v = ⊥
  MakesTwo m fault v = ⊥

  abbrev or_internal : {A : Type 0} → Option A × Queue → Result BnError A × Queue
  or_internal (none, q) = (err (internal (peek_last q)), q)
  or_internal (some a, q) = (ok a, q)

  -- The error queue after BN_CTX_new and one BN_new.
  abbrev set_up : Queue → Queue
  set_up q = (lib.bn_new (lib.ctx_new q).1).1

  -- The results of the three operations, as values.
  unfoldable pub div_value : lib.Bn → lib.Bn → Queue → Result BnError (lib.Bn × lib.Bn) × Queue
  div_value x y q =
      if lib.is_zero y
      then (err div_by_zero, q)
      else or_internal (lib.div x y (lib.bn_new (set_up q)).1)

  unfoldable pub modulo_value : lib.Bn → lib.Bn → Queue → Result BnError lib.Bn × Queue
  modulo_value x y q =
      if lib.is_zero y then (err div_by_zero, q) else or_internal (lib.mod_ x y (set_up q))

  unfoldable pub mod_exp_value : lib.Bn → lib.Bn → lib.Bn → Queue → Result BnError lib.Bn × Queue
  mod_exp_value x e y q =
      if lib.is_zero y then (err div_by_zero, q) else or_internal (lib.mod_exp x e y (set_up q))

  -- BN_CTX_new and BN_new do not run out of memory.
  pub record HasMemory : Type 0 where
    pub zero_bn : lib.Bn
    pub ctx_made : (q : Queue) → (lib.ctx_new q).0 ≡ true
    pub bn_made : (q : Queue) → (lib.bn_new q).0 ≡ some zero_bn

  module _ (mem : HasMemory) (w : World (BnObject lib) ⊥) (fresh : IsFresh w) (self other : Ptr)
      (x y : lib.Bn) (self_held : w.cell self ≡ some (object (bn x)))
      (other_held : w.cell other ≡ some (object (bn y))) where
    -- Division returns quotient and remainder as two new numbers, or the error of a zero divisor or
    -- of BN_div with the memory as it was: the BN_CTX is freed on every path, both numbers are when
    -- BN_div fails, and the operands stay. This holds where BN_CTX_new and BN_new have memory.
    pub bn_div_lem : MakesTwo w.cell (bn_div lib self other w) (div_value x y w.errs)
    unfolding bn_div div_value
    bn_div_lem = split (lib.is_zero y) refl (lib.div x y (lib.bn_new (set_up w.errs)).1).0 refl
      where
        split :
            (z : Bool)
            → lib.is_zero y ≡ z
            → (o : Option (lib.Bn × lib.Bn)) → (lib.div x y (lib.bn_new (set_up w.errs)).1).0 ≡ o
            → MakesTwo w.cell (bn_div lib self other w) (div_value x y w.errs)
        split true ez o eo = ground (arith, other_held, ez)
        split false ez none eo = ground (
          arith,
          self_held,
          other_held,
          ez,
          eo,
          mem.ctx_made w.errs,
          mem.bn_made (lib.ctx_new w.errs).1,
          mem.bn_made (set_up w.errs),
          fresh.unused (suc w.next),
          fresh.unused (suc (suc w.next)),
          fresh.unused (suc (suc (suc w.next))),
        )
        split false ez (some (a, b)) eo = ground (
          arith,
          self_held,
          other_held,
          ez,
          eo,
          mem.ctx_made w.errs,
          mem.bn_made (lib.ctx_new w.errs).1,
          mem.bn_made (set_up w.errs),
          fresh.unused (suc w.next),
          fresh.unused (suc (suc w.next)),
          fresh.unused (suc (suc (suc w.next))),
        )

    -- Reduction returns the remainder as one new number, or the error of a zero modulus or of
    -- BN_mod with the memory as it was: context and result are freed when BN_mod fails. This holds
    -- where BN_CTX_new and BN_new have memory.
    pub bn_modulo_lem : Makes w.cell (bn_modulo lib self other w) (modulo_value x y w.errs)
    unfolding bn_modulo modulo_value
    bn_modulo_lem = split (lib.is_zero y) refl (lib.mod_ x y (set_up w.errs)).0 refl
      where
        split :
            (z : Bool)
            → lib.is_zero y ≡ z
            → (o : Option lib.Bn) → (lib.mod_ x y (set_up w.errs)).0 ≡ o
            → Makes w.cell (bn_modulo lib self other w) (modulo_value x y w.errs)
        split true ez o eo = ground (arith, other_held, ez)
        split false ez none eo = ground (
          arith,
          self_held,
          other_held,
          ez,
          eo,
          mem.ctx_made w.errs,
          mem.bn_made (lib.ctx_new w.errs).1,
          fresh.unused (suc w.next),
          fresh.unused (suc (suc w.next)),
        )
        split false ez (some a) eo = ground (
          arith,
          self_held,
          other_held,
          ez,
          eo,
          mem.ctx_made w.errs,
          mem.bn_made (lib.ctx_new w.errs).1,
          fresh.unused (suc w.next),
          fresh.unused (suc (suc w.next)),
        )

    -- Modular exponentiation returns the power as one new number, or the error of a zero modulus or
    -- of BN_mod_exp with the memory as it was: context and result are freed when BN_mod_exp fails.
    -- This holds where BN_CTX_new and BN_new have memory.
    pub bn_mod_exp_lem :
        (exponent : Ptr) (e : lib.Bn)
        → w.cell exponent ≡ some (object (bn e))
        → Makes w.cell (bn_mod_exp lib self exponent other w) (mod_exp_value x e y w.errs)
    unfolding bn_mod_exp mod_exp_value
    bn_mod_exp_lem exponent e exponent_held =
        split (lib.is_zero y) refl (lib.mod_exp x e y (set_up w.errs)).0 refl
      where
        split :
            (z : Bool)
            → lib.is_zero y ≡ z
            → (o : Option lib.Bn) → (lib.mod_exp x e y (set_up w.errs)).0 ≡ o
            → Makes w.cell (bn_mod_exp lib self exponent other w) (mod_exp_value x e y w.errs)
        split true ez o eo = ground (arith, other_held, ez)
        split false ez none eo = ground (
          arith,
          self_held,
          other_held,
          exponent_held,
          ez,
          eo,
          mem.ctx_made w.errs,
          mem.bn_made (lib.ctx_new w.errs).1,
          fresh.unused (suc w.next),
          fresh.unused (suc (suc w.next)),
        )
        split false ez (some a) eo = ground (
          arith,
          self_held,
          other_held,
          exponent_held,
          ez,
          eo,
          mem.ctx_made w.errs,
          mem.bn_made (lib.ctx_new w.errs).1,
          fresh.unused (suc w.next),
          fresh.unused (suc (suc w.next)),
        )
