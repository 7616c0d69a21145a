-- ===== src/Bignum/Arith.antt =====
-- The arithmetic of src/bignum.c.
use openssl_wasm.Common.{ℕ, Bool, ltb, ◌==◌, if◌then◌else◌, Option, none, some}
use openssl_wasm.Int.{to_int}
use openssl_wasm.Memory.{
  Queue, Ptr, null, Result, ok, err, ◌>>=◌, ◌>>◌, pure, call, new_object, store, free_object,
}
use openssl_wasm.Bignum.Bn.{
  BnLib, BnError, div_by_zero, not_invertible, out_of_range, bn, BnCmd, internal_error, number,
  maybe_bn, new_bn, maybe_ctx, new_ctx, set_number,
}

module _ (lib : BnLib) where
  -- A new number that an operation of BN sets from two others.
  abbrev binary : (lib.Bn → lib.Bn → Queue → lib.Bn × Queue) → Ptr → Ptr → BnCmd lib Ptr
  binary f self other = do
    r ← new_bn lib
    x ← number lib self
    y ← number lib other
    set_number lib r (f x y)
    pure r

  -- The same with a BN_CTX, made first and freed behind.
  abbrev binary_ctx : (lib.Bn → lib.Bn → Queue → lib.Bn × Queue) → Ptr → Ptr → BnCmd lib Ptr
  binary_ctx f self other = do
    c ← new_ctx lib
    r ← new_bn lib
    x ← number lib self
    y ← number lib other
    set_number lib r (f x y)
    free_object c
    pure r

  -- exports_openssl_component_bignum_method_bn_add, _sub, _mul and _gcd
  unfoldable pub bn_add : Ptr → Ptr → BnCmd lib Ptr
  bn_add = binary lib.add

  unfoldable pub bn_sub : Ptr → Ptr → BnCmd lib Ptr
  bn_sub = binary lib.sub

  unfoldable pub bn_mul : Ptr → Ptr → BnCmd lib Ptr
  bn_mul = binary_ctx lib.mul

  unfoldable pub bn_gcd : Ptr → Ptr → BnCmd lib Ptr
  bn_gcd = binary_ctx lib.gcd

  -- exports_openssl_component_bignum_method_bn_div
  unfoldable pub bn_div : Ptr → Ptr → BnCmd lib (Result BnError (Ptr × Ptr))
  bn_div self other = do
    y ← number lib other
    if lib.is_zero y then pure (err div_by_zero) else do
      c ← new_ctx lib
      q ← new_bn lib
      r ← new_bn lib
      x ← number lib self
      out ← call (lib.div x y)
      free_object c
      elim out [
        | none ↦ (do free_object q; free_object r; internal_error lib)
        | some (a, b) ↦ (do store q (bn a); store r (bn b); pure (ok (q, r)))
      ]

  -- What a fallible operation gave, stored in `r`, or `r` given back.
  abbrev store_or_free : Ptr → Option lib.Bn → BnCmd lib (Result BnError Ptr)
  store_or_free r none = do free_object r; internal_error lib
  store_or_free r (some a) = do store r (bn a); pure (ok r)

  -- exports_openssl_component_bignum_method_bn_modulo
  unfoldable pub bn_modulo : Ptr → Ptr → BnCmd lib (Result BnError Ptr)
  bn_modulo self m = do
    y ← number lib m
    if lib.is_zero y then pure (err div_by_zero) else do
      c ← new_ctx lib
      r ← new_bn lib
      x ← number lib self
      out ← call (lib.mod_ x y)
      free_object c
      store_or_free r out

  -- exports_openssl_component_bignum_method_bn_mod_exp
  unfoldable pub bn_mod_exp : Ptr → Ptr → Ptr → BnCmd lib (Result BnError Ptr)
  bn_mod_exp self exp m = do
    y ← number lib m
    if lib.is_zero y then pure (err div_by_zero) else do
      c ← new_ctx lib
      r ← new_bn lib
      x ← number lib self
      e ← number lib exp
      out ← call (lib.mod_exp x e y)
      free_object c
      store_or_free r out

  -- exports_openssl_component_bignum_method_bn_mod_inverse. BN_mod_inverse makes a number of its own
  -- if its target is NULL; the handle is the target.
  unfoldable pub bn_mod_inverse : Ptr → Ptr → BnCmd lib (Result BnError Ptr)
  bn_mod_inverse self m = do
    c ← new_ctx lib
    r ← maybe_bn lib
    x ← number lib self
    y ← number lib m
    got ← call (lib.mod_inverse x y)
    free_object c
    elim got [
      | none ↦ (do free_object r; pure (err not_invertible))
      | some a ↦
          (if r == null
            then (do made ← new_object (some (bn a)); pure (ok r))
            else (do store r (bn a); pure (ok r)))
    ]

  -- exports_openssl_component_bignum_method_bn_random_below
  unfoldable pub random_below : Ptr → BnCmd lib (Result BnError Ptr)
  random_below self = do
    y ← number lib self
    if lib.is_zero y
        then pure (err out_of_range)
        else do r ← new_bn lib; out ← call (lib.rand_range y); store_or_free r out

  -- exports_openssl_component_bignum_method_bn_is_prime
  unfoldable pub bn_is_prime : Ptr → BnCmd lib Bool
  bn_is_prime self = do
    c ← maybe_ctx lib
    x ← number lib self
    prime ← call (lib.check_prime x)
    free_object c
    pure prime

  -- exports_openssl_component_bignum_static_bn_generate_prime
  unfoldable pub generate_prime : ℕ → Bool → BnCmd lib (Result BnError Ptr)
  generate_prime bits safe = if ltb bits 2 then pure (err out_of_range) else do
    r ← new_bn lib
    out ← call (lib.generate_prime (to_int bits) safe)
    store_or_free r out
