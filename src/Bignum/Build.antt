-- ===== src/Bignum/Build.antt =====
-- The constructors of src/bignum.c.
use openssl_wasm.Common.{
  ℕ, ◌+◌, ◌/◌, ◌%◌, ◌^◌, Bool, not, ◌||◌, ◌==◌, if◌then◌else◌, Option, List, [], ◌∷◌, length,
}
use openssl_wasm.Int.{to_int}
use openssl_wasm.Memory.{
  Queue, Ptr, null, abort, Result, ok, err, ◌>>=◌, ◌>>◌, pure, call, xmalloc, free, new_object,
  free_object, write_at, read_bytes,
}
use openssl_wasm.Bignum.Bn.{
  BnLib, BnError, parse_failed, BnCmd, boxed, number, maybe_bn, new_bn, set_number,
}

module _ (lib : BnLib) (room : ℕ → Bool) where
  -- exports_openssl_component_bignum_static_bn_zero
  unfoldable pub bn_zero : BnCmd lib Ptr
  bn_zero = new_bn lib

  -- exports_openssl_component_bignum_static_bn_from_u64 on wasm32, where a word has 32 bits.
  unfoldable pub from_u64 : ℕ → BnCmd lib Ptr
  from_u64 v = do
    b ← new_bn lib
    set_number lib b (lib.set_word (v % 2 ^ 32))
    if v / 2 ^ 32 == 0 then pure b else do
      hi ← maybe_bn lib
      set_number lib hi (lib.set_word (v / 2 ^ 32 % 2 ^ 32))
      h ← number lib hi
      set_number lib hi (lib.lshift h 32)
      x ← number lib b
      y ← number lib hi
      set_number lib b (lib.add x y)
      free_object hi
      pure b

  -- The copy of a string with a NUL behind it, handed to a parser of BN.
  unfoldable pub parse_with :
      (List ℕ → Queue → (Option lib.Bn × Bool) × Queue) → List ℕ → BnCmd lib (Result BnError Ptr)
  parse_with parse s = do
    nul ← xmalloc room (length s + 1)
    write_at nul 0 s
    write_at nul (length s) (0 ∷ [])
    text ← read_bytes nul
    (b, nonzero) ← call (parse text)
    p ← new_object (boxed lib b)
    free nul
    if not nonzero || p == null then (do free_object p; pure (err parse_failed)) else pure (ok p)

  -- exports_openssl_component_bignum_static_bn_from_dec
  unfoldable pub from_dec : List ℕ → BnCmd lib (Result BnError Ptr)
  unfolding parse_with
  from_dec = parse_with lib.dec2bn

  -- exports_openssl_component_bignum_static_bn_from_hex
  unfoldable pub from_hex : List ℕ → BnCmd lib (Result BnError Ptr)
  unfolding parse_with
  from_hex = parse_with lib.hex2bn

  -- exports_openssl_component_bignum_static_bn_from_be_bytes
  unfoldable pub from_be_bytes : List ℕ → BnCmd lib Ptr
  from_be_bytes bytes = do
    b ← call (lib.bin2bn bytes (to_int (length bytes)))
    p ← new_object (boxed lib b)
    if p == null then (λ w. abort) else pure p

  -- exports_openssl_component_bignum_method_bn_clone
  unfoldable pub bn_clone : Ptr → BnCmd lib Ptr
  bn_clone self = do
    x ← number lib self
    b ← call (lib.dup x)
    p ← new_object (boxed lib b)
    if p == null then (λ w. abort) else pure p

  -- exports_openssl_component_bignum_bn_destructor
  unfoldable pub bn_destructor : Ptr → BnCmd lib (Unit {0})
  bn_destructor rep = if rep == null then pure tt else free_object rep
