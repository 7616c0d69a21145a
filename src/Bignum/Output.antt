-- ===== src/Bignum/Output.antt =====
-- The output functions and predicates of src/bignum.c.
use openssl_wasm.Common.{ℕ, Bool, ltb, if◌then◌else◌, Option, none, some, []}
use openssl_wasm.Int.{to_int}
use openssl_wasm.Memory.{
  Ptr, Buffer, ◌>>=◌, ◌>>◌, pure, call, xmalloc, write_at, at_least_one, string_take,
}
use openssl_wasm.Bignum.Bn.{BnLib, BnCmd, number}

-- The result of `compare`: -1, 0 or 1.
pub data Sign : Type 0 where
  minus zero_sign plus : Sign

module _ (lib : BnLib) (room : ℕ → Bool) where
  -- exports_openssl_component_bignum_method_bn_to_dec; NULL gives the empty string.
  unfoldable pub to_dec : Ptr → BnCmd lib Buffer
  to_dec self = do
    x ← number lib self
    s ← call (lib.bn2dec x)
    string_take room (elim s [ none ↦ [] | some bs ↦ bs ])

  -- exports_openssl_component_bignum_method_bn_to_hex
  unfoldable pub to_hex : Ptr → BnCmd lib Buffer
  to_hex self = do
    x ← number lib self
    s ← call (lib.bn2hex x)
    string_take room (elim s [ none ↦ [] | some bs ↦ bs ])

  -- The length that to_be_bytes chooses.
  unfoldable pub output_length : ℕ → Option ℕ → ℕ
  output_length nat none = nat
  output_length nat (some pad) = if ltb nat pad then pad else nat

  -- exports_openssl_component_bignum_method_bn_to_be_bytes
  unfoldable pub to_be_bytes : Ptr → Option ℕ → BnCmd lib Buffer
  to_be_bytes self maybe_pad_to = do
    x ← number lib self
    let out_len = output_length (lib.num_bytes x) maybe_pad_to
    p ← xmalloc room (at_least_one out_len)
    write_at p 0 (lib.bn2binpad x (to_int out_len))
    pure (record { ptr = p; len = out_len })

  -- exports_openssl_component_bignum_method_bn_bits, _is_zero, _is_one, _is_odd and _is_negative
  unfoldable pub bn_bits : Ptr → BnCmd lib ℕ
  bn_bits self = do x ← number lib self; pure (lib.num_bits x)

  unfoldable pub bn_is_zero : Ptr → BnCmd lib Bool
  bn_is_zero self = do x ← number lib self; pure (lib.is_zero x)

  unfoldable pub bn_is_one : Ptr → BnCmd lib Bool
  bn_is_one self = do x ← number lib self; pure (lib.is_one x)

  unfoldable pub bn_is_odd : Ptr → BnCmd lib Bool
  bn_is_odd self = do x ← number lib self; pure (lib.is_odd x)

  unfoldable pub bn_is_negative : Ptr → BnCmd lib Bool
  bn_is_negative self = do x ← number lib self; pure (lib.is_negative x)

  -- exports_openssl_component_bignum_method_bn_equals and _compare
  unfoldable pub bn_equals : Ptr → Ptr → BnCmd lib Bool
  bn_equals self other = do x ← number lib self; y ← number lib other; pure (lib.same x y)

  unfoldable pub bn_compare : Ptr → Ptr → BnCmd lib Sign
  bn_compare self other = do
    x ← number lib self
    y ← number lib other
    pure (if lib.same x y then zero_sign else if lib.below x y then minus else plus)
