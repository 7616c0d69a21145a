-- ===== src/Bignum/Bn.antt =====
-- What the bignum interface takes from OpenSSL's BN, and its errors. A handle is a BIGNUM pointer.
use openssl_wasm.Common.{ℕ, Bool, Option, none, some, List, ◌==◌, if◌then◌else◌}
use openssl_wasm.Int.{ℤ}
use openssl_wasm.Memory.{
  Queue, Cmd, Ptr, null, abort, fault, Result, err, ◌>>=◌, pure, call, new_object, load, store,
  peek_last_error,
}

pub record BnLib : Type 1 where
  pub Bn : Type 0
  -- BN_new, and what BN_new gives: zero.
  pub bn_new : Queue → Option Bn × Queue
  -- BN_CTX_new: whether it gives a context.
  pub ctx_new : Queue → Bool × Queue
  -- What BN_set_word of a 32-bit word, BN_lshift, BN_add, BN_sub, BN_mul and BN_gcd leave in their
  -- target, whether they succeed or not.
  pub set_word : ℕ → Queue → Bn × Queue
  pub lshift : Bn → ℕ → Queue → Bn × Queue
  pub add : Bn → Bn → Queue → Bn × Queue
  pub sub : Bn → Bn → Queue → Bn × Queue
  pub mul : Bn → Bn → Queue → Bn × Queue
  pub gcd : Bn → Bn → Queue → Bn × Queue
  -- BN_div, BN_mod, BN_mod_exp and BN_mod_inverse: nothing if they fail.
  pub div : Bn → Bn → Queue → Option (Bn × Bn) × Queue
  pub mod_ : Bn → Bn → Queue → Option Bn × Queue
  pub mod_exp : Bn → Bn → Bn → Queue → Option Bn × Queue
  pub mod_inverse : Bn → Bn → Queue → Option Bn × Queue
  -- BN_dec2bn and BN_hex2bn of a text up to its first NUL: the number, and whether the result is
  -- not 0.
  pub dec2bn : List ℕ → Queue → (Option Bn × Bool) × Queue
  pub hex2bn : List ℕ → Queue → (Option Bn × Bool) × Queue
  -- BN_bin2bn of bytes and their count.
  pub bin2bn : List ℕ → ℤ → Queue → Option Bn × Queue
  pub dup : Bn → Queue → Option Bn × Queue
  -- BN_bn2dec and BN_bn2hex
  pub bn2dec : Bn → Queue → Option (List ℕ) × Queue
  pub bn2hex : Bn → Queue → Option (List ℕ) × Queue
  -- BN_num_bytes, BN_num_bits, and the bytes that BN_bn2binpad writes at a length:
  -- none if the length is too small or negative.
  pub num_bytes : Bn → ℕ
  pub num_bits : Bn → ℕ
  pub bn2binpad : Bn → ℤ → List ℕ
  pub is_zero : Bn → Bool
  pub is_one : Bn → Bool
  pub is_odd : Bn → Bool
  pub is_negative : Bn → Bool
  -- Whether BN_cmp is below, at or above 0.
  pub below : Bn → Bn → Bool
  pub same : Bn → Bn → Bool
  -- BN_rand_range, BN_check_prime (whether it returns 1) and BN_generate_prime_ex.
  pub rand_range : Bn → Queue → Option Bn × Queue
  pub check_prime : Bn → Queue → Bool × Queue
  pub generate_prime : ℤ → Bool → Queue → Option Bn × Queue

-- bn-error
pub data BnError : Type 0 where
  parse_failed div_by_zero not_invertible out_of_range : BnError
  internal : ℕ → BnError

-- The objects of OpenSSL that the interface holds.
pub data BnObject (lib : BnLib) : Type 0 where
  bn : lib.Bn → BnObject lib
  bn_ctx : BnObject lib

abbrev pub BnCmd : BnLib → Type 0 → Type 0
BnCmd lib A = Cmd (BnObject lib) ⊥ A

module _ (lib : BnLib) where
  abbrev pub internal_error : {A : Type 0} → BnCmd lib (Result BnError A)
  internal_error = do e ← peek_last_error; pure (err (internal e))

  abbrev pub boxed : Option lib.Bn → Option (BnObject lib)
  boxed none = none
  boxed (some b) = some (bn b)

  -- The number that a pointer leads to.
  abbrev pub number : Ptr → BnCmd lib lib.Bn
  number p = do o ← load p; elim o [ bn b ↦ pure b | bn_ctx ↦ λ w. fault ]

  -- What a call of BN leaves in its target.
  abbrev pub set_number : Ptr → (Queue → lib.Bn × Queue) → BnCmd lib (Unit {0})
  set_number p f = do old ← number p; b ← call f; store p (bn b)

  -- BN_CTX_new, which may give NULL.
  abbrev pub maybe_ctx : BnCmd lib Ptr
  maybe_ctx = do made ← call lib.ctx_new; new_object (if made then some bn_ctx else none)

  -- BN_new, which may give NULL.
  abbrev pub maybe_bn : BnCmd lib Ptr
  maybe_bn = do b ← call lib.bn_new; new_object (boxed b)

  -- BN_new, or abort.
  abbrev pub new_bn : BnCmd lib Ptr
  new_bn = do p ← maybe_bn; if p == null then (λ w. abort) else pure p

  -- BN_CTX_new, or abort.
  abbrev pub new_ctx : BnCmd lib Ptr
  new_ctx = do p ← maybe_ctx; if p == null then (λ w. abort) else pure p
