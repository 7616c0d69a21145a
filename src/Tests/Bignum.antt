-- ===== src/Tests/Bignum.antt =====
-- The bignum model with whole numbers in place of OpenSSL's.
use openssl_wasm.Common.{
  ℕ, ◌+◌, ◌-◌, ◌*◌, ◌/◌, ◌%◌, ◌^◌, refl, true, false, ◌==◌, leb, not, ◌&&◌, ◌≡◌, if◌then◌else◌,
  Option, none, some, [], arith,
}
use openssl_wasm.Int.{ℤ, pos, negsuc, is_negative}
use openssl_wasm.Memory.{World, object, update}
use openssl_wasm.Memory.Contract.{IsFresh}
use openssl_wasm.Bignum.Bn.{BnLib, BnObject, bn}
use openssl_wasm.Bignum.Build.{from_u64}
use openssl_wasm.Bignum.Arith.{bn_div, bn_modulo, bn_mod_exp}
use openssl_wasm.Bignum.Contract.{
  Makes, MakesTwo, div_value, modulo_value, mod_exp_value, HasMemory, bn_div_lem, bn_modulo_lem,
  bn_mod_exp_lem,
}
use openssl_wasm.Bignum.Word.{HasValues, Holds, from_u64_lem}
use openssl_wasm.Tests.World.{enough_room, empty_world, empty_world-IsFresh}

-- -n
abbrev negated : ℕ → ℤ
negated n = if n == 0 then pos 0 else negsuc (n - 1)

-- a - b
abbrev difference : ℕ → ℕ → ℤ
difference a b = if leb b a then pos (a - b) else negsuc (b - a - 1)

abbrev sum : ℤ → ℤ → ℤ
sum (pos a) (pos b) = pos (a + b)
sum (pos a) (negsuc b) = difference a (b + 1)
sum (negsuc a) (pos b) = difference b (a + 1)
sum (negsuc a) (negsuc b) = negsuc (a + b + 1)

abbrev opposite : ℤ → ℤ
opposite (pos a) = negated a
opposite (negsuc a) = pos (a + 1)

abbrev scaled : ℤ → ℕ → ℤ
scaled (pos a) n = pos (a * n)
scaled (negsuc a) n = negated ((a + 1) * n)

abbrev value_of : ℤ → Option ℕ
value_of (pos a) = some a
value_of (negsuc a) = none

abbrev number_of : ℤ → ℕ
number_of (pos a) = a
number_of (negsuc a) = a + 1

abbrev toy_bn : BnLib
toy_bn = record {
  Bn = ℤ;
  bn_new = λ q. (some (pos 0), q);
  ctx_new = λ q. (true, q);
  set_word = λ v q. (pos v, q);
  lshift = λ b n q. (scaled b (2 ^ n), q);
  add = λ a b q. (sum a b, q);
  sub = λ a b q. (sum a (opposite b), q);
  mul = λ a b q. (scaled a (number_of b), q);
  gcd = λ a b q. (pos 1, q);
  div = λ a b q. (some (pos (number_of a / number_of b), pos (number_of a % number_of b)), q);
  mod_ = λ a b q. (some (pos (number_of a % number_of b)), q);
  mod_exp = λ a e b q. (some (pos (number_of a ^ number_of e % number_of b)), q);
  mod_inverse = λ a b q. (none, q);
  dec2bn = λ text q. ((none, false), q);
  hex2bn = λ text q. ((none, false), q);
  bin2bn = λ bs n q. (some (pos 0), q);
  dup = λ b q. (some b, q);
  bn2dec = λ b q. (none, q);
  bn2hex = λ b q. (none, q);
  num_bytes = λ b. 8;
  num_bits = λ b. 64;
  bn2binpad = λ b n. [];
  is_zero = λ b. number_of b == 0;
  is_one = λ b. number_of b == 1 && not (is_negative b);
  is_odd = λ b. number_of b % 2 == 1;
  is_negative = is_negative;
  below = λ a b. is_negative (sum a (opposite b));
  same = λ a b. number_of (sum a (opposite b)) == 0;
  rand_range = λ b q. (some (pos 0), q);
  check_prime = λ b q. (false, q);
  generate_prime = λ n safe q. (none, q);
}

-- The numbers 17 and 5 at the addresses 1 and 2.
abbrev two_numbers : World (BnObject toy_bn) ⊥
two_numbers = record {
  next = 2;
  cell = update (update (λ x. none) 1 (some (object (bn (pos 17))))) 2 (some (object (bn (pos 5))));
  errs = [];
}

two_numbers-IsFresh : IsFresh two_numbers
two_numbers-IsFresh = record { unused = λ x h. ground arith; null_free = refl }

toy_bn-HasMemory : HasMemory toy_bn
toy_bn-HasMemory = record { zero_bn = pos 0; ctx_made = λ q. refl; bn_made = λ q. refl }

scaled-value :
    (b : ℤ) (n x : ℕ) → value_of b ≡ some x → value_of (scaled b (2 ^ n)) ≡ some (x * 2 ^ n)
scaled-value (pos a) n x h = ground (arith, h)
scaled-value (negsuc a) n x h = absurd (ground arith)

sum-value :
    (a b : ℤ) (x y : ℕ)
    → value_of a ≡ some x
    → value_of b ≡ some y
    → value_of (sum a b) ≡ some (x + y)
sum-value (pos a) (pos b) x y h k = ground arith
sum-value (pos a) (negsuc b) x y h k = absurd (ground arith)
sum-value (negsuc a) b x y h k = absurd (ground arith)

abbrev toy_values : HasValues toy_bn
toy_values = record {
  value = value_of;
  zero_bn = pos 0;
  bn_made = λ q. refl;
  word_value = λ v q h. refl;
  lshift_value = λ b n x q h. scaled-value b n x h;
  add_value = λ a b x y q h k. sum-value a b x y h k;
}

bn_div_example :
    MakesTwo toy_bn two_numbers.cell
      (bn_div toy_bn 1 2 two_numbers)
      (div_value toy_bn (pos 17) (pos 5) [])
bn_div_example =
    bn_div_lem toy_bn toy_bn-HasMemory two_numbers two_numbers-IsFresh 1 2 (pos 17) (pos 5) refl
      refl

bn_modulo_example :
    Makes toy_bn two_numbers.cell
      (bn_modulo toy_bn 1 2 two_numbers)
      (modulo_value toy_bn (pos 17) (pos 5) [])
bn_modulo_example =
    bn_modulo_lem toy_bn toy_bn-HasMemory two_numbers two_numbers-IsFresh 1 2 (pos 17) (pos 5) refl
      refl

bn_mod_exp_example :
    Makes toy_bn two_numbers.cell
      (bn_mod_exp toy_bn 1 1 2 two_numbers)
      (mod_exp_value toy_bn (pos 17) (pos 17) (pos 5) [])
bn_mod_exp_example =
    bn_mod_exp_lem toy_bn toy_bn-HasMemory two_numbers two_numbers-IsFresh 1 2 (pos 17) (pos 5) refl
      refl 1 (pos 17) refl

from_u64_example :
    Holds toy_bn value_of
      (λ x. none)
      (5 * 2 ^ 32 + 7)
      (from_u64 toy_bn enough_room (5 * 2 ^ 32 + 7) empty_world)
from_u64_example =
    from_u64_lem toy_bn enough_room (5 * 2 ^ 32 + 7) empty_world toy_values empty_world-IsFresh
      (omega arith)
