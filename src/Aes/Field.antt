-- ===== src/Aes/Field.antt =====
-- The byte field of AES: doubling, products by a polynomial, and linear forms over four bytes.
use openssl_wasm.Common.{
  ℕ, ◌*◌, ◌%◌, ◌<◌, bit_xor, bit_and, ◌≡◌, refl, sym, ◌∙◌, ap, Bool, true, false, ◌&&◌, List, [],
  ◌∷◌, arith, all_below, all_below_sound, ltb, ◌==◌, if◌then◌else◌,
}
use openssl_wasm.Common.Bits.{
  xor_assoc, xor-zero, zero-xor, xor_left_comm, xor_cancel_middle, xor_interchange,
}

-- One lane of `aes_xtime`.
abbrev pub xtime : ℕ → ℕ
xtime x = bit_xor (x * 2 % 256) (bit_and (if ltb 0x7f x then 0xff else 0) 0x1b)

-- Doubling is additive and gives a byte, and so does a sum of bytes: checked at every pair.
xtime_pair : ℕ → ℕ → Bool
xtime_pair a b =
    xtime (bit_xor a b) == bit_xor (xtime a) (xtime b) && ltb (bit_xor a b) 256 && ltb (xtime a) 256

xtime_table : all_below 256 (λ a. all_below 256 (xtime_pair a)) ≡ true
unfolding xtime_pair
xtime_table = refl

three_tests : (u v x y z : ℕ) → (u == v && ltb x y && ltb z y) ≡ true → (u ≡ v) × (x < y) × (z < y)
three_tests u v x y z h = ground arith

abbrev XtimeFacts : ℕ → ℕ → Type 0
XtimeFacts a b =
    (xtime (bit_xor a b) ≡ bit_xor (xtime a) (xtime b)) × (bit_xor a b < 256) × (xtime a < 256)

xtime_facts : (a b : ℕ) → a < 256 → b < 256 → XtimeFacts a b
unfolding xtime_pair
xtime_facts a b ha hb =
    three_tests (xtime (bit_xor a b)) (bit_xor (xtime a) (xtime b)) (bit_xor a b) 256 (xtime a) (
      all_below_sound 256 (xtime_pair a) b
        (all_below_sound 256 (λ n. all_below 256 (xtime_pair n)) a xtime_table ha) hb)

pub xtime-xor : (a b : ℕ) → a < 256 → b < 256 → xtime (bit_xor a b) ≡ bit_xor (xtime a) (xtime b)
xtime-xor a b ha hb = (xtime_facts a b ha hb).0

pub xor-lt : (a b : ℕ) → a < 256 → b < 256 → bit_xor a b < 256
xor-lt a b ha hb = (xtime_facts a b ha hb).1

pub xtime-lt : (a : ℕ) → a < 256 → xtime a < 256
xtime-lt a ha = (xtime_facts a a ha ha).2

-- The product of a byte by a polynomial over GF(2), whose coefficients stand lowest first.
abbrev pub times : List Bool → ℕ → ℕ
times [] a = 0
times (true ∷ p) a = bit_xor a (times p (xtime a))
times (false ∷ p) a = times p (xtime a)

pub times-lt : (p : List Bool) (a : ℕ) → a < 256 → times p a < 256
times-lt [] a h = omega arith
times-lt (true ∷ p) a h = xor-lt a _ h (times-lt p (xtime a) (xtime-lt a h))
times-lt (false ∷ p) a h = times-lt p (xtime a) (xtime-lt a h)

pub xtime-times : (p : List Bool) (a : ℕ) → a < 256 → xtime (times p a) ≡ times p (xtime a)
xtime-times [] a h = refl
xtime-times (true ∷ p) a h =
    xtime-xor a _ h (times-lt p (xtime a) (xtime-lt a h))
    ∙ ap (bit_xor (xtime a)) (xtime-times p (xtime a) (xtime-lt a h))
xtime-times (false ∷ p) a h = xtime-times p (xtime a) (xtime-lt a h)

-- The sum of two polynomials.
abbrev pub add_poly : List Bool → List Bool → List Bool
add_poly [] q = q
add_poly (c ∷ p) [] = c ∷ p
add_poly (true ∷ p) (d ∷ q) = (if d then false else true) ∷ add_poly p q
add_poly (false ∷ p) (d ∷ q) = d ∷ add_poly p q

pub times-add_poly :
    (p q : List Bool) (a : ℕ) → times (add_poly p q) a ≡ bit_xor (times p a) (times q a)
times-add_poly [] q a = sym (zero-xor _)
times-add_poly (true ∷ p) [] a = sym (xor-zero _)
times-add_poly (false ∷ p) [] a = sym (xor-zero _)
times-add_poly (true ∷ p) (true ∷ q) a =
    times-add_poly p q (xtime a) ∙ sym (xor_cancel_middle a (times p (xtime a)) (times q (xtime a)))
times-add_poly (true ∷ p) (false ∷ q) a =
    ap (bit_xor a) (times-add_poly p q (xtime a)) ∙ sym (xor_assoc a _ _)
times-add_poly (false ∷ p) (true ∷ q) a =
    ap (bit_xor a) (times-add_poly p q (xtime a)) ∙ xor_left_comm a _ _
times-add_poly (false ∷ p) (false ∷ q) a = times-add_poly p q (xtime a)

pub times-xor :
    (p : List Bool) (a b : ℕ)
    → a < 256
    → b < 256
    → times p (bit_xor a b) ≡ bit_xor (times p a) (times p b)
times-xor [] a b ha hb = refl
times-xor (true ∷ p) a b ha hb =
    ap (bit_xor (bit_xor a b)) (
      ap (times p) (xtime-xor a b ha hb)
      ∙ times-xor p (xtime a) (xtime b) (xtime-lt a ha) (xtime-lt b hb))
    ∙ xor_interchange a b (times p (xtime a)) (times p (xtime b))
times-xor (false ∷ p) a b ha hb =
    ap (times p) (xtime-xor a b ha hb)
    ∙ times-xor p (xtime a) (xtime b) (xtime-lt a ha) (xtime-lt b hb)
