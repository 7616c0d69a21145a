-- ===== src/Int.antt =====
-- A C int, and the conversions between it and 32-bit unsigned numbers that the source writes as casts.
use openssl_wasm.Common.{ℕ, ◌-◌, ◌^◌, ltb, Bool, true, false, if◌then◌else◌}

-- A C int.
pub data ℤ : Type 0 where
  pos : ℕ → ℤ
  negsuc : ℕ → ℤ

abbrev pub is_negative : ℤ → Bool
is_negative (pos n) = false
is_negative (negsuc n) = true

abbrev pub is_positive : ℤ → Bool
is_positive (pos n) = ltb 0 n
is_positive (negsuc n) = false

-- (uint32_t)n
abbrev pub to_unsigned : ℤ → ℕ
to_unsigned (pos n) = n
to_unsigned (negsuc n) = 2 ^ 32 - 1 - n

-- (int)n of a 32-bit n
abbrev pub to_int : ℕ → ℤ
to_int n = if ltb n (2 ^ 31) then pos n else negsuc (2 ^ 32 - 1 - n)
