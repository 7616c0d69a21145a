-- ===== src/Kdf/Label.antt =====
-- The HkdfLabel that exports_openssl_component_kdf_tls13_expand_label of src/kdf.c builds, and
-- RFC 8446, 7.1.
use mathlib.Core.List.{append-nil, append_assoc}
use openssl_wasm.Common.{
  ℕ, suc, ◌+◌, ◌*◌, ◌/◌, ◌%◌, ◌^◌, ◌≤◌, ◌≡◌, Bool, true, ◌||◌, ltb, ◌==◌, if◌then◌else◌, Option,
  none, some, List, [], ◌∷◌, ◌++◌, length, length-append, take, drop, take_past, drop_past,
  drop_zero, take-length-append, drop-length-append, arith,
}
use openssl_wasm.Memory.{World, Cmd, Ptr, raw, done, ◌>>=◌, ◌>>◌, pure, xmalloc, write_at, update}

-- "tls13 "
abbrev pub tls13_prefix : List ℕ
tls13_prefix = b't' ∷ b'l' ∷ b's' ∷ b'1' ∷ b'3' ∷ b' ' ∷ []

-- The check that the code makes; lengths are 32-bit.
abbrev pub label_too_long : List ℕ → List ℕ → ℕ → Bool
label_too_long label context out_len =
    ltb 255 ((length label + 6) % 2 ^ 32) || ltb 255 (length context) || ltb 65535 out_len

abbrev pub info_length : List ℕ → List ℕ → ℕ
info_length label context = 2 + 1 + 6 + length label + 1 + length context

module _ {O R : Type 0} (room : ℕ → Bool) where
  -- The allocation of `info` and the writes into it, at the running offset `o`.
  unfoldable pub build_info : List ℕ → List ℕ → ℕ → Cmd O R Ptr
  build_info label context out_len = do
    info ← xmalloc room (info_length label context)
    write_at info 0 (out_len / 2 ^ 8 % 256 ∷ [])
    write_at info 1 (out_len % 256 ∷ [])
    write_at info 2 ((6 + length label) % 256 ∷ [])
    write_at info 3 tls13_prefix
    write_at info 9 label
    write_at info (9 + length label) (length context % 256 ∷ [])
    write_at info (10 + length label) context
    pure info

-- RFC 8446, 7.1: a two-byte length, and two vectors with one byte of length each.
abbrev pub vector8 : List ℕ → List ℕ
vector8 bs = length bs ∷ bs

unfoldable pub hkdf_label : ℕ → List ℕ → List ℕ → List ℕ
hkdf_label out_len label context =
    out_len / 256 ∷ (out_len % 256 ∷ (vector8 (tls13_prefix ++ label) ++ vector8 context))

-- A reader of HkdfLabel: the length, the label without its prefix, and the context.
abbrev pub read_context : ℕ → List ℕ → List ℕ → Option (ℕ × List ℕ × List ℕ)
read_context len label [] = none
read_context len label (k ∷ rest) = if length rest == k then some (len, label, rest) else none

unfoldable pub read_label : List ℕ → Option (ℕ × List ℕ × List ℕ)
read_label (a ∷ (b ∷ (n ∷ rest))) = read_context (a * 256 + b) (drop 6 (take n rest)) (drop n rest)
read_label _ = none

-- The reader gives back the three parts of every label that is in range.
pub read-hkdf_label :
    (out_len : ℕ) (label context : List ℕ)
    → read_label (hkdf_label out_len label context) ≡ some (out_len, label, context)
unfolding read_label hkdf_label
read-hkdf_label out_len label context = ground (
  arith,
  take-length-append label (vector8 context),
  drop-length-append label (vector8 context),
  drop_zero label,
)

module _ {O R : Type 0} (room : ℕ → Bool) (label context : List ℕ) (out_len : ℕ)
    (w : World O R) where
  abbrev size : ℕ
  size = info_length label context

  -- The bytes of `info` after each write.
  abbrev bytes1 : List ℕ
  bytes1 = out_len / 2 ^ 8 % 256 ∷ []

  abbrev bytes2 : List ℕ
  bytes2 = bytes1 ++ out_len % 256 ∷ []

  abbrev bytes3 : List ℕ
  bytes3 = bytes2 ++ (6 + length label) % 256 ∷ []

  abbrev bytes4 : List ℕ
  bytes4 = bytes3 ++ tls13_prefix

  abbrev bytes5 : List ℕ
  bytes5 = bytes4 ++ label

  abbrev bytes6 : List ℕ
  bytes6 = bytes5 ++ length context % 256 ∷ []

  abbrev pub bytes7 : List ℕ
  bytes7 = bytes6 ++ context

  abbrev holding : List ℕ → World O R → World O R
  holding bs v = record v { cell = update v.cell (suc w.next) (some (raw size bs)) }

  abbrev start : World O R
  start = record w { next = suc w.next; cell = update w.cell (suc w.next) (some (raw size [])) }

  abbrev world3 : World O R
  world3 = holding bytes3 (holding bytes2 (holding bytes1 start))

  abbrev world5 : World O R
  world5 = holding bytes5 (holding bytes4 world3)

  abbrev pub info_world : World O R
  info_world = holding bytes7 (holding bytes6 world5)

  held : (bs : List ℕ) (v : World O R) → (holding bs v).cell (suc w.next) ≡ some (raw size bs)
  held bs v = ground arith

  length-bytes5 : length bytes5 ≡ 9 + length label
  length-bytes5 = omega arith

  length-bytes6 : length bytes6 ≡ 10 + length label
  length-bytes6 = omega (arith, length-append bytes5 (length context % 256 ∷ []))

  pub build_info_runs :
      room size ≡ true → build_info room label context out_len w ≡ done (suc w.next) info_world
  unfolding build_info
  build_info_runs grants = ground (
    arith,
    grants,
    append-nil label,
    append-nil context,
    take_past (9 + length label) bytes5 (omega arith),
    drop_past (9 + length label + 1) bytes5 (omega arith),
    take_past (10 + length label) bytes6 (omega (arith, length-bytes6)),
    drop_past (10 + length label + length context) bytes6 (omega (arith, length-bytes6)),
  )

  -- Where the code's check passes, the bytes are the HkdfLabel of RFC 8446.
  pub bytes7-eq-hkdf_label :
      length label + 6 ≤ 255
      → length context ≤ 255
      → out_len ≤ 65535
      → bytes7 ≡ hkdf_label out_len label context
  unfolding hkdf_label
  bytes7-eq-hkdf_label hl hc ho =
      ground (arith, append_assoc label (length context % 256 ∷ []) context)
