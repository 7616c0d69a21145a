-- ===== src/Errors/Drain.antt =====
-- drain_errors of src/component.c: the whole queue, in an array that grows.
use openssl_wasm.Common.{
  ℕ, zero, suc, ◌+◌, ◌*◌, ◌/◌, ◌%◌, ◌^◌, Bool, ltb, ◌==◌, if◌then◌else◌, none, some, List, [], ◌∷◌,
  ◌++◌, length,
}
use openssl_wasm.Memory.{
  Cmd, Ptr, fault, abort, ◌>>=◌, ◌>>◌, pure, xmalloc_struct, load_struct, store_struct, free,
}
use openssl_wasm.Errors.Info.{ErrorInfo, ErrText, get_error, describe_entry}

-- The array `buf`: its room in entries, and the entries written so far.
pub record ErrorArray : Type 0 where
  pub room_for : ℕ
  pub infos : List ErrorInfo

-- sizeof(error_info) on wasm32: the code in 8 bytes, two strings, two optional strings and an
-- optional line; the size of an array in bytes wraps at 2^32.
abbrev pub array_size : ℕ → ℕ
array_size cap = cap * 56 % 2 ^ 32

abbrev pub ErrorCmd : Type 0 → Type 0
ErrorCmd A = Cmd ⊥ ErrorArray A

module _ (room : ℕ → Bool) (text : ErrText) where
  -- buf[len] = info: past the array's end is a fault.
  abbrev pub put_info : Ptr → ErrorInfo → ErrorCmd (Unit {0})
  put_info buf i = do
    a ← load_struct buf
    if ltb (length a.infos) a.room_for
        then store_struct buf (record { room_for = a.room_for; infos = a.infos ++ i ∷ [] })
        else (λ w. fault)

  -- realloc of the array: the entries at another address, where there is room for the new size.
  abbrev pub grow : Ptr → ℕ → ErrorCmd Ptr
  grow buf cap =
      if room (array_size cap)
      then (do
        a ← load_struct buf
        p ←
            xmalloc_struct room (array_size cap)
              (record { room_for = array_size cap / 56; infos = a.infos })
        free buf
        pure p)
      else (λ w. abort)

  -- The array with room for one more entry, and its capacity.
  abbrev pub grown : Ptr → ℕ → ℕ → ErrorCmd (Ptr × ℕ)
  grown buf cap len =
      if len == cap then (do p ← grow buf (cap * 2); pure (p, cap * 2)) else pure (buf, cap)

  -- The loop of drain_errors, on fuel.
  unfoldable pub drain_loop : ℕ → Ptr → ℕ → ℕ → ErrorCmd (Ptr × ℕ)
  drain_loop zero buf cap len = λ w. fault
  drain_loop (suc fuel) buf cap len =
      let rest = drain_loop fuel in
      do
        got ← get_error
        elim got [
          | none ↦ pure (buf, len)
          | some e ↦ if e.code == 0 then pure (buf, len) else (do
            (buf', cap') ← grown buf cap len
            i ← describe_entry room text e
            put_info buf' i
            rest buf' cap' (len + 1))
        ]

  -- exports_openssl_component_error_drain_errors. Each step takes an entry off the queue, so one
  -- step more than it has entries is fuel enough.
  unfoldable pub drain_errors : ErrorCmd (Ptr × ℕ)
  unfolding drain_loop
  drain_errors w =
      (do
        buf ← xmalloc_struct room (array_size 8) (record { room_for = 8; infos = [] })
        drain_loop (suc (length w.errs)) buf 8 0)
        w
