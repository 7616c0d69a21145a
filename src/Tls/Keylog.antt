-- ===== src/Tls/Keylog.antt =====
-- The key log buffer of src/tls.c. A function that changes a keylog_buf returns the new one.
pub mod Held
pub mod Append
pub mod Drained
pub mod Step
pub mod Drain
pub mod Clear
pub mod Frame
use openssl_wasm.Common.{
  ℕ, zero, suc, ◌+◌, ◌*◌, ◌/◌, ◌%◌, ◌^◌, Bool, ◌&&◌, ltb, ◌==◌, if◌then◌else◌, Option, none, some,
  List, [], ◌∷◌, ◌++◌, length, get_elem?,
}
use openssl_wasm.Memory.{
  Cmd, Ptr, null, Buffer, fault, ◌>>=◌, ◌>>◌, pure, xmalloc, xmalloc_struct, free, load_struct,
  store_struct, write_at, read_bytes, string_take,
}
use openssl_wasm.Tls.CString.{c_string, copy_c_string}
use openssl_wasm.Tls.Structs.{
  KeylogBuf, ClientRep, ServerRep, ListenerRep, MemBioClientRep, MemBioServerRep, TlsStruct,
  pointers, strings, keylog_buf, client, server, listener, mem_bio_client, mem_bio_server,
}

-- keylog_buf_init
unfoldable pub keylog_buf_init : KeylogBuf
keylog_buf_init = record { lines = null; len = 0; cap = 0 }

abbrev pub pointers_in : TlsStruct → Option (ℕ × List Ptr)
pointers_in (pointers n ps) = some (n, ps)
pointers_in _ = none

abbrev pub strings_in : TlsStruct → Option (ℕ × List Buffer)
strings_in (strings n bs) = some (n, bs)
strings_in _ = none

module _ {O : Type 0} where
  -- The array of char pointers at an address.
  abbrev pub load_pointers : Ptr → Cmd O TlsStruct (ℕ × List Ptr)
  load_pointers p = do
    r ← load_struct p
    elim (pointers_in r) [ none ↦ λ w. fault | some a ↦ pure a ]

  -- b->lines[k]: past the pointers written so far is a fault.
  abbrev pub line_at : Ptr → ℕ → Cmd O TlsStruct Ptr
  line_at p k = do
    (n, ps) ← load_pointers p
    elim (get_elem? ps k) [ none ↦ λ w. fault | some q ↦ pure q ]

  -- b->lines[k] = q, which the code does at the first free place only.
  abbrev pub put_pointer : Ptr → ℕ → Ptr → Cmd O TlsStruct (Unit {0})
  put_pointer p k q = do
    (n, ps) ← load_pointers p
    if k == length ps && ltb k n then store_struct p (pointers n (ps ++ q ∷ [])) else (λ w. fault)

  -- string_take(&out->ptr[k], ...), which the code does at the first free place only.
  abbrev pub put_string : Ptr → ℕ → Buffer → Cmd O TlsStruct (Unit {0})
  put_string p k s = do
    r ← load_struct p
    elim (strings_in r) [
      | none ↦ λ w. fault
      | some (n, ss) ↦
          if k == length ss && ltb k n
          then store_struct p (strings n (ss ++ s ∷ []))
          else (λ w. fault)
    ]

  -- The loop of keylog_buf_clear, with `left` lines to go from `i` on.
  pub clear_loop : ℕ → Ptr → ℕ → Cmd O TlsStruct (Unit {0})
  clear_loop zero p i = pure tt
  clear_loop (suc left) p i = do q ← line_at p i; free q; clear_loop left p (i + 1)

  -- keylog_buf_clear
  unfoldable pub keylog_buf_clear : KeylogBuf → Cmd O TlsStruct KeylogBuf
  unfolding clear_loop keylog_buf_init
  keylog_buf_clear b = do clear_loop b.len b.lines 0; free b.lines; pure keylog_buf_init

module _ {O : Type 0} (room : ℕ → Bool) where
  -- realloc of the pointers to `nc` of them, of 4 bytes each: NULL leaves the old array, and the
  -- buffer, as they are. A size that wraps at 2^32 leaves less room.
  abbrev pub grow : KeylogBuf → ℕ → Cmd O TlsStruct (Option KeylogBuf)
  grow b nc =
      let size = nc * 4 % 2 ^ 32 in
      if room size
      then if b.lines == null
        then (do
          p ← xmalloc_struct room size (pointers (size / 4) [])
          pure (some (record { lines = p; len = b.len; cap = nc })))
        else (do
          (n, ps) ← load_pointers b.lines
          p ← xmalloc_struct room size (pointers (size / 4) ps)
          free b.lines
          pure (some (record { lines = p; len = b.len; cap = nc })))
      else pure none

  -- The buffer with room for one more line, if there is memory for it.
  abbrev pub grown : KeylogBuf → Cmd O TlsStruct (Option KeylogBuf)
  grown b = if b.len == b.cap then grow b (if b.cap == 0 then 16 else b.cap * 2) else pure (some b)

  -- keylog_buf_append of a line that is not NULL. A line that there is no room for is dropped.
  unfoldable pub keylog_buf_append : KeylogBuf → List ℕ → Cmd O TlsStruct KeylogBuf
  keylog_buf_append b line = do
    made ← grown b
    elim made [
      | none ↦ pure b
      | some b' ↦ (do
        copy ← copy_c_string room line
        put_pointer b'.lines b'.len copy
        pure (record { lines = b'.lines; len = b'.len + 1; cap = b'.cap }))
    ]

  -- The loop of keylog_buf_drain_to, with `left` lines to go from `i` on.
  pub drain_loop : ℕ → Ptr → Ptr → ℕ → Cmd O TlsStruct (Unit {0})
  drain_loop zero out p i = pure tt
  drain_loop (suc left) out p i = do
    q ← line_at p i
    bs ← read_bytes q
    elim (c_string bs) [
      | none ↦ λ w. fault
      | some s ↦ (do
        t ← string_take room s
        put_string out i t
        free q
        drain_loop left out p (i + 1))
    ]

  -- keylog_buf_drain_to: `out->ptr` and `out->len`, and the buffer after it. A string takes 8 bytes.
  unfoldable pub keylog_buf_drain_to : KeylogBuf → Cmd O TlsStruct ((Ptr × ℕ) × KeylogBuf)
  unfolding drain_loop keylog_buf_init
  keylog_buf_drain_to b = do
    let size : ℕ = if ltb 0 b.len then b.len * 8 % 2 ^ 32 else 8
    out ← xmalloc_struct room size (strings (size / 8) [])
    drain_loop b.len out b.lines 0
    free b.lines
    pure ((out, b.len), keylog_buf_init)
