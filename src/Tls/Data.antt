-- ===== src/Tls/Data.antt =====
-- The reads, writes and shutdowns of src/tls.c on an SSL, which its four resources share.
use openssl_wasm.Common.{
  ℕ, ◌%◌, ◌^◌, ◌==◌, ltb, ◌||◌, Bool, if◌then◌else◌, some, List, [], ◌∷◌, length,
}
use openssl_wasm.Memory.{
  Queue, Ptr, null, Result, ok, err, Buffer, ◌>>=◌, ◌>>◌, pure, free, xmalloc, write_at,
  at_least_one, set_errs,
}
use openssl_wasm.Tls.Openssl.{
  ErrorTag, handshake_failed, io_closed, would_block, internal_error, TlsError, ℤ, is_negative,
  is_positive, to_unsigned, to_int, Openssl, TlsCmd,
}
use openssl_wasm.Tls.Ssl.{call_ssl, call_bio, load_bio, get_error}

-- SSL_ERROR_WANT_READ, SSL_ERROR_WANT_WRITE and SSL_ERROR_ZERO_RETURN
abbrev pub wants : ℕ → Bool
wants e = e == 2 || e == 3

abbrev pub zero_return : ℕ → Bool
zero_return e = e == 6

-- An error with SSL_get_error's value.
abbrev pub with_code : ErrorTag → ℕ → TlsError
with_code t e = record { tag = t; internal = some e }

-- The errors of client_write and server_write.
abbrev pub socket_write_error : ℕ → TlsError
socket_write_error e = with_code (if zero_return e then io_closed else internal_error) e

-- Those of client_read and server_read.
abbrev pub socket_read_error : ℕ → TlsError
socket_read_error e = with_code internal_error e

-- Those of the memory BIO resources' read.
abbrev pub bio_read_error : ℕ → TlsError
bio_read_error e =
    with_code (if wants e then would_block else if zero_return e then io_closed else internal_error)
      e

-- Those of their write and shutdown.
abbrev pub bio_write_error : ℕ → TlsError
bio_write_error e = with_code (if wants e then would_block else internal_error) e

-- Those of their do_handshake.
abbrev pub handshake_error : ℕ → TlsError
handshake_error e = with_code (if wants e then would_block else handshake_failed) e

-- The error queue after the loop that takes entries until ERR_get_error gives 0.
abbrev pub printed : Queue → Queue
printed [] = []
printed (e ∷ q) = if e.code == 0 then q else printed q

abbrev pub print_errors : {lib : Openssl} → TlsCmd lib (Unit {0})
print_errors w = set_errs (printed w.errs) w

module _ (room : ℕ → Bool) {lib : Openssl} where
  -- SSL_write: the number of bytes, or the error.
  unfoldable pub ssl_write : (ℕ → TlsError) → Ptr → List ℕ → TlsCmd lib (Result TlsError ℕ)
  ssl_write fail s bytes = do
    n ← call_ssl room s (lib.write bytes (to_int (length bytes)))
    if is_positive n then pure (ok (to_unsigned n)) else do e ← get_error s n; pure (err (fail e))

  -- A new buffer, and SSL_read into it: its result.
  abbrev pub read_into : Ptr → ℕ → TlsCmd lib (Ptr × ℤ)
  read_into s max_bytes = do
    p ← xmalloc room (at_least_one max_bytes)
    (n, bytes) ← call_ssl room s (lib.read (to_int max_bytes))
    write_at p 0 bytes
    pure (p, n)

  -- The read of a socket: client_read and server_read.
  unfoldable pub socket_read : Ptr → ℕ → TlsCmd lib (Result TlsError Buffer)
  socket_read s max_bytes = do
    (p, n) ← read_into s max_bytes
    if is_negative n
        then (do free p; e ← get_error s n; pure (err (socket_read_error e)))
        else pure (ok (record { ptr = p; len = to_unsigned n }))

  -- The read of the memory BIO resources.
  unfoldable pub bio_ssl_read : Ptr → ℕ → TlsCmd lib (Result TlsError Buffer)
  bio_ssl_read s max_bytes = do
    (p, n) ← read_into s max_bytes
    if is_negative n
        then (do e ← get_error s n; free p; pure (err (bio_read_error e)))
        else pure (ok (record { ptr = p; len = to_unsigned n }))

  -- The write of the memory BIO resources, which does not ask OpenSSL to write nothing.
  unfoldable pub bio_ssl_write : Ptr → List ℕ → TlsCmd lib (Result TlsError ℕ)
  unfolding ssl_write
  bio_ssl_write s bytes =
      if length bytes == 0 then pure (ok 0) else ssl_write bio_write_error s bytes

  -- Their shutdown.
  unfoldable pub bio_ssl_shutdown : Ptr → TlsCmd lib (Result TlsError (Unit {0}))
  bio_ssl_shutdown s = do
    rc ← call_ssl room s lib.shutdown
    if is_negative rc then (do e ← get_error s rc; pure (err (bio_write_error e))) else pure (ok tt)

  -- Their do_handshake but for handshake_done: the error queue is printed, and is empty then.
  unfoldable pub run_handshake : Ptr → TlsCmd lib (Result TlsError (Unit {0}))
  run_handshake s = do
    rc ← call_ssl room s lib.do_handshake
    if to_unsigned rc == 1 then pure (ok tt) else (do
      e ← get_error s rc
      if wants e
          then pure (err (handshake_error e))
          else (do print_errors; pure (err (handshake_error e))))

  -- Their bio_write into the BIO that OpenSSL reads.
  unfoldable pub feed_bio : Ptr → List ℕ → TlsCmd lib ℕ
  feed_bio b bytes = if length bytes == 0 then pure 0 else (do
    n ← call_bio b (lib.bio_write bytes (to_int (length bytes)))
    pure (if is_negative n then 0 else to_unsigned n))

  -- Their bio_read from the BIO that OpenSSL writes.
  unfoldable pub take_bio : Ptr → ℕ → TlsCmd lib Buffer
  take_bio b max = do
    o ← load_bio b
    let pending = lib.bio_pending o
    let size = if ltb pending max then pending else max
    if size == 0 then pure (record { ptr = null; len = 0 }) else (do
      p ← xmalloc room size
      (n, bytes) ← call_bio b (lib.bio_read (to_int size))
      write_at p 0 bytes
      pure (record { ptr = p; len = if is_negative n then 0 else to_unsigned n }))

  -- Their bio_pending.
  unfoldable pub pending_bio : Ptr → TlsCmd lib ℕ
  pending_bio b = do o ← load_bio b; pure (lib.bio_pending o % 2 ^ 32)
