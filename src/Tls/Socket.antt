-- ===== src/Tls/Socket.antt =====
-- connect_tcp and bind_tcp of src/tls.c. A file descriptor is the address of a cell that stands for
-- the open socket, and NULL for -1.
use openssl_wasm.Common.{ℕ, ◌==◌, ◌||◌, Bool, false, if◌then◌else◌, none, some, List, [], ◌∷◌}
use openssl_wasm.Memory.{Ptr, null, Result, ok, err, ◌>>=◌, ◌>>◌, pure, new_object, free_object}
use openssl_wasm.Tls.Openssl.{
  ℤ, is_negative, is_positive, Attempt, no_socket, refused, connected, Openssl, socket, addresses,
  TlsCmd,
}
use openssl_wasm.Tls.Ssl.{load_ssl}

module _ {lib : Openssl} where
  -- The loops of connect_tcp and bind_tcp: the socket of the first address that `attempt` is
  -- connected at. One that is refused is closed.
  abbrev pub try_all : (lib.Addr → Attempt) → List lib.Addr → TlsCmd lib Ptr
  try_all attempt [] = pure null
  try_all attempt (a ∷ rest) = elim (attempt a) [
    | no_socket ↦ try_all attempt rest
    | refused ↦ (do fd ← new_object (some socket); free_object fd; try_all attempt rest)
    | connected ↦ new_object (some socket)
  ]

  -- The code that the two share: the socket, or errno.
  abbrev pub open_socket : (lib.Addr → Attempt) → List ℕ → ℕ → TlsCmd lib (Result ℕ Ptr)
  open_socket attempt host port = elim (lib.resolve host port) [
    | none ↦ pure (err lib.errno)
    | some found ↦ (do
      res ← new_object (some addresses)
      fd ← try_all attempt found
      free_object res
      pure (if fd == null then err lib.errno else ok fd))
  ]

  -- connect_tcp
  unfoldable pub connect_tcp : List ℕ → ℕ → TlsCmd lib (Result ℕ Ptr)
  connect_tcp = open_socket lib.try_connect

  -- bind_tcp
  unfoldable pub bind_tcp : List ℕ → ℕ → TlsCmd lib (Result ℕ Ptr)
  bind_tcp = open_socket lib.try_bind

  -- close of a file descriptor that may be -1.
  abbrev pub close_fd : Ptr → TlsCmd lib (Unit {0})
  close_fd fd = free_object fd

  -- The socket_readable of client and server, on the SSL: poll for a millisecond.
  unfoldable pub socket_readable : Ptr → TlsCmd lib Bool
  socket_readable p = do
    s ← load_ssl p
    let fd = lib.get_fd s.state
    let (n, seen) = lib.poll fd
    if is_negative fd
        then pure false
        else if is_positive n
        then pure (seen.pollin || seen.pollhup || seen.pollerr)
        else pure false

  -- Their socket_fd.
  unfoldable pub socket_fd : Ptr → TlsCmd lib ℤ
  socket_fd p = do s ← load_ssl p; pure (lib.get_fd s.state)
