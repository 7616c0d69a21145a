-- ===== src/Tls/Structs.antt =====
-- The structs that src/tls.c allocates.
use openssl_wasm.Common.{ℕ, Bool, Option, none, some, List}
use openssl_wasm.Memory.{Ptr, Buffer}

-- keylog_buf. It lies inside its holder.
pub record KeylogBuf : Type 0 where
  pub lines : Ptr
  pub len : ℕ
  pub cap : ℕ

-- client_rep. A file descriptor is the address of a cell that stands for the open socket, and NULL
-- for -1.
pub record ClientRep : Type 0 where
  pub ctx : Ptr
  pub ssl : Ptr
  pub fd : Ptr
  pub keylog : KeylogBuf

-- server_rep
pub record ServerRep : Type 0 where
  pub ssl : Ptr
  pub fd : Ptr
  pub keylog : KeylogBuf

-- server_listener_rep
pub record ListenerRep : Type 0 where
  pub ctx : Ptr
  pub fd : Ptr
  pub alpn_wire : Ptr
  pub alpn_wire_len : ℕ
  pub keylog_enabled : Bool

-- mem_bio_client_rep
pub record MemBioClientRep : Type 0 where
  pub ctx : Ptr
  pub ssl : Ptr
  pub in_bio : Ptr
  pub out_bio : Ptr
  pub handshake_done : Bool
  pub keylog : KeylogBuf

-- mem_bio_server_rep
pub record MemBioServerRep : Type 0 where
  pub ctx : Ptr
  pub ssl : Ptr
  pub in_bio : Ptr
  pub out_bio : Ptr
  pub handshake_done : Bool
  pub keylog : KeylogBuf
  pub alpn_wire : Ptr
  pub alpn_wire_len : ℕ

-- What the code allocates besides bytes: the structs, and arrays of char pointers and of strings,
-- each with its room in elements and the elements written so far.
pub data TlsStruct : Type 0 where
  pointers : ℕ → List Ptr → TlsStruct
  strings : ℕ → List Buffer → TlsStruct
  keylog_buf : KeylogBuf → TlsStruct
  client : ClientRep → TlsStruct
  server : ServerRep → TlsStruct
  listener : ListenerRep → TlsStruct
  mem_bio_client : MemBioClientRep → TlsStruct
  mem_bio_server : MemBioServerRep → TlsStruct

-- The key log buffer that a struct is or holds.
abbrev pub keylog_in : TlsStruct → Option KeylogBuf
keylog_in (keylog_buf b) = some b
keylog_in (client r) = some r.keylog
keylog_in (server r) = some r.keylog
keylog_in (mem_bio_client r) = some r.keylog
keylog_in (mem_bio_server r) = some r.keylog
keylog_in _ = none

abbrev pub with_keylog : KeylogBuf → TlsStruct → TlsStruct
with_keylog b (keylog_buf old) = keylog_buf b
with_keylog b (client r) = client (record r { keylog = b })
with_keylog b (server r) = server (record r { keylog = b })
with_keylog b (mem_bio_client r) = mem_bio_client (record r { keylog = b })
with_keylog b (mem_bio_server r) = mem_bio_server (record r { keylog = b })
with_keylog b r = r
