-- ===== src/Tls/Pipe.antt =====
-- What an SSL with two memory BIOs of src/tls.c is, apart from the memory: the mem-bio-client and
-- mem-bio-server resources without their pointers.
pub mod Wired
pub mod Calls
pub mod Resource
pub mod Read
pub mod Fifo
pub mod Pump
use openssl_wasm.Common.{
  ℕ, ◌%◌, ◌^◌, ◌==◌, ltb, ◌||◌, Bool, true, false, if◌then◌else◌, Option, none, some, List, [], ◌∷◌,
  length,
}
use openssl_wasm.Memory.{Queue, Result, ok, err}
use openssl_wasm.Tls.Openssl.{
  ErrorTag, handshake_failed, would_block, io_closed, internal_error, TlsError, ℤ, is_negative,
  is_positive, to_unsigned, to_int, Endpoint, Protocol, Openssl,
}
use openssl_wasm.Tls.Data.{printed}

-- The SSL, what it has still to read, what it has written, and whether its handshake is done.
pub record Pipe (lib : Openssl) : Type 0 where
  pub state : lib.Ssl
  pub input : lib.Bio
  pub output : lib.Bio
  pub finished : Bool

abbrev pub or_old : {A : Type 0} → A → Option A → A
or_old a none = a
or_old a (some b) = b

-- What a failed read is called: SSL_ERROR_WANT_READ is 2, SSL_ERROR_WANT_WRITE 3 and
-- SSL_ERROR_ZERO_RETURN 6.
abbrev pub read_tag : ℕ → ErrorTag
read_tag e =
    if e == 2
    then would_block
    else if e == 3
    then would_block
    else if e == 6
    then io_closed
    else internal_error

-- What a failed handshake and a failed write or shutdown are called.
abbrev pub handshake_tag : ℕ → ErrorTag
handshake_tag e = if e == 2 then would_block else if e == 3 then would_block else handshake_failed

abbrev pub write_tag : ℕ → ErrorTag
write_tag e = if e == 2 then would_block else if e == 3 then would_block else internal_error

-- An operation of the resources, and what it gives.
pub data Op : Type 0 where
  do_handshake shutdown : Op
  write feed : List ℕ → Op

pub data Outcome : Type 0 where
  shook shut : Result TlsError (Unit {0}) → Outcome
  wrote : Result TlsError ℕ → Outcome
  fed : ℕ → Outcome

-- A do_handshake that succeeded.
abbrev pub is_shook : Outcome → Bool
is_shook (shook (ok t)) = true
is_shook _ = false

abbrev pub any_shook : List Outcome → Bool
any_shook [] = false
any_shook (v ∷ vs) = is_shook v || any_shook vs

module _ {lib : Openssl} where
  -- A call that runs the protocol.
  abbrev pub run_pipe :
      {A : Type 0} → Protocol lib.Ssl lib.Bio A → Pipe lib → Queue → (A × Pipe lib) × Queue
  run_pipe f a q =
      let r = f (record { state = a.state; input = some a.input; output = some a.output }) q in
      let e = r.0.1.0 in
      (
        (
          r.0.0,
          record a {
            state = e.state;
            input = or_old a.input e.input;
            output = or_old a.output e.output;
          },
        ),
        r.1,
      )

  -- The handshake is finished when OpenSSL says 1; the error queue goes with a failure.
  abbrev pub handshake_pipe : Pipe lib → Queue → (Result TlsError (Unit {0}) × Pipe lib) × Queue
  handshake_pipe a q =
      let r = run_pipe lib.do_handshake a q in
      let g = lib.get_error r.0.1.state r.0.0 r.1 in
      if to_unsigned r.0.0 == 1
      then ((ok tt, record (r.0.1) { finished = true }), r.1)
      else if g.0 == 2 || g.0 == 3
      then ((err (record { tag = handshake_tag g.0; internal = some g.0 }), r.0.1), g.1)
      else ((err (record { tag = handshake_tag g.0; internal = some g.0 }), r.0.1), printed g.1)

  abbrev pub shutdown_pipe : Pipe lib → Queue → (Result TlsError (Unit {0}) × Pipe lib) × Queue
  shutdown_pipe a q =
      let r = run_pipe lib.shutdown a q in
      let g = lib.get_error r.0.1.state r.0.0 r.1 in
      if is_negative r.0.0
      then ((err (record { tag = write_tag g.0; internal = some g.0 }), r.0.1), g.1)
      else ((ok tt, r.0.1), r.1)

  -- Nothing is written for no bytes.
  abbrev pub write_pipe : List ℕ → Pipe lib → Queue → (Result TlsError ℕ × Pipe lib) × Queue
  write_pipe bytes a q =
      let r = run_pipe (lib.write bytes (to_int (length bytes))) a q in
      let g = lib.get_error r.0.1.state r.0.0 r.1 in
      if length bytes == 0
      then ((ok 0, a), q)
      else if is_positive r.0.0
      then ((ok (to_unsigned r.0.0), r.0.1), r.1)
      else ((err (record { tag = write_tag g.0; internal = some g.0 }), r.0.1), g.1)

  -- The bytes that OpenSSL wrote into the buffer, and their number.
  abbrev pub read_pipe : ℕ → Pipe lib → Queue → (Result TlsError (List ℕ × ℕ) × Pipe lib) × Queue
  read_pipe max_bytes a q =
      let r = run_pipe (lib.read (to_int max_bytes)) a q in
      let g = lib.get_error r.0.1.state r.0.0.0 r.1 in
      if is_negative r.0.0.0
      then ((err (record { tag = read_tag g.0; internal = some g.0 }), r.0.1), g.1)
      else ((ok (r.0.0.1, to_unsigned r.0.0.0), r.0.1), r.1)

  -- The number of bytes that the BIO that OpenSSL reads has taken.
  abbrev pub feed_pipe : List ℕ → Pipe lib → Queue → (ℕ × Pipe lib) × Queue
  feed_pipe bytes a q =
      let r = lib.bio_write bytes (to_int (length bytes)) a.input q in
      if length bytes == 0
      then ((0, a), q)
      else ((if is_negative r.0.0 then 0 else to_unsigned r.0.0, record a { input = r.0.1 }), r.1)

  abbrev pub mapped :
      {A : Type 0} → (A → Outcome) → (A × Pipe lib) × Queue → (Outcome × Pipe lib) × Queue
  mapped f r = ((f r.0.0, r.0.1), r.1)

  abbrev pub op_pipe : Op → Pipe lib → Queue → (Outcome × Pipe lib) × Queue
  op_pipe do_handshake a q = mapped shook (handshake_pipe a q)
  op_pipe shutdown a q = mapped shut (shutdown_pipe a q)
  op_pipe (write bytes) a q = mapped wrote (write_pipe bytes a q)
  op_pipe (feed bytes) a q = mapped fed (feed_pipe bytes a q)

  abbrev pub ops_pipe : List Op → Pipe lib → Queue → (List Outcome × Pipe lib) × Queue
  ops_pipe [] a q = (([], a), q)
  ops_pipe (op ∷ ops) a q =
      let r = op_pipe op a q in
      let rest = ops_pipe ops r.0.1 r.1 in ((r.0.0 ∷ rest.0.0, rest.0.1), rest.1)
