-- ===== src/Tests/Tls/MemBio.antt =====
-- A toy SSL: its state counts the calls of do_handshake, the first of which wants to read. A BIO is its bytes.
use mathlib.Core.Option
use openssl_wasm.Common.{
  ℕ, ◌+◌, ◌==◌, ◌≡◌, refl, true, false, none, some, List, [], ◌∷◌, ◌++◌, length, take, drop,
  if◌then◌else◌, arith,
}
use openssl_wasm.Memory.{err, Queue, World, struct, object, update}
use openssl_wasm.Memory.Contract.{IsFresh, Returns}
use openssl_wasm.Tls.Structs.{MemBioClientRep, TlsStruct, mem_bio_client}
use openssl_wasm.Tls.Openssl.{
  would_block, pos, negsuc, Endpoint, Openssl, TlsObject, ssl, ssl_ctx, bio, connected,
}
use openssl_wasm.Tls.Keylog.{keylog_buf_init}
use openssl_wasm.Tls.Keylog.Append.{init-IsHolding}
use openssl_wasm.Tls.Keylog.Frame.{without}
use openssl_wasm.Tls.Pipe.{Pipe, Op, Outcome, do_handshake, write, feed, ops_pipe}
use openssl_wasm.Tls.Pipe.Resource.{IsAt, Acts, run_all}
use openssl_wasm.Tls.Pipe.Read.{ReadsWithin, Reads}
use openssl_wasm.Tls.Pipe.Fifo.{IsMemBio}
use openssl_wasm.Tls.Pipe.Pump.{Pumps, concat, pump}
use openssl_wasm.Tls.MemBioClient.{mem_bio_client_close}
use openssl_wasm.Tls.MemBioClient.Methods.{mem_bio_client_bio_read, mem_bio_client_read}
use openssl_wasm.Tls.MemBioClient.Ops.{
  client_resource, run_client, run_client_then_ask, mem_bio_client-Acts,
  mem_bio_client_handshake_done_lem,
}
use openssl_wasm.Tls.MemBioClient.Reads.{mem_bio_client_bio_read_drains, mem_bio_client_read_lem}
use openssl_wasm.Tls.MemBioClient.Close.{client_owned, mem_bio_client_close_lem}
use openssl_wasm.Tests.World.{enough_room}

abbrev quiet : {A : Type 0} → A → Endpoint ℕ (List ℕ) → A × (Endpoint ℕ (List ℕ) × List (List ℕ))
quiet a e = (a, (e, []))

abbrev said : List ℕ → Endpoint ℕ (List ℕ) → Endpoint ℕ (List ℕ)
said bs e = record e { output = Option.map (λ old. old ++ bs) e.output }

abbrev pub toy : Openssl
toy = record {
  Ctx = ℕ;
  Ssl = ℕ;
  Bio = List ℕ;
  Store = ℕ;
  Cert = ℕ;
  Key = ℕ;
  Addr = ℕ;
  ctx_new = λ role q. (some 0, q);
  ctx_set = λ s c q. ((tt, c + 1), q);
  ssl_new = λ c q. (some 0, q);
  ssl_set = λ v s q. ((tt, s), q);
  connect = λ e q. (quiet (pos 1) e, q);
  accept = λ e q. (quiet (pos 1) e, q);
  do_handshake = λ e q. (
    quiet (if e.state == 0 then negsuc 0 else pos 1)
        (said (22 ∷ 3 ∷ []) (record e { state = e.state + 1 })),
    q,
  );
  shutdown = λ e q. (quiet (pos 0) (said (21 ∷ []) e), q);
  write = λ bs n e q. (quiet n (said bs e), q);
  read = λ n e q. (quiet (negsuc 0, []) e, q);
  write_early_data = λ bs e q. (quiet (pos 1, length bs) e, q);
  get_error = λ s rc q. (2, q);
  has_pending = λ s. false;
  early_data_accepted = λ s. false;
  ssl_version = λ s. 772;
  version_name = λ s. none;
  cipher_name = λ s. none;
  alpn_selected = λ s. none;
  servername = λ s. none;
  peer_cert_chain = λ s. [];
  peer_certificate = λ s. none;
  session_reused = λ s. false;
  group_name = λ s. none;
  session_der = λ s q. (none, q);
  i2d_x509 = λ c q. (none, q);
  bio_new = λ q. (some [], q);
  bio_write = λ bs n b q. ((n, b ++ bs), q);
  bio_read = λ n b q. elim n [
    | pos k ↦ (((pos k, take k b), drop k b), q)
    | negsuc k ↦ (((negsuc 0, []), b), q)
  ];
  bio_pending = λ b. length b;
  get_fd = λ s. negsuc 0;
  poll = λ fd. (pos 0, record { pollin = false; pollhup = false; pollerr = false });
  resolve = λ host port. none;
  try_connect = λ a. connected;
  try_bind = λ a. connected;
  accept_socket = λ fd. false;
  local_port = λ fd. none;
  errno = 0;
}

pub toy-IsMemBio : IsMemBio toy (λ b. b)
toy-IsMemBio = record {
  pending = λ b. refl;
  reads = λ n b q h1 h2 h3. refl;
  keeps = λ n b q h1 h2 h3. refl;
}

pub toy-ReadsWithin : ReadsWithin toy
toy-ReadsWithin max e q = omega arith

-- A new SSL with three bytes to send.
abbrev pub new_pipe : Pipe toy
new_pipe = record { state = 0; input = []; output = 1 ∷ 2 ∷ 3 ∷ []; finished = false }

-- A handshake of two rounds, and a write.
abbrev pub two_rounds : List Op
two_rounds = do_handshake ∷ feed (22 ∷ 3 ∷ []) ∷ do_handshake ∷ write (72 ∷ 105 ∷ []) ∷ []

abbrev pub done_rounds : (List Outcome × Pipe toy) × Queue
done_rounds = ops_pipe two_rounds new_pipe []

-- A mem-bio-client at 1, with its SSL at 2, the BIOs at 3 and 4, and its SSL_CTX at 5.
abbrev client_rep : MemBioClientRep
client_rep = record {
  ctx = 5;
  ssl = 2;
  in_bio = 3;
  out_bio = 4;
  handshake_done = false;
  keylog = keylog_buf_init;
}

abbrev client_world : World (TlsObject toy) TlsStruct
client_world = record {
  next = 5;
  cell =
      update
        (update
          (update
            (update (update (λ x. none) 5 (some (object (ssl_ctx 7)))) 4
              (some (object (bio (1 ∷ 2 ∷ 3 ∷ [])))))
            3 (some (object (bio []))))
          2 (some (object (ssl (record { state = 0; ex_data = 0; rbio = 3; wbio = 4 })))))
        1 (some (struct (mem_bio_client client_rep)));
  errs = [];
}

client_world-IsFresh : IsFresh client_world
client_world-IsFresh = record { unused = λ x h. ground arith; null_free = refl }

client_world-IsAt : IsAt client_resource client_world 1 client_rep new_pipe
client_world-IsAt = record {
  held = refl;
  wired = record {
    fresh = client_world-IsFresh;
    ssl_held = refl;
    in_held = refl;
    out_held = refl;
    apart = refl;
  };
  finished = refl;
}

mem_bio_client-Acts_example :
    Acts client_resource client_world
      (run_all client_resource (run_client enough_room) two_rounds 1 client_world)
      1
      client_rep
      (ops_pipe two_rounds new_pipe [])
mem_bio_client-Acts_example =
    mem_bio_client-Acts enough_room two_rounds client_world 1 client_rep new_pipe client_world-IsAt

mem_bio_client_handshake_done_lem_example :
    Acts client_resource client_world
      (run_client_then_ask enough_room two_rounds 1 client_world)
      1
      client_rep
      (((done_rounds.0.0, true), done_rounds.0.1), [])
mem_bio_client_handshake_done_lem_example =
    mem_bio_client_handshake_done_lem enough_room two_rounds client_world 1 client_rep new_pipe
      client_world-IsAt

mem_bio_client_bio_read_drains_example :
    Pumps
      (λ b. b)
      client_world
      (pump 2 (mem_bio_client_bio_read enough_room 1 2) client_world)
      4
      ((1 ∷ 2 ∷ []) ∷ (3 ∷ []) ∷ [])
      []
    × (concat ((1 ∷ 2 ∷ []) ∷ (3 ∷ []) ∷ []) ≡ 1 ∷ 2 ∷ 3 ∷ [])
mem_bio_client_bio_read_drains_example =
    mem_bio_client_bio_read_drains enough_room (λ k. refl) (λ b. b) toy-IsMemBio 2 2 client_world 1
      client_rep (1 ∷ 2 ∷ 3 ∷ []) client_world-IsFresh refl refl (omega arith) (omega arith)

mem_bio_client_close_lem_example :
    Returns
      (without (client_owned 1 client_rep) client_world.cell)
      (mem_bio_client_close enough_room 1 client_world)
      (tt, [])
mem_bio_client_close_lem_example =
    mem_bio_client_close_lem enough_room client_world.cell client_world 1 client_rep [] []
      (record {
        state = record { state = 0; ex_data = 0; rbio = 3; wbio = 4 };
        ctx = 7;
        input = [];
        output = 1 ∷ 2 ∷ 3 ∷ [];
        held = refl;
        ssl_held = refl;
        ctx_held = refl;
        in_held = refl;
        out_held = refl;
        apart = refl;
      })
      (init-IsHolding enough_room (λ n. refl) client_world.cell client_world client_world-IsFresh)

mem_bio_client_read_lem_example :
    Reads client_world
      (mem_bio_client_read enough_room 1 16 client_world)
      2
      3
      4
      16
      ((err (record { tag = would_block; internal = some 2 }), new_pipe), [])
mem_bio_client_read_lem_example =
    mem_bio_client_read_lem enough_room 16 client_world 1 client_rep new_pipe refl toy-ReadsWithin
      client_world-IsAt
