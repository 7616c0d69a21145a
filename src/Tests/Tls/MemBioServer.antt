-- ===== src/Tests/Tls/MemBioServer.antt =====
-- The mem-bio-server resource with the toy SSL.
use openssl_wasm.Common.{◌≡◌, refl, true, false, none, some, [], ◌∷◌, arith}
use openssl_wasm.Memory.{err, World, struct, object, update}
use openssl_wasm.Memory.Contract.{IsFresh, Returns}
use openssl_wasm.Tls.Structs.{MemBioServerRep, TlsStruct, mem_bio_server}
use openssl_wasm.Tls.Openssl.{would_block, TlsObject, ssl, ssl_ctx, bio}
use openssl_wasm.Tls.Keylog.{keylog_buf_init}
use openssl_wasm.Tls.Keylog.Append.{init-IsHolding}
use openssl_wasm.Tls.Keylog.Frame.{without}
use openssl_wasm.Tls.Pipe.Read.{Reads}
use openssl_wasm.Tls.Pipe.{ops_pipe}
use openssl_wasm.Tls.Pipe.Resource.{IsAt, Acts, run_all}
use openssl_wasm.Tls.Pipe.Pump.{Pumps, concat, pump}
use openssl_wasm.Tls.MemBioServer.{mem_bio_server_close}
use openssl_wasm.Tls.MemBioServer.Methods.{mem_bio_server_bio_read, mem_bio_server_read}
use openssl_wasm.Tls.MemBioServer.Ops.{
  server_resource, run_server, run_server_then_ask, mem_bio_server-Acts,
  mem_bio_server_handshake_done_lem,
}
use openssl_wasm.Tls.MemBioServer.Reads.{mem_bio_server_bio_read_drains, mem_bio_server_read_lem}
use openssl_wasm.Tls.MemBioServer.Close.{server_owned, mem_bio_server_close_lem}
use openssl_wasm.Tests.World.{enough_room}
use openssl_wasm.Tests.Tls.MemBio.{
  toy, toy-IsMemBio, toy-ReadsWithin, new_pipe, two_rounds, done_rounds,
}

-- A mem-bio-server at 1, with its SSL at 2, the BIOs at 3 and 4, and its SSL_CTX at 5.
abbrev server_rep : MemBioServerRep
server_rep = record {
  ctx = 5;
  ssl = 2;
  in_bio = 3;
  out_bio = 4;
  handshake_done = false;
  keylog = keylog_buf_init;
  alpn_wire = 0;
  alpn_wire_len = 0;
}

abbrev server_world : World (TlsObject toy) TlsStruct
server_world = record {
  next = 5;
  cell =
      update
        (update
          (update
            (update (update (λ x. none) 5 (some (object (ssl_ctx 7)))) 4
              (some (object (bio (1 ∷ 2 ∷ 3 ∷ [])))))
            3 (some (object (bio []))))
          2 (some (object (ssl (record { state = 0; ex_data = 0; rbio = 3; wbio = 4 })))))
        1 (some (struct (mem_bio_server server_rep)));
  errs = [];
}

server_world-IsFresh : IsFresh server_world
server_world-IsFresh = record { unused = λ x h. ground arith; null_free = refl }

server_world-IsAt : IsAt server_resource server_world 1 server_rep new_pipe
server_world-IsAt = record {
  held = refl;
  wired = record {
    fresh = server_world-IsFresh;
    ssl_held = refl;
    in_held = refl;
    out_held = refl;
    apart = refl;
  };
  finished = refl;
}

mem_bio_server-Acts_example :
    Acts server_resource server_world
      (run_all server_resource (run_server enough_room) two_rounds 1 server_world)
      1
      server_rep
      (ops_pipe two_rounds new_pipe [])
mem_bio_server-Acts_example =
    mem_bio_server-Acts enough_room two_rounds server_world 1 server_rep new_pipe server_world-IsAt

mem_bio_server_handshake_done_lem_example :
    Acts server_resource server_world
      (run_server_then_ask enough_room two_rounds 1 server_world)
      1
      server_rep
      (((done_rounds.0.0, true), done_rounds.0.1), [])
mem_bio_server_handshake_done_lem_example =
    mem_bio_server_handshake_done_lem enough_room two_rounds server_world 1 server_rep new_pipe
      server_world-IsAt

mem_bio_server_bio_read_drains_example :
    Pumps
      (λ b. b)
      server_world
      (pump 2 (mem_bio_server_bio_read enough_room 1 2) server_world)
      4
      ((1 ∷ 2 ∷ []) ∷ (3 ∷ []) ∷ [])
      []
    × (concat ((1 ∷ 2 ∷ []) ∷ (3 ∷ []) ∷ []) ≡ 1 ∷ 2 ∷ 3 ∷ [])
mem_bio_server_bio_read_drains_example =
    mem_bio_server_bio_read_drains enough_room (λ k. refl) (λ b. b) toy-IsMemBio 2 2 server_world 1
      server_rep (1 ∷ 2 ∷ 3 ∷ []) server_world-IsFresh refl refl (omega arith) (omega arith)

mem_bio_server_close_lem_example :
    Returns
      (without (server_owned 1 server_rep) server_world.cell)
      (mem_bio_server_close enough_room 1 server_world)
      (tt, [])
mem_bio_server_close_lem_example =
    mem_bio_server_close_lem enough_room server_world.cell server_world 1 server_rep [] []
      (record {
        state = record { state = 0; ex_data = 0; rbio = 3; wbio = 4 };
        ctx = 7;
        input = [];
        output = 1 ∷ 2 ∷ 3 ∷ [];
        held = refl;
        ssl_held = refl;
        ctx_held = refl;
        in_held = refl;
        out_held = refl;
        wire = [];
        wire_held = λ h. absurd (ground (arith, h));
        apart = refl;
      })
      (init-IsHolding enough_room (λ n. refl) server_world.cell server_world server_world-IsFresh)

mem_bio_server_read_lem_example :
    Reads server_world
      (mem_bio_server_read enough_room 1 16 server_world)
      2
      3
      4
      16
      ((err (record { tag = would_block; internal = some 2 }), new_pipe), [])
mem_bio_server_read_lem_example =
    mem_bio_server_read_lem enough_room 16 server_world 1 server_rep new_pipe refl toy-ReadsWithin
      server_world-IsAt
