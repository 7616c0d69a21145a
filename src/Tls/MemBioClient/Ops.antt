-- ===== src/Tls/MemBioClient/Ops.antt =====
-- The operations of the mem-bio-client resource of src/tls.c, in any order.
use openssl_wasm.Common.{
  ℕ, ◌==◌, ◌≡◌, ◌∙◌, refl, Bool, true, ◌||◌, inl, inr, Bool-cases, some, List, arith,
}
use openssl_wasm.Memory.{Ptr, struct, World, done, update, and_then, ◌>>=◌, pure}
use openssl_wasm.Tls.Structs.{MemBioClientRep, TlsStruct, mem_bio_client}
use openssl_wasm.Tls.Openssl.{Openssl, TlsObject, TlsCmd, to_unsigned}
use openssl_wasm.Tls.Data.{run_handshake, bio_ssl_shutdown, bio_ssl_write, feed_bio}
use openssl_wasm.Tls.Pipe.{
  Pipe, run_pipe, handshake_pipe, shutdown_pipe, write_pipe, feed_pipe, Op, do_handshake, shutdown,
  write, feed, Outcome, shook, shut, any_shook, wrote, fed, op_pipe, ops_pipe, mapped,
}
use openssl_wasm.Tls.Pipe.Calls.{
  mapped-Called, handshake-Called, shutdown-Called, write-Called, feed-Called,
}
use openssl_wasm.Tls.Pipe.Resource.{
  Resource, IsAt, Acts, kept-Acts, stored-Acts, run_all, all-Acts, ops_finish,
}
use openssl_wasm.Tls.MemBioClient.Methods.{
  mem_bio_client_do_handshake, mem_bio_client_handshake_done, mem_bio_client_shutdown,
  mem_bio_client_write, mem_bio_client_bio_write,
}

abbrev pub client_resource : Resource
client_resource = record {
  Rep = MemBioClientRep;
  to_struct = mem_bio_client;
  ssl_of = λ r. r.ssl;
  in_of = λ r. r.in_bio;
  out_of = λ r. r.out_bio;
  done_of = λ r. r.handshake_done;
}

module _ {lib : Openssl} (room : ℕ → Bool) where
  -- An operation of the resource, on a handle.
  abbrev pub run_client : Op → Ptr → TlsCmd lib Outcome
  run_client do_handshake p = do v ← mem_bio_client_do_handshake room p; pure (shook v)
  run_client shutdown p = do v ← mem_bio_client_shutdown room p; pure (shut v)
  run_client (write bytes) p = do v ← mem_bio_client_write room p bytes; pure (wrote v)
  run_client (feed bytes) p = do n ← mem_bio_client_bio_write room p bytes; pure (fed n)

  op-Acts :
      (op : Op) (w : World (TlsObject lib) TlsStruct) (p : Ptr) (rep : MemBioClientRep)
      (a : Pipe lib)
      → IsAt client_resource w p rep a
      → Acts client_resource w (run_client op p w) p rep (op_pipe op a w.errs)
  unfolding mem_bio_client_do_handshake mem_bio_client_shutdown mem_bio_client_write
      mem_bio_client_bio_write
  op-Acts do_handshake w p rep a h =
      let r = handshake_pipe a w.errs in
      let b = handshake-Called room w rep.ssl rep.in_bio rep.out_bio a h.wired in
      let c = mapped-Called room shook w _ rep.ssl rep.in_bio rep.out_bio r b in
      let rc = (run_pipe lib.do_handshake a w.errs).0.0 in
      let p_kept : b.after.cell p ≡ some (struct (mem_bio_client rep)) =
        b.others p (ground (arith, h.held, h.wired.ssl_held))
          (ground (arith, h.held, h.wired.in_held)) (ground (arith, h.held, h.wired.out_held))
        ∙ h.held in
      elim (Bool-cases (to_unsigned rc == 1)) [
        | inl good ↦
            let done_rep : MemBioClientRep = record rep { handshake_done = true } in
            let stored =
              stored-Acts client_resource w _ p rep done_rep a (mapped shook r) h c refl refl refl
                (ground (arith, good)) in
            let runs : run_client do_handshake p w
                ≡ done (shook r.0.0) (record (c.after) {
                  cell = update c.after.cell p (some (struct (mem_bio_client done_rep)));
                }) =
              ground (arith, h.held, b.runs, p_kept, good, b.errs) in
            rw runs stored
        | inr bad ↦
            let runs : run_client do_handshake p w
                ≡ and_then (run_handshake room rep.ssl w) (λ v. pure (shook v)) =
              ground (arith, h.held, b.runs, bad) in
            rw runs
              (kept-Acts client_resource w _ p rep a (mapped shook r) h c (ground (arith, bad)))
      ]
  op-Acts shutdown w p rep a h =
      let r = shutdown_pipe a w.errs in
      let c =
        mapped-Called room shut w _ rep.ssl rep.in_bio rep.out_bio r
          (shutdown-Called room w rep.ssl rep.in_bio rep.out_bio a h.wired) in
      let runs : run_client shutdown p w
          ≡ and_then (bio_ssl_shutdown room rep.ssl w) (λ v. pure (shut v)) =
        ground (arith, h.held) in
      rw runs (kept-Acts client_resource w _ p rep a (mapped shut r) h c (ground arith))
  op-Acts (write bytes) w p rep a h =
      let r = write_pipe bytes a w.errs in
      let c =
        mapped-Called room wrote w _ rep.ssl rep.in_bio rep.out_bio r
          (write-Called room bytes w rep.ssl rep.in_bio rep.out_bio a h.wired) in
      let runs : run_client (write bytes) p w
          ≡ and_then (bio_ssl_write room rep.ssl bytes w) (λ v. pure (wrote v)) =
        ground (arith, h.held) in
      rw runs (kept-Acts client_resource w _ p rep a (mapped wrote r) h c (ground arith))
  op-Acts (feed bytes) w p rep a h =
      let r = feed_pipe bytes a w.errs in
      let c =
        mapped-Called room fed w _ rep.ssl rep.in_bio rep.out_bio r
          (feed-Called room bytes w rep.ssl rep.in_bio rep.out_bio a h.wired) in
      let runs : run_client (feed bytes) p w
          ≡ and_then (feed_bio room rep.in_bio bytes w) (λ n. pure (fed n)) =
        ground (arith, h.held) in
      rw runs (kept-Acts client_resource w _ p rep a (mapped fed r) h c (ground arith))

  -- Any sequence of do_handshake, write, bio_write and shutdown on a mem-bio-client does what the
  -- same sequence does of its SSL and its two BIOs alone: the results are those, every call returns,
  -- the handle stays good for the next one, and but for the struct, the SSL and the BIOs, whose
  -- addresses stay, the memory is as before. This holds for a client without a key log buffer.
  pub mem_bio_client-Acts :
      (ops : List Op) (w : World (TlsObject lib) TlsStruct) (p : Ptr) (rep : MemBioClientRep)
      (a : Pipe lib)
      → IsAt client_resource w p rep a
      → Acts client_resource w
          (run_all client_resource run_client ops p w)
          p
          rep
          (ops_pipe ops a w.errs)
  mem_bio_client-Acts ops w p rep a h = all-Acts client_resource run_client op-Acts ops w p rep a h

  -- The operations, and handshake_done after them.
  abbrev pub run_client_then_ask : List Op → Ptr → TlsCmd lib (List Outcome × Bool)
  run_client_then_ask ops p = do
    vs ← run_all client_resource run_client ops p
    asked ← mem_bio_client_handshake_done room p
    pure (vs, asked)

  -- After any sequence of do_handshake, write, bio_write and shutdown on a mem-bio-client,
  -- handshake_done is true exactly if it was true before or a do_handshake of the sequence has
  -- succeeded, and asking for it changes nothing. This holds for a client without a key log buffer.
  pub mem_bio_client_handshake_done_lem :
      (ops : List Op) (w : World (TlsObject lib) TlsStruct) (p : Ptr) (rep : MemBioClientRep)
      (a : Pipe lib)
      → IsAt client_resource w p rep a
      → let r = ops_pipe ops a w.errs in
        Acts client_resource w
          (run_client_then_ask ops p w)
          p
          rep
          (((r.0.0, rep.handshake_done || any_shook r.0.0), r.0.1), r.1)
  unfolding mem_bio_client_handshake_done
  mem_bio_client_handshake_done_lem ops w p rep a h =
      let t = mem_bio_client-Acts ops w p rep a h in
      record {
        after = t.after;
        new = t.new;
        runs =
            ground (arith, t.runs, t.at.held, t.at.finished, h.finished, ops_finish ops a w.errs);
        at = t.at;
        same_ssl = t.same_ssl;
        same_in = t.same_in;
        same_out = t.same_out;
        others = t.others;
        errs = t.errs;
      }
