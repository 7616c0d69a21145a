-- ===== src/Tls/MemBioServer/Reads.antt =====
-- The reads of the mem-bio-server resource of src/tls.c: bio_read, one after the other, and read.
use mathlib.Core.Path.{subst}
use mathlib.Core.List.{append-nil}
use openssl_wasm.Common.{
  ℕ, ◌*◌, ◌^◌, ◌≤◌, ◌<◌, ◌≡◌, ◌∙◌, sym, ap, Bool, true, some, List, [], ◌++◌, length, arith,
}
use openssl_wasm.Memory.{at_least_one, Ptr, struct, object, World}
use openssl_wasm.Memory.Contract.{IsFresh}
use openssl_wasm.Tls.Structs.{MemBioServerRep, TlsStruct, mem_bio_server}
use openssl_wasm.Tls.Openssl.{Openssl, TlsObject, bio}
use openssl_wasm.Tls.Data.{bio_ssl_read}
use openssl_wasm.Tls.Pipe.{Pipe, read_pipe}
use openssl_wasm.Tls.Pipe.Read.{ReadsWithin, Reads, read-Reads}
use openssl_wasm.Tls.Pipe.Resource.{IsAt}
use openssl_wasm.Tls.MemBioServer.Ops.{server_resource}
use openssl_wasm.Tls.Pipe.Fifo.{IsMemBio}
use openssl_wasm.Tls.Pipe.Pump.{
  pieces, concat, concat-pieces, after_pieces_past, pump, Pumps, pump-Pumps,
}
use openssl_wasm.Tls.MemBioServer.Methods.{mem_bio_server_bio_read, mem_bio_server_read}

module _ {lib : Openssl} (room : ℕ → Bool) where
  -- Enough calls of bio_read on a mem-bio-server drain it: `n` calls of at most `max` bytes, with n * max at
  -- least the number of bytes in the BIO that OpenSSL writes, return these bytes in order, in pieces
  -- of `max`; each piece that has bytes is in a new buffer of its own, shared with no other piece, and
  -- an empty one is NULL. The BIO is left empty and whatever else was in memory is as it was. This
  -- holds where malloc does not fail, for fewer than 2^31 bytes in the BIO, and by what OpenSSL says
  -- of a memory BIO.
  pub mem_bio_server_bio_read_drains :
      (grants : (k : ℕ) → room k ≡ true) (bytes_of : lib.Bio → List ℕ)
      → IsMemBio lib bytes_of
      → (n max : ℕ) (w : World (TlsObject lib) TlsStruct) (p : Ptr) (rep : MemBioServerRep)
        (b : lib.Bio)
      → IsFresh w
      → w.cell p ≡ some (struct (mem_bio_server rep))
      → w.cell rep.out_bio ≡ some (object (bio b))
      → length (bytes_of b) < 2 ^ 31
      → length (bytes_of b) ≤ n * max
      → Pumps bytes_of w
          (pump n (mem_bio_server_bio_read room p max) w)
          rep.out_bio
          (pieces n max (bytes_of b))
          []
        × (concat (pieces n max (bytes_of b)) ≡ bytes_of b)
  unfolding mem_bio_server_bio_read
  mem_bio_server_bio_read_drains grants bytes_of mem_bio n max w p rep b fresh at held small
        enough =
      let none_left = after_pieces_past n max (bytes_of b) enough in
      (
        subst
            (Pumps bytes_of w (pump n (mem_bio_server_bio_read room p max) w) rep.out_bio
              (pieces n max (bytes_of b)))
            none_left
            (pump-Pumps room grants bytes_of mem_bio n max (mem_bio_server_bio_read room p max) p
              (mem_bio_server rep) rep.out_bio (λ v h. ground (arith, h)) w b fresh at held small),
        sym (append-nil (concat (pieces n max (bytes_of b))))
            ∙ ap (λ z. concat (pieces n max (bytes_of b)) ++ z) (sym none_left)
            ∙ concat-pieces n max (bytes_of b),
      )

  -- A read on a mem-bio-server returns the bytes that SSL_read gives in one new buffer, or its error with
  -- the buffer freed: would-block where SSL_get_error is 2 or 3, io-closed where it is 6, and internal
  -- for every other value. But for the SSL and its two BIOs, whose addresses stay, the memory is then as
  -- before. This holds for a server without a key log buffer, where malloc grants the buffer and
  -- SSL_read stays within it.
  pub mem_bio_server_read_lem :
      (max : ℕ) (w : World (TlsObject lib) TlsStruct) (p : Ptr) (rep : MemBioServerRep)
      (a : Pipe lib)
      → room (at_least_one max) ≡ true
      → ReadsWithin lib
      → IsAt server_resource w p rep a
      → Reads w
          (mem_bio_server_read room p max w)
          rep.ssl
          rep.in_bio
          rep.out_bio
          max
          (read_pipe max a w.errs)
  unfolding mem_bio_server_read
  mem_bio_server_read_lem max w p rep a grant within h =
      let runs : mem_bio_server_read room p max w ≡ bio_ssl_read room rep.ssl max w =
        ground (arith, h.held) in
      rw runs (read-Reads room max w rep.ssl rep.in_bio rep.out_bio a grant within h.wired)
