-- ===== src/Tls/Pipe/Fifo.antt =====
-- Memory BIOs, and the bio_read of src/tls.c on one.
use mathlib.Core.List.{append-nil}
use openssl_wasm.Common.{
  ℕ, suc, ◌^◌, ◌≤◌, ◌<◌, ◌==◌, ltb, ◌≡◌, ◌∙◌, refl, Bool, true, false, inl, inr, Bool-cases,
  if◌then◌else◌, Option, none, some, List, [], ◌∷◌, length, take, drop, drop_zero, take_past,
  drop_past, length-take, arith,
}
use openssl_wasm.Memory.{Queue, Ptr, null, Buffer, Cell, raw, World, Run, done, object, update}
use openssl_wasm.Memory.Contract.{IsFresh}
use openssl_wasm.Tls.Structs.{TlsStruct}
use openssl_wasm.Tls.Openssl.{pos, Openssl, TlsObject, bio}
use openssl_wasm.Tls.Data.{take_bio}

-- What OpenSSL says of a memory BIO: it holds bytes, a write adds to their end, and a read takes them
-- from the front.
pub record IsMemBio (lib : Openssl) (bytes_of : lib.Bio → List ℕ) : Type 0 where
  pub pending : (b : lib.Bio) → lib.bio_pending b ≡ length (bytes_of b)
  pub reads :
      (n : ℕ) (b : lib.Bio) (q : Queue)
      → 1 ≤ n
      → n ≤ length (bytes_of b)
      → n < 2 ^ 31
      → (lib.bio_read (pos n) b q).0.0 ≡ (pos n, take n (bytes_of b))
  pub keeps :
      (n : ℕ) (b : lib.Bio) (q : Queue)
      → 1 ≤ n
      → n ≤ length (bytes_of b)
      → n < 2 ^ 31
      → bytes_of (lib.bio_read (pos n) b q).0.1 ≡ drop n (bytes_of b)

-- The number of bytes that bio_read asks for.
abbrev chunk : List ℕ → ℕ → ℕ
chunk bs max = if ltb (length bs) max then length bs else max

chunk_fits : (bs : List ℕ) (max : ℕ) → chunk bs max ≤ length bs
chunk_fits bs max = ground arith

length-chunk : (bs : List ℕ) (max : ℕ) → chunk bs max ≡ length (take max bs)
length-chunk bs max = ground (arith, length-take max bs)

take-chunk :
    (bs : List ℕ) (max : ℕ)
    → (take (chunk bs max) bs ≡ take max bs) × (drop (chunk bs max) bs ≡ drop max bs)
take-chunk bs max = elim (Bool-cases (ltb (length bs) max)) [
  | inl less ↦ ground (
    arith,
    less,
    take_past max bs,
    drop_past max bs,
    take_past (length bs) bs,
    drop_past (length bs) bs,
  )
  | inr more ↦ ground (arith, more)
]

module _ {lib : Openssl} where
  -- A buffer with these bytes, or NULL for none.
  abbrev pub Holds : (Ptr → Option (Cell (TlsObject lib) TlsStruct)) → Buffer → List ℕ → Type 0
  Holds c b [] = (b.len ≡ 0) × (b.ptr ≡ null)
  Holds c b (x ∷ bs) = (b.len ≡ suc (length bs)) × (c b.ptr ≡ some (raw (suc (length bs)) (x ∷ bs)))

  nothing-Holds :
      (c : Ptr → Option (Cell (TlsObject lib) TlsStruct)) (bs : List ℕ)
      → length bs ≡ 0
      → Holds c (record { ptr = null; len = 0 }) bs
  nothing-Holds c [] h = (refl, refl)
  nothing-Holds c (x ∷ bs) h = absurd (ground arith)

  bytes-Holds :
      (c : Ptr → Option (Cell (TlsObject lib) TlsStruct)) (b : Buffer) (bs : List ℕ)
      → (b.len == 0) ≡ false
      → b.len ≡ length bs
      → c b.ptr ≡ some (raw (length bs) bs)
      → Holds c b bs
  bytes-Holds c b [] set len h = absurd (ground arith)
  bytes-Holds c b (x ∷ bs) set len h = (len, h)

  -- The call returns the bytes in a new buffer, and leaves at `o` a BIO with the bytes `rest`; the
  -- rest of the memory is as before.
  pub record Takes (bytes_of : lib.Bio → List ℕ) (w : World (TlsObject lib) TlsStruct)
      (run : Run (TlsObject lib) TlsStruct Buffer) (o : Ptr) (bs rest : List ℕ) : Type 0 where
    pub buf : Buffer
    pub after : World (TlsObject lib) TlsStruct
    pub left : lib.Bio
    pub runs : run ≡ done buf after
    pub holds : Holds after.cell buf bs
    pub new : w.cell buf.ptr ≡ none
    pub out_held : after.cell o ≡ some (object (bio left))
    pub rest_of : bytes_of left ≡ rest
    pub fresh : IsFresh after
    pub others : (x : Ptr) → (x == o) ≡ false → (x == buf.ptr) ≡ false → after.cell x ≡ w.cell x

  module _ (room : ℕ → Bool) (grants : (n : ℕ) → room n ≡ true) (bytes_of : lib.Bio → List ℕ)
      (mem_bio : IsMemBio lib bytes_of) where
    pub take_bio-Takes :
        (w : World (TlsObject lib) TlsStruct) (o : Ptr) (b : lib.Bio) (max : ℕ)
        → IsFresh w
        → w.cell o ≡ some (object (bio b))
        → length (bytes_of b) < 2 ^ 31
        → Takes bytes_of w (take_bio room o max w) o (take max (bytes_of b)) (drop max (bytes_of b))
    unfolding take_bio
    take_bio-Takes w o b max fresh held small =
        let bs = bytes_of b in
        let size : ℕ = chunk bs max in
        let size_is : size ≡ length (take max bs) = length-chunk bs max in
        let same = take-chunk bs max in
        elim (Bool-cases (size == 0)) [
          | inl empty ↦ record {
            buf = record { ptr = null; len = 0 };
            after = w;
            left = b;
            runs = ground (arith, held, mem_bio.pending b, empty);
            holds = nothing-Holds w.cell (take max bs) (ground (arith, size_is, empty));
            new = fresh.null_free;
            out_held = held;
            rest_of = ground (arith, same.1, empty, drop_zero bs);
            fresh = fresh;
            others = λ x h1 h2. refl;
          }
          | inr full ↦
              let p = suc w.next in
              let r = lib.bio_read (pos size) b w.errs in
              let read =
                mem_bio.reads size b w.errs (ground (arith, full)) (chunk_fits bs max)
                  (ground (arith, chunk_fits bs max, small)) in
              let kept =
                mem_bio.keeps size b w.errs (ground (arith, full)) (chunk_fits bs max)
                  (ground (arith, chunk_fits bs max, small)) in
              let p_o : (p == o) ≡ false = ground (arith, held, fresh.unused p (omega arith)) in
              let c =
                update (update (update w.cell p (some (raw size []))) o (some (object (bio r.0.1))))
                  p (some (raw size (take max bs))) in
              record {
                buf = record { ptr = p; len = size };
                after = record { next = p; cell = c; errs = r.1 };
                left = r.0.1;
                runs = ground (
                  arith,
                  held,
                  mem_bio.pending b,
                  full,
                  grants size,
                  read,
                  same.0,
                  small,
                  chunk_fits bs max,
                  p_o,
                  append-nil (take max bs),
                  size_is,
                );
                holds =
                    bytes-Holds c (record { ptr = p; len = size }) (take max bs) full size_is
                      (ground (arith, size_is));
                new = fresh.unused p (omega arith);
                out_held = ground (arith, p_o);
                rest_of = kept ∙ same.1;
                fresh = record {
                  unused = λ x h. ground (arith, h, fresh.unused x, held);
                  null_free = ground (arith, fresh.null_free, held);
                };
                others = λ x h1 h2. ground (arith, h1, h2);
              }
        ]
