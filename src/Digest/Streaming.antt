-- ===== src/Digest/Streaming.antt =====
-- A streaming session of the digest interface: a context is made, fed in pieces and finished.
use mathlib.Core.List.{append-nil, append_assoc}
use openssl_wasm.Common.{
  ℕ, suc, ◌≡◌, ◌∙◌, refl, Bool, true, false, ◌==◌, Option, none, some, List, [], ◌∷◌, ◌++◌, length,
  arith,
}
use openssl_wasm.Memory.{
  Queue, Ptr, null, Cell, raw, struct, object, World, Cmd, Run, done, abort, fault, Result, ok, err,
  Buffer, ◌>>=◌, pure, update,
}
use openssl_wasm.Memory.Contract.{IsFresh, Yields}
use openssl_wasm.Digest.Algs.{Md, md_built, is_shake, digest_md, digest_is_xof}
use openssl_wasm.Digest.Agree.{digest_md-given}
use openssl_wasm.Digest.Evp.{EvpMd}
use openssl_wasm.Digest.OneShot.{DigestError, ContextRep}
use openssl_wasm.Digest.Context.{constructor_context, context_update, context_finish}

-- What the documentation of EVP says of incremental hashing with a digest of the build that is no
-- SHAKE: a context stands for the digest that it was set up with and for what it has been fed, and
-- gives the hash of all of that. Of a SHAKE, whose output has no length of its own, it says nothing.
pub record IsIncremental (evp : EvpMd) : Type 0 where
  pub hash : Md → List ℕ → List ℕ
  pub state : evp.Ctx → Option (Md × List ℕ)
  pub init_works :
      (md : Md) (c : evp.Ctx) (q : Queue)
      → md_built evp.build md ≡ true
      → is_shake (some md) ≡ false
      → ((evp.init md c q).0.0 ≡ true) × (state (evp.init md c q).0.1 ≡ some (md, []))
  pub update_works :
      (input : List ℕ) (c : evp.Ctx) (q : Queue) (md : Md) (bs : List ℕ)
      → state c ≡ some (md, bs)
      → ((evp.update input c q).0.0 ≡ true)
        × (state (evp.update input c q).0.1 ≡ some (md, bs ++ input))
  pub final_works :
      (c : evp.Ctx) (q : Queue) (md : Md) (bs : List ℕ)
      → is_shake (some md) ≡ false
      → state c ≡ some (md, bs)
      → ((evp.final c q).0.0 ≡ some (hash md bs)) × (evp.ctx_size (some c) ≡ length (hash md bs))

abbrev pub all_bytes : List (List ℕ) → List ℕ
all_bytes [] = []
all_bytes (chunk ∷ chunks) = chunk ++ all_bytes chunks

abbrev pub queue_after : {O R A : Type 0} → Run O R A → Queue
queue_after (done a w) = w.errs
queue_after abort = []
queue_after fault = []

abbrev on_ok :
    {O R A : Type 0}
    → Result DigestError (Unit {0})
    → Cmd O R (Result DigestError A)
    → Cmd O R (Result DigestError A)
on_ok (ok u) rest = rest
on_ok (err e) rest = pure (err e)

module _ (evp : EvpMd) (room : ℕ → Bool) where
  -- A caller that feeds the pieces one by one, and finishes; it stops at an error.
  pub feed : Ptr → List (List ℕ) → Cmd evp.Ctx ContextRep (Result DigestError Buffer)
  feed self [] = context_finish evp room self
  feed self (chunk ∷ chunks) = do
    fed ← context_update evp room self chunk
    let rest = feed self chunks
    on_ok fed rest

  pub session : ℕ → List (List ℕ) → Cmd evp.Ctx ContextRep (Result DigestError Buffer)
  unfolding feed
  session alg chunks = do self ← constructor_context evp room alg; feed self chunks

module _ (evp : EvpMd) (inc : IsIncremental evp) (room : ℕ → Bool)
    (m : Ptr → Option (Cell evp.Ctx ContextRep)) where
  -- In the world `w` the struct at `self` holds the context `c` at `ctx`, which has been fed `bs`;
  -- but for these two cells the memory is `m`.
  record IsStreaming (w : World evp.Ctx ContextRep) (self ctx : Ptr) (c : evp.Ctx) (alg : ℕ)
      (md : Md) (bs : List ℕ) : Type 0 where
    fresh : IsFresh w
    self_cell : w.cell self ≡ some (struct (record { ctx = ctx; alg = alg }))
    ctx_cell : w.cell ctx ≡ some (object c)
    self_set : (self == null) ≡ false
    ctx_set : (ctx == null) ≡ false
    apart : (ctx == self) ≡ false
    fed : inc.state c ≡ some (md, bs)
    plain : is_shake (some md) ≡ false
    self_new : m self ≡ none
    ctx_new : m ctx ≡ none
    others : (x : Ptr) → (x == self) ≡ false → (x == ctx) ≡ false → w.cell x ≡ m x

  module _ {w : World evp.Ctx ContextRep} {self ctx : Ptr} {c : evp.Ctx} {alg : ℕ} {md : Md}
      {bs : List ℕ} (s : IsStreaming w self ctx c alg md bs) where
    abbrev fed_world : List ℕ → World evp.Ctx ContextRep
    fed_world input = record w {
      cell = update w.cell ctx (some (object (evp.update input c w.errs).0.1));
      errs = (evp.update input c w.errs).1;
    }

    update_runs :
        (input : List ℕ) → context_update evp room self input w ≡ done (ok tt) (fed_world input)
    unfolding context_update
    update_runs input =
        ground
          (arith, s.self_cell, s.ctx_cell, s.ctx_set, inc.update_works input c w.errs md bs s.fed)

    update-IsStreaming :
        (input : List ℕ)
        → IsStreaming
            (fed_world input)
            self
            ctx
            (evp.update input c w.errs).0.1
            alg
            md
            (bs ++ input)
    update-IsStreaming input = record {
      fresh = record {
        unused = λ x h. ground (arith, s.fresh.unused x, s.ctx_cell);
        null_free = ground (arith, s.fresh.null_free, s.ctx_set);
      };
      self_cell = ground (arith, s.self_cell, s.apart);
      ctx_cell = ground arith;
      self_set = s.self_set;
      ctx_set = s.ctx_set;
      apart = s.apart;
      fed = (inc.update_works input c w.errs md bs s.fed).1;
      plain = s.plain;
      self_new = s.self_new;
      ctx_new = s.ctx_new;
      others = λ x h k. ground (arith, s.others x h k);
    }

    abbrev finished_world : World evp.Ctx ContextRep
    finished_world =
        let p = suc w.next in
        let bytes = inc.hash md bs in
        let c' = (evp.final c w.errs).0.1 in
        record {
          next = p;
          cell =
              update
                (update
                  (update
                    (update (update w.cell p (some (raw (length bytes) []))) ctx (some (object c')))
                    ctx none)
                  self none)
                p (some (raw (length bytes) bytes));
          errs = (evp.final c w.errs).1;
        }

    finish_runs :
        digest_is_xof alg ≡ false
        → room (length (inc.hash md bs)) ≡ true
        → context_finish evp room self w
          ≡ done (ok (record { ptr = suc w.next; len = length (inc.hash md bs) })) finished_world
    unfolding context_finish
    finish_runs plain grants = ground (
      arith,
      s.self_cell,
      s.ctx_cell,
      s.ctx_set,
      s.self_set,
      s.apart,
      plain,
      grants,
      inc.final_works c w.errs md bs s.plain s.fed,
      s.fresh.unused (suc w.next),
      append-nil (inc.hash md bs),
    )

    finish-Yields :
        digest_is_xof alg ≡ false
        → room (length (inc.hash md bs)) ≡ true
        → Yields m
            (context_finish evp room self w)
            (ok (inc.hash md bs), queue_after (context_finish evp room self w))
    finish-Yields plain grants = rw (finish_runs plain grants) (
      ground arith,
      refl,
      ground (arith, s.others (suc w.next), s.fresh.unused (suc w.next), s.self_cell, s.ctx_cell),
      λ x h. ground (arith, h, s.others x, s.self_new, s.ctx_new),
      refl,
    )

  feed-Yields :
      (chunks : List (List ℕ)) {w : World evp.Ctx ContextRep} {self ctx : Ptr} {c : evp.Ctx}
      {alg : ℕ} {md : Md} {bs : List ℕ}
      → IsStreaming w self ctx c alg md bs
      → digest_is_xof alg ≡ false
      → ((input : List ℕ) → room (length (inc.hash md input)) ≡ true)
      → Yields m
          (feed evp room self chunks w)
          (ok (inc.hash md (bs ++ all_bytes chunks)), queue_after (feed evp room self chunks w))
  unfolding feed
  feed-Yields [] {bs} s plain grants = rw (append-nil bs) (finish-Yields s plain (grants bs))
  feed-Yields (chunk ∷ chunks) {bs} s plain grants =
      rw (update_runs s chunk, ← append_assoc bs chunk (all_bytes chunks))
        (feed-Yields chunks (update-IsStreaming s chunk) plain grants)

module _ (evp : EvpMd) (inc : IsIncremental evp) (room : ℕ → Bool) where
  -- For every digest of the build that is no SHAKE, and every way to cut the input into pieces:
  -- making a context, feeding it the pieces and finishing returns the hash of the whole input in one
  -- new buffer of its length, frees the context and its struct, and changes nothing else. This holds
  -- where OpenSSL hashes incrementally with the digests that are no SHAKE and gives a context, and
  -- malloc grants the sizes.
  pub session_lem :
      (alg : ℕ) (md : Md) (chunks : List (List ℕ)) (w : World evp.Ctx ContextRep) (c : evp.Ctx)
      → digest_md evp.build alg ≡ some md
      → digest_is_xof alg ≡ false
      → IsFresh w
      → (evp.ctx_new w.errs).0 ≡ some c
      → room 8 ≡ true
      → ((input : List ℕ) → room (length (inc.hash md input)) ≡ true)
      → Yields w.cell
          (session evp room alg chunks w)
          (ok (inc.hash md (all_bytes chunks)), queue_after (session evp room alg chunks w))
  unfolding session
  session_lem alg md chunks w c known plain fresh made struct_fits grants =
      rw opened (feed-Yields evp inc room w.cell chunks streaming plain grants)
    where
      built : md_built evp.build md ≡ true
      built = (digest_md-given evp.build alg md known).0

      fixed : is_shake (some md) ≡ false
      fixed = (digest_md-given evp.build alg md known).1 ∙ plain

      opened_world : World evp.Ctx ContextRep
      opened_world =
          let q = (evp.ctx_new w.errs).1 in
          let self = suc w.next in
          let ctx = suc self in
          record {
            next = ctx;
            cell =
                update
                  (update
                    (update (update w.cell self (some (struct (record { ctx = null; alg = alg }))))
                      ctx (some (object c)))
                    self (some (struct (record { ctx = ctx; alg = alg }))))
                  ctx (some (object (evp.init md c q).0.1));
            errs = (evp.init md c q).1;
          }

      opened : constructor_context evp room alg w ≡ done (suc w.next) opened_world
      opened = unfold constructor_context in ground (arith, known, made, struct_fits)

      streaming :
          IsStreaming evp inc room w.cell opened_world
            (suc w.next)
            (suc (suc w.next))
            (evp.init md c (evp.ctx_new w.errs).1).0.1
            alg
            md
            []
      streaming = record {
        fresh = record {
          unused = λ x h. ground (arith, h, fresh.unused x);
          null_free = ground (arith, fresh.null_free);
        };
        self_cell = ground arith;
        ctx_cell = ground arith;
        self_set = ground arith;
        ctx_set = ground arith;
        apart = ground arith;
        fed = (inc.init_works md c (evp.ctx_new w.errs).1 built fixed).1;
        plain = fixed;
        self_new = fresh.unused (suc w.next) (omega arith);
        ctx_new = fresh.unused (suc (suc w.next)) (omega arith);
        others = λ x h k. ground (arith, h, k);
      }
