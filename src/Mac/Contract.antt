-- ===== src/Mac/Contract.antt =====
-- What the one-shot MAC returns, without its memory, and that the code implements it.
use Prim.Native.String.{String}
use mathlib.Core.Path.{fun_ext, subst}
use mathlib.Core.List.{append-nil}
use openssl_wasm.Common.{
  ℕ, suc, ◌≡◌, ◌≤◌, refl, Bool, true, false, not, ◌==◌, if◌then◌else◌, inl, inr, Bool-cases, Option,
  none, some, List, length, arith,
}
use openssl_wasm.Memory.{
  Queue, Ptr, null, object, peek_last, World, Run, done, abort, fault, Result, ok, err, Buffer,
  update, at_least_one, and_then, ◌>>=◌, ◌>>◌, pure, free_object,
}
use openssl_wasm.Memory.Contract.{IsFresh, Yields, output}
use openssl_wasm.Mac.Params.{
  MacError, unsupported_algorithm, internal, MacParams, Param, mac_name, build_mac_params, EvpMac,
  MacObject, mac, mac_ctx,
}
use openssl_wasm.Mac.Context.{MacRep, MacCmd, internal_error, call_ctx, new_mac_ctx}
use openssl_wasm.Mac.OneShot.{mac_one_shot, finish_mac}

module _ (evp : EvpMac) where
  -- A context, set up with the key and the parameters, as a value.
  abbrev init_value : List ℕ → List Param → evp.Ctx → Queue → Result MacError evp.Ctx × Queue
  init_value key ps c q =
      let ((started, c'), q') = evp.init key ps c q in
      if started then (ok c', q') else (err (internal (peek_last q')), q')

  unfoldable pub new_value : ℕ → List ℕ → MacParams → Queue → Result MacError evp.Ctx × Queue
  new_value alg key p q = elim (mac_name alg) [
    | none ↦ (err unsupported_algorithm, q)
    | some name ↦
        let (m, q1) = evp.fetch name q in
        elim m [
          | none ↦ (err unsupported_algorithm, q1)
          | some k ↦
              let (c, q2) = evp.ctx_new k q1 in
              elim c [
                | none ↦ (err (internal 0), q2)
                | some cc ↦ elim (build_mac_params alg p) [
                  | err e ↦ (err e, q2)
                  | ok ps ↦ init_value key ps cc q2
                ]
              ]
        ]
  ]

  -- The size query and the final call on a context.
  unfoldable pub finish_value : evp.Ctx → Queue → Result MacError (List ℕ) × Queue
  finish_value c q =
      let ((sized, c1), q1) = evp.final_size c q in
      elim sized [
        | none ↦ (err (internal (peek_last q1)), q1)
        | some n ↦
            let ((out, c2), q2) = evp.final n c1 q1 in
            elim out [ none ↦ (err (internal (peek_last q2)), q2) | some bs ↦ (ok bs, q2) ]
      ]

  unfoldable pub mac_value :
      ℕ → List ℕ → List ℕ → MacParams → Queue → Result MacError (List ℕ) × Queue
  mac_value alg key input p q =
      let (made, q1) = new_value alg key p q in
      elim made [
        | err e ↦ (err e, q1)
        | ok c ↦
            let ((fed, c'), q2) = evp.update input c q1 in
            if not fed then (err (internal (peek_last q2)), q2) else finish_value c' q2
      ]

  -- EVP_MAC_final writes no more than the size of the buffer that it is given.
  abbrev pub FitsSize : Type 0
  FitsSize =
      (n : ℕ) (c : evp.Ctx) (q : Queue) (bs : List ℕ)
      → (evp.final n c q).0.0 ≡ some bs
      → length bs ≤ n

  -- The call made a context and nothing else, or failed and left the memory as it was.
  abbrev Opened :
      World (MacObject evp) MacRep
      → Run (MacObject evp) MacRep (Result MacError Ptr)
      → Result MacError evp.Ctx × Queue
      → Type 0
  Opened w (done (ok ctx) w') (ok c, q) =
      (w'.cell ctx ≡ some (object (mac_ctx c)))
      × ((ctx == null) ≡ false)
      × (w.cell ctx ≡ none)
      × ((x : Ptr) → (x == ctx) ≡ false → w'.cell x ≡ w.cell x)
      × IsFresh w'
      × (w'.errs ≡ q)
  Opened w (done (err e) w') (err e', q) =
      (e ≡ e') × ((x : Ptr) → w'.cell x ≡ w.cell x) × (w'.errs ≡ q)
  Opened w (done (ok ctx) w') (err e', q) = ⊥
  Opened w (done (err e) w') (ok c, q) = ⊥
  Opened w abort v = ⊥
  Opened w fault v = ⊥

  module _ (alg : ℕ) (key : List ℕ) (p : MacParams) (w : World (MacObject evp) MacRep)
      (fresh : IsFresh w) where
    module _ (name : String) (k : evp.Mac) (c : evp.Ctx) (ps : List Param)
        (en : mac_name alg ≡ some name) (ek : (evp.fetch name w.errs).0 ≡ some k)
        (ec : (evp.ctx_new k (evp.fetch name w.errs).1).0 ≡ some c)
        (ep : build_mac_params alg p ≡ ok ps) where
      abbrev init_result : (Bool × evp.Ctx) × Queue
      init_result = evp.init key ps c (evp.ctx_new k (evp.fetch name w.errs).1).1

      abbrev opened_world : World (MacObject evp) MacRep
      opened_world =
          let mp = suc w.next in
          let ctx = suc mp in
          record {
            next = ctx;
            cell =
                update
                  (update
                    (update (update w.cell mp (some (object (mac k)))) ctx
                      (some (object (mac_ctx c))))
                    mp none)
                  ctx (some (object (mac_ctx init_result.0.1)));
            errs = init_result.1;
          }

      opened :
          init_result.0.0 ≡ true
          → Opened w (new_mac_ctx evp alg key p w) (new_value alg key p w.errs)
      unfolding new_mac_ctx new_value
      opened started =
          let runs : new_mac_ctx evp alg key p w ≡ done (ok (suc (suc w.next))) opened_world =
            ground (arith, en, ek, ec, ep, started) in
          let value : new_value alg key p w.errs ≡ (ok init_result.0.1, init_result.1) =
            ground (arith, en, ek, ec, ep, started) in
          rw (runs, value)
            (
              ground arith,
              ground arith,
              fresh.unused (suc (suc w.next)) (omega arith),
              λ x h. ground (arith, h, fresh.unused (suc w.next)),
              record {
                unused = λ x h. ground (arith, h, fresh.unused x);
                null_free = ground (arith, fresh.null_free);
              },
              refl,
            )

      refused :
          init_result.0.0 ≡ false
          → Opened w (new_mac_ctx evp alg key p w) (new_value alg key p w.errs)
      unfolding new_mac_ctx new_value
      refused started = ground (
        arith,
        en,
        ek,
        ec,
        ep,
        started,
        fresh.unused (suc w.next),
        fresh.unused (suc (suc w.next)),
      )

    new_mac_ctx_lem : Opened w (new_mac_ctx evp alg key p w) (new_value alg key p w.errs)
    unfolding new_mac_ctx new_value
    new_mac_ctx_lem = named (mac_name alg) refl
      where
        goal_holds :
            (name : String)
            → mac_name alg ≡ some name
            → (m : Option evp.Mac) → (evp.fetch name w.errs).0 ≡ m
            → Opened w (new_mac_ctx evp alg key p w) (new_value alg key p w.errs)
        goal_holds name en none em = ground (arith, en, em)
        goal_holds name en (some k) em =
            with_ctx (evp.ctx_new k (evp.fetch name w.errs).1).0 refl (build_mac_params alg p) refl
          where
            with_ctx :
                (c : Option evp.Ctx)
                → (evp.ctx_new k (evp.fetch name w.errs).1).0 ≡ c
                → (r : Result MacError (List Param)) → build_mac_params alg p ≡ r
                → Opened w (new_mac_ctx evp alg key p w) (new_value alg key p w.errs)
            with_ctx none ec r er = ground (arith, en, em, ec, fresh.unused (suc w.next))
            with_ctx (some c) ec (err e) er =
                ground (
                  arith,
                  en,
                  em,
                  ec,
                  er,
                  fresh.unused (suc w.next),
                  fresh.unused (suc (suc w.next)),
                )
            with_ctx (some c) ec (ok ps) er =
                elim (Bool-cases
                  (evp.init key ps c (evp.ctx_new k (evp.fetch name w.errs).1).1).0.0) [
                    | inl started ↦ opened name k c ps en em ec er started
                    | inr failed ↦ refused name k c ps en em ec er failed
                  ]

        named :
            (o : Option String)
            → mac_name alg ≡ o
            → Opened w (new_mac_ctx evp alg key p w) (new_value alg key p w.errs)
        named none en = ground (arith, en)
        named (some name) en = goal_holds name en (evp.fetch name w.errs).0 refl

  module _ (room : ℕ → Bool) (grants : (n : ℕ) → room n ≡ true) (sizes : FitsSize) (ctx : Ptr)
      (c : evp.Ctx) (w : World (MacObject evp) MacRep) (fresh : IsFresh w)
      (held : w.cell ctx ≡ some (object (mac_ctx c))) (set : (ctx == null) ≡ false) where
    finish_mac_lem :
        Yields (update w.cell ctx none) (finish_mac evp room ctx w) (finish_value c w.errs)
    unfolding finish_mac finish_value
    finish_mac_lem = sized (evp.final_size c w.errs).0.0 refl
      where
        sized :
            (o : Option ℕ)
            → (evp.final_size c w.errs).0.0 ≡ o
            → Yields (update w.cell ctx none) (finish_mac evp room ctx w) (finish_value c w.errs)
        sized none e = ground (arith, e, held, set)
        sized (some n) e =
            let r = evp.final_size c w.errs in
            let bs = output (evp.final n r.0.1 r.1).0.0 in
            ground (
              arith,
              e,
              held,
              set,
              grants (at_least_one n),
              fresh.unused (suc w.next),
              sizes n r.0.1 r.1 bs,
              append-nil bs,
            )

  -- The call after new_mac_ctx, in the code and as a value.
  abbrev after_new : (ℕ → Bool) → List ℕ → Result MacError Ptr → MacCmd evp (Result MacError Buffer)
  after_new room input (err e) = pure (err e)
  after_new room input (ok ctx) = do
    fed ← call_ctx evp ctx (evp.update input)
    if not fed then (do free_object ctx; internal_error) else finish_mac evp room ctx

  abbrev after_value : List ℕ → Result MacError evp.Ctx × Queue → Result MacError (List ℕ) × Queue
  after_value input (err e, q) = (err e, q)
  after_value input (ok c, q) =
      let ((fed, c'), q') = evp.update input c q in
      if not fed then (err (internal (peek_last q')), q') else finish_value c' q'

  module _ (room : ℕ → Bool) (grants : (n : ℕ) → room n ≡ true) (sizes : FitsSize) (input : List ℕ)
      (w v : World (MacObject evp) MacRep) (ctx : Ptr) (c : evp.Ctx)
      (held : v.cell ctx ≡ some (object (mac_ctx c))) (set : (ctx == null) ≡ false)
      (new : w.cell ctx ≡ none) (others : (x : Ptr) → (x == ctx) ≡ false → v.cell x ≡ w.cell x)
      (fresh : IsFresh v) where
    abbrev fed_result : (Bool × evp.Ctx) × Queue
    fed_result = evp.update input c v.errs

    abbrev fed_world : World (MacObject evp) MacRep
    fed_world = record v {
      cell = update v.cell ctx (some (object (mac_ctx fed_result.0.1)));
      errs = fed_result.1;
    }

    fed_world-IsFresh : IsFresh fed_world
    fed_world-IsFresh = record {
      unused = λ x h. ground (arith, h, fresh.unused x, held);
      null_free = ground (arith, fresh.null_free, set);
    }

    freed : (x : Ptr) → update fed_world.cell ctx none x ≡ w.cell x
    freed x = ground (arith, others x, new)

    fed-Yields :
        fed_result.0.0 ≡ true
        → Yields w.cell (after_new room input (ok ctx) v) (after_value input (ok c, v.errs))
    fed-Yields fed =
        let runs : after_new room input (ok ctx) v ≡ finish_mac evp room ctx fed_world =
          ground (arith, fed, held) in
        let value : after_value input (ok c, v.errs) ≡ finish_value fed_result.0.1 fed_result.1 =
          ground (arith, fed) in
        rw (runs, value)
          (subst
            (λ m.
              Yields m (finish_mac evp room ctx fed_world)
                (finish_value fed_result.0.1 fed_result.1))
            (fun_ext (λ x. freed x))
            (finish_mac_lem room grants sizes ctx fed_result.0.1 fed_world fed_world-IsFresh
              (ground arith) set))

    unfed-Yields :
        fed_result.0.0 ≡ false
        → Yields w.cell (after_new room input (ok ctx) v) (after_value input (ok c, v.errs))
    unfed-Yields unfed =
        let done_with : World (MacObject evp) MacRep = record fed_world {
          cell = update fed_world.cell ctx none;
        } in
        let runs : after_new room input (ok ctx) v
            ≡ done (err (internal (peek_last fed_result.1))) done_with =
          ground (arith, unfed, held, set) in
        let value : after_value input (ok c, v.errs)
            ≡ (err (internal (peek_last fed_result.1)), fed_result.1) =
          ground (arith, unfed) in
        rw (runs, value) (refl, λ x. freed x, refl)

    fed_or_not : Yields w.cell (after_new room input (ok ctx) v) (after_value input (ok c, v.errs))
    fed_or_not = elim (Bool-cases fed_result.0.0) [
      | inl fed ↦ fed-Yields fed
      | inr unfed ↦ unfed-Yields unfed
    ]

  after_new-Yields :
      (room : ℕ → Bool) (input : List ℕ) (w : World (MacObject evp) MacRep)
      (run : Run (MacObject evp) MacRep (Result MacError Ptr))
      (value : Result MacError evp.Ctx × Queue)
      → ((n : ℕ) → room n ≡ true)
      → FitsSize
      → Opened w run value
      → Yields w.cell (and_then run (after_new room input)) (after_value input value)
  after_new-Yields room input w (done (ok ctx) v) (ok c, q) grants sizes o =
      subst (λ q'. Yields w.cell (after_new room input (ok ctx) v) (after_value input (ok c, q')))
        o.5 (fed_or_not room grants sizes input w v ctx c o.0 o.1 o.2 o.3 o.4)
  after_new-Yields room input w (done (err e) v) (err e', q) grants sizes o = o
  after_new-Yields room input w (done (ok ctx) v) (err e, q) grants sizes o = absurd o
  after_new-Yields room input w (done (err e) v) (ok c, q) grants sizes o = absurd o
  after_new-Yields room input w abort value grants sizes o = absurd o
  after_new-Yields room input w fault value grants sizes o = absurd o

  -- For every algorithm, key, parameters and input: the one-shot MAC returns the bytes of the second
  -- EVP_MAC_final in one new buffer, or the error of the first check or call that fails, with the
  -- memory as it was; the fetched EVP_MAC and the context are freed on every path. This holds where
  -- malloc does not fail and EVP_MAC_final writes no more than the size that it is given.
  pub mac_one_shot_lem :
      (room : ℕ → Bool) (alg : ℕ) (key input : List ℕ) (p : MacParams)
      (w : World (MacObject evp) MacRep)
      → IsFresh w
      → ((n : ℕ) → room n ≡ true)
      → FitsSize
      → Yields w.cell (mac_one_shot evp room alg key input p w) (mac_value alg key input p w.errs)
  unfolding mac_one_shot mac_value
  mac_one_shot_lem room alg key input p w fresh grants sizes =
      let o =
        after_new-Yields room input w (new_mac_ctx evp alg key p w) (new_value alg key p w.errs)
          grants sizes (new_mac_ctx_lem alg key p w fresh) in
      let runs : mac_one_shot evp room alg key input p w
          ≡ and_then (new_mac_ctx evp alg key p w) (after_new room input) =
        ground arith in
      let value : mac_value alg key input p w.errs
          ≡ after_value input (new_value alg key p w.errs) =
        ground arith in
      rw (runs, value) o
