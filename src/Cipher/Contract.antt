-- ===== src/Cipher/Contract.antt =====
-- What the one-shot ciphers return, without their memory, and that the code implements it.
use mathlib.Core.Path.{fun_ext, subst}
use mathlib.Core.List.{append-nil}
use openssl_wasm.Common.{
  ℕ, suc, ◌+◌, ◌^◌, ◌≡◌, ◌≤◌, ◌<◌, refl, ◌∙◌, Bool, true, false, not, ◌||◌, ◌==◌, if◌then◌else◌,
  inl, inr, Bool-cases, Option, none, some, List, ◌++◌, length, length-append, take_past, drop_past,
  arith,
}
use openssl_wasm.Memory.{
  Queue, Ptr, null, peek_last, World, object, Result, ok, err, update, at_least_one,
}
use openssl_wasm.Memory.Contract.{IsFresh, Yields, output}
use openssl_wasm.Cipher.Algs.{CipherId, cipher_by_alg, alg_is_aead}
use openssl_wasm.Cipher.Evp.{
  Direction, encrypt, decrypt, EvpCipher, CipherError, unsupported_algorithm, bad_key_size,
  bad_padding, aead_required, internal,
}
use openssl_wasm.Cipher.OneShot.{run_cipher, one_shot}

module _ (evp : EvpCipher) where
  -- What the documentation of EVP says of a context that was set up with a cipher and not fed yet,
  -- `runs`, and of the output of a whole operation on it: the first update and the final call write
  -- at most a block more than the input.
  pub record OutputFits : Type 0 where
    pub runs : evp.Ctx → Option CipherId
    pub init_runs :
        (dir : Direction) (c : CipherId) (key : List ℕ) (iv : Option (List ℕ)) (h : evp.Ctx)
        (q : Queue)
        → (evp.init dir (some c) (some key) iv h q).0.0 ≡ true
        → (runs (evp.init dir (some c) (some key) iv h q).0.1 ≡ some c)
          × (evp.ctx_key_length (evp.init dir (some c) (some key) iv h q).0.1 ≡ evp.key_length c)
    pub padding_runs :
        (on : Bool) (h : evp.Ctx) (q : Queue) → runs (evp.set_padding on h q).0.1 ≡ runs h
    pub fits :
        (dir : Direction) (c : CipherId) (input : List ℕ) (h : evp.Ctx) (q q' : Queue)
        → runs h ≡ some c
        → length (output (evp.update dir input h q).0.0)
            + length (output (evp.final dir (evp.update dir input h q).0.1 q').0.0)
          ≤ length input + evp.block_size c

  abbrev final_error_value : Direction → Queue → Result CipherError (List ℕ)
  final_error_value encrypt q = err (internal (peek_last q))
  final_error_value decrypt q = err bad_padding

  unfoldable pub run_value :
      Direction → List ℕ → evp.Ctx → Queue → Result CipherError (List ℕ) × Queue
  run_value dir input h q =
      let ((first, h1), q1) = evp.update dir input h q in
      elim first [
        | none ↦ (err (internal (peek_last q1)), q1)
        | some bs1 ↦
            let ((second, h2), q2) = evp.final dir h1 q1 in
            elim second [ none ↦ (final_error_value dir q2, q2) | some bs2 ↦ (ok (bs1 ++ bs2), q2) ]
      ]

  module _ {R : Type 0} (room : ℕ → Bool) (doc : OutputFits) (c : CipherId) (input : List ℕ)
      (grants : (room (at_least_one (length input + evp.block_size c)) ≡ true)
        × (length input + evp.block_size c < 2 ^ 31))
      (ctx : Ptr) (h : evp.Ctx) (w : World evp.Ctx R) (fresh : IsFresh w)
      (held : w.cell ctx ≡ some (object h)) (set : (ctx == null) ≡ false)
      (running : doc.runs h ≡ some c) where
    run_cipher_lem :
        (dir : Direction)
        → Yields
            (update w.cell ctx none)
            (run_cipher evp room dir c input ctx w)
            (run_value dir input h w.errs)
    unfolding run_cipher run_value
    run_cipher_lem dir =
        let r1 = evp.update dir input h w.errs in
        split (evp.update dir input h w.errs).0.0 refl (evp.final dir r1.0.1 r1.1).0.0 refl dir refl
      where
        split :
            (o1 : Option (List ℕ))
            → (evp.update dir input h w.errs).0.0 ≡ o1
            → (o2 : Option (List ℕ))
            → (evp.final dir
                (evp.update dir input h w.errs).0.1
                (evp.update dir input h w.errs).1).0.0
              ≡ o2
            → (d : Direction) → dir ≡ d
            → Yields
                (update w.cell ctx none)
                (run_cipher evp room dir c input ctx w)
                (run_value dir input h w.errs)
        split none e1 o2 e2 d ed = ground (arith, e1, grants, held, set, fresh.unused (suc w.next))
        split (some bs1) e1 none e2 encrypt ed = ground (
          arith,
          e1,
          e2,
          ed,
          grants,
          held,
          set,
          fresh.unused (suc w.next),
          doc.fits dir c input h w.errs (evp.update dir input h w.errs).1 running,
        )
        split (some bs1) e1 none e2 decrypt ed = ground (
          arith,
          e1,
          e2,
          ed,
          grants,
          held,
          set,
          fresh.unused (suc w.next),
          doc.fits dir c input h w.errs (evp.update dir input h w.errs).1 running,
        )
        split (some bs1) e1 (some bs2) e2 d ed = ground (
          arith,
          e1,
          e2,
          grants,
          held,
          set,
          fresh.unused (suc w.next),
          doc.fits dir c input h w.errs (evp.update dir input h w.errs).1 running,
          append-nil bs1,
          append-nil bs2,
          take_past (length bs1) bs1,
          drop_past (length bs1 + length bs2) bs1,
          length-append bs1 bs2,
        )

  unfoldable pub one_shot_value :
      Direction
      → ℕ
      → List ℕ
      → Option (List ℕ)
      → ℕ
      → List ℕ
      → Queue
      → Result CipherError (List ℕ) × Queue
  one_shot_value dir alg key iv padding input q = elim (cipher_by_alg evp.build evp.sm4_gcm alg) [
    | none ↦ (err unsupported_algorithm, q)
    | some c ↦
        if alg_is_aead alg
        then (err aead_required, q)
        else let (made, q1) = evp.ctx_new q in
          elim made [
            | none ↦ (err (internal 0), q1)
            | some h ↦
                let ((started, h1), q2) = evp.init dir (some c) (some key) iv h q1 in
                if not started || not (length key == evp.ctx_key_length h1)
                then (err bad_key_size, q2)
                else let ((padded, h2), q3) = evp.set_padding (padding == 1) h1 q2 in
                  run_value dir input h2 q3
          ]
  ]

  -- The lists are as long as what OpenSSL reads of them.
  abbrev pub Readable : CipherId → List ℕ → Option (List ℕ) → Type 0
  Readable c key none = evp.key_length c ≤ length key
  Readable c key (some iv) = (evp.key_length c ≤ length key) × (evp.iv_length c ≤ length iv)

  module _ {R : Type 0} (room : ℕ → Bool) (doc : OutputFits) (dir : Direction) (alg : ℕ)
      (key : List ℕ) (iv : Option (List ℕ)) (padding : ℕ) (input : List ℕ) (w : World evp.Ctx R)
      (fresh : IsFresh w) (c : CipherId) (known : cipher_by_alg evp.build evp.sm4_gcm alg ≡ some c)
      (grants : (room (at_least_one (length input + evp.block_size c)) ≡ true)
        × (length input + evp.block_size c < 2 ^ 31))
      (readable : Readable c key iv) (plain : alg_is_aead alg ≡ false) (h : evp.Ctx)
      (made : (evp.ctx_new w.errs).0 ≡ some h) where
    abbrev init_result : (Bool × evp.Ctx) × Queue
    init_result = evp.init dir (some c) (some key) iv h (evp.ctx_new w.errs).1

    abbrev padding_result : (Bool × evp.Ctx) × Queue
    padding_result = evp.set_padding (padding == 1) init_result.0.1 init_result.1

    abbrev set_up : World evp.Ctx R
    set_up =
        let ctx = suc w.next in
        record {
          next = ctx;
          cell =
              update
                (update (update w.cell ctx (some (object h))) ctx (some (object init_result.0.1)))
                ctx (some (object padding_result.0.1));
          errs = padding_result.1;
        }

    set_up-IsFresh : IsFresh set_up
    set_up-IsFresh = record {
      unused = λ x p. ground (arith, p, fresh.unused x);
      null_free = ground (arith, fresh.null_free);
    }

    started-Yields :
        init_result.0.0 ≡ true
        → (length key == evp.ctx_key_length init_result.0.1) ≡ true
        → Yields w.cell
            (one_shot evp room dir alg key iv padding input w)
            (one_shot_value dir alg key iv padding input w.errs)
    unfolding one_shot one_shot_value
    started-Yields started sized =
        let runs : one_shot evp room dir alg key iv padding input w
            ≡ run_cipher evp room dir c input (suc w.next) set_up =
          ground (arith, known, plain, made, started, sized, readable) in
        let value : one_shot_value dir alg key iv padding input w.errs
            ≡ run_value dir input padding_result.0.1 padding_result.1 =
          ground (arith, known, plain, made, started, sized) in
        rw (runs, value)
          (subst
            (λ m.
              Yields m (run_cipher evp room dir c input (suc w.next) set_up)
                (run_value dir input padding_result.0.1 padding_result.1))
            (fun_ext (λ x. freed x))
            (run_cipher_lem room doc c input grants (suc w.next) padding_result.0.1 set_up
              set_up-IsFresh (ground arith) (ground arith) running dir))
      where
        freed : (x : ℕ) → update set_up.cell (suc w.next) none x ≡ w.cell x
        freed x = ground (arith, fresh.unused (suc w.next))

        running : doc.runs padding_result.0.1 ≡ some c
        running =
            doc.padding_runs (padding == 1) init_result.0.1 init_result.1
            ∙ (doc.init_runs dir c key iv h (evp.ctx_new w.errs).1 started).0

    refused-Yields :
        (not init_result.0.0 || not (length key == evp.ctx_key_length init_result.0.1)) ≡ true
        → Yields w.cell
            (one_shot evp room dir alg key iv padding input w)
            (one_shot_value dir alg key iv padding input w.errs)
    unfolding one_shot one_shot_value
    refused-Yields refused =
        ground (arith, known, plain, made, refused, readable, fresh.unused (suc w.next))

  -- For every algorithm, direction, padding and input, where the key and IV lists are as long as
  -- what OpenSSL reads of them, the output's size is an `int` that malloc grants, and a whole
  -- operation writes at most a block more than its input: the call returns what the update and the
  -- final call write, one after the other, in one new buffer; or the error of the step that fails,
  -- with the memory as it was. The context is freed on every path, and a key longer than the
  -- cipher's is refused.
  pub cipher_one_shot_lem :
      {R : Type 0} (room : ℕ → Bool) (dir : Direction) (alg : ℕ) (key : List ℕ)
      (iv : Option (List ℕ)) (padding : ℕ) (input : List ℕ) (w : World evp.Ctx R)
      → IsFresh w
      → OutputFits
      → ((c : CipherId)
          → cipher_by_alg evp.build evp.sm4_gcm alg ≡ some c
          → ((room (at_least_one (length input + evp.block_size c)) ≡ true)
              × (length input + evp.block_size c < 2 ^ 31))
            × Readable c key iv)
      → Yields w.cell
          (one_shot evp room dir alg key iv padding input w)
          (one_shot_value dir alg key iv padding input w.errs)
  unfolding one_shot one_shot_value
  cipher_one_shot_lem room dir alg key iv padding input w fresh doc allowed =
      split (cipher_by_alg evp.build evp.sm4_gcm alg) refl (alg_is_aead alg) refl
        (evp.ctx_new w.errs).0 refl
    where
      split :
          (o : Option CipherId)
          → cipher_by_alg evp.build evp.sm4_gcm alg ≡ o
          → (aead : Bool) → alg_is_aead alg ≡ aead
          → (made : Option evp.Ctx) → (evp.ctx_new w.errs).0 ≡ made
          → Yields w.cell
              (one_shot evp room dir alg key iv padding input w)
              (one_shot_value dir alg key iv padding input w.errs)
      split none e aead ea made em = ground (arith, e)
      split (some c) e true ea made em = ground (arith, e, ea)
      split (some c) e false ea none em = ground (arith, e, ea, em)
      split (some c) e false ea (some h) em =
          let r = evp.init dir (some c) (some key) iv h (evp.ctx_new w.errs).1 in
          elim (Bool-cases (not r.0.0 || not (length key == evp.ctx_key_length r.0.1))) [
            | inl refused ↦
                refused-Yields room doc dir alg key iv padding input w fresh c e (allowed c e).0
                  (allowed c e).1 ea h em refused
            | inr accepted ↦
                started-Yields room doc dir alg key iv padding input w fresh c e (allowed c e).0
                  (allowed c e).1 ea h em (ground arith) (ground arith)
          ]
