-- ===== src/Tls/Alpn.antt =====
-- The ALPN protocol lists of src/tls.c: the wire format that alpn_wire writes, and the scan of it in
-- alpn_select_cb.
pub mod Wire
pub mod Scan
pub mod Next
use openssl_wasm.Common.{
  ℕ, zero, suc, ◌+◌, ltb, ◌==◌, if◌then◌else◌, Bool, Option, none, some, List, [], ◌∷◌, ◌++◌,
  length, get_elem?,
}
use openssl_wasm.Memory.{Cmd, Ptr, null, ◌>>=◌, ◌>>◌, pure, xmalloc, free, write_at, at_least_one}

-- The bytes that the first loop of alpn_wire counts.
abbrev pub alpn_total : List (List ℕ) → ℕ
alpn_total [] = 0
alpn_total (p ∷ ps) = 1 + length p + alpn_total ps

module _ {O R : Type 0} where
  -- The second loop of alpn_wire, at the offset `o`; a name that is too long gives the buffer back.
  pub alpn_loop : Ptr → ℕ → List (List ℕ) → Cmd O R Bool
  alpn_loop buf o [] = pure Bool.true
  alpn_loop buf o (p ∷ ps) =
      let rest = alpn_loop buf (o + 1 + length p) ps in
      if ltb 255 (length p)
      then (do free buf; pure Bool.false)
      else (do write_at buf o (length p ∷ []); write_at buf (o + 1) p; rest)

  -- alpn_wire: the pointer and `*out_len`.
  unfoldable pub alpn_wire : (ℕ → Bool) → Option (List (List ℕ)) → Cmd O R (Ptr × ℕ)
  unfolding alpn_loop
  alpn_wire room none = pure (null, 0)
  alpn_wire room (some ps) = do
    buf ← xmalloc room (at_least_one (alpn_total ps))
    fits ← alpn_loop buf 0 ps
    pure (if fits then (buf, alpn_total ps) else (null, 0))

-- The loop of alpn_select_cb over `server_list`, on fuel: where it stops. Nothing if it reads past
-- the end of the list, or the fuel is out.
unfoldable pub scan_list : ℕ → List ℕ → ℕ → Option ℕ
scan_list zero server_list slen = none
scan_list (suc fuel) server_list slen = elim (get_elem? server_list slen) [
  | none ↦ none
  | some n ↦ if n == 0 then some slen else scan_list fuel server_list (slen + 1 + n)
]

-- The `slen` of alpn_select_cb. Every step passes a byte, so the list's length is fuel enough.
unfoldable pub scan_length : List ℕ → Option ℕ
unfolding scan_list
scan_length server_list = scan_list (length server_list) server_list 0
