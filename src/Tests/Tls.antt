-- ===== src/Tests/Tls.antt =====
-- The TLS model: ALPN lists, key log buffers, and a toy SSL whose handshake takes two rounds.
mod MemBio
mod MemBioServer
mod New
use openssl_wasm.Common.{
  ℕ, ◌≡◌, refl, Bool, Option, true, false, none, some, length, take, List, [], ◌∷◌, arith,
}
use openssl_wasm.Memory.{World, Run, done, abort, fault, and_then}
use openssl_wasm.Memory.Contract.{contents, IsFresh, Returns}
use openssl_wasm.Tls.Structs.{KeylogBuf, TlsStruct}
use openssl_wasm.Tls.Alpn.{alpn_wire, alpn_loop, scan_length}
use openssl_wasm.Tls.Alpn.Wire.{wire, wire_value, Writes, read_wire, alpn_wire_lem}
use openssl_wasm.Tls.Alpn.Scan.{until_empty, scan_length_lem, alpn_wire_reads}
use openssl_wasm.Tls.Keylog.{keylog_buf_init, keylog_buf_clear, keylog_buf_drain_to}
use openssl_wasm.Tls.Keylog.Append.{append_all}
use openssl_wasm.Tls.Keylog.Drained.{Drained}
use openssl_wasm.Tls.Keylog.Drain.{keylog_buf_drain_to_lem}
use openssl_wasm.Tls.Keylog.Clear.{keylog_buf_clear_lem}
use openssl_wasm.Tests.World.{enough_room, empty_world, empty_world-IsFresh}

-- "h2" and "http/1.1"
abbrev two_names : List (List ℕ)
two_names = (104 ∷ 50 ∷ []) ∷ (104 ∷ 116 ∷ 116 ∷ 112 ∷ 47 ∷ 49 ∷ 46 ∷ 49 ∷ []) ∷ []

abbrev two_wire : List ℕ
two_wire = 2 ∷ 104 ∷ 50 ∷ 8 ∷ 104 ∷ 116 ∷ 116 ∷ 112 ∷ 47 ∷ 49 ∷ 46 ∷ 49 ∷ []

abbrev clean_world : World ⊥ TlsStruct
clean_world = empty_world

alpn_wire_lem_example :
    Writes clean_world (alpn_wire enough_room (some two_names) clean_world) (some two_wire)
    × Writes clean_world (alpn_wire enough_room none clean_world) none
alpn_wire_lem_example = alpn_wire_lem enough_room two_names clean_world empty_world-IsFresh refl

-- An empty name between the two.
abbrev gap_names : List (List ℕ)
gap_names = (104 ∷ 50 ∷ []) ∷ [] ∷ (120 ∷ []) ∷ []

scan_length_lem_example :
    (scan_length (2 ∷ 104 ∷ 50 ∷ 0 ∷ 1 ∷ 120 ∷ 0 ∷ []) ≡ some 3)
    × (take 3 (2 ∷ 104 ∷ 50 ∷ 0 ∷ 1 ∷ 120 ∷ []) ≡ wire ((104 ∷ 50 ∷ []) ∷ []))
scan_length_lem_example = scan_length_lem gap_names (2 ∷ 104 ∷ 50 ∷ 0 ∷ 1 ∷ 120 ∷ []) refl

abbrev world_of : {A : Type 0} → Run ⊥ TlsStruct A → World ⊥ TlsStruct
world_of (done a w) = w
world_of abort = empty_world
world_of fault = empty_world

two_written :
    alpn_wire enough_room (some two_names) clean_world
    ≡ done (1, 12) (world_of (alpn_wire enough_room (some two_names) clean_world))
unfolding alpn_wire
two_written = refl

two_held :
    contents ((world_of (alpn_wire enough_room (some two_names) clean_world)).cell 1)
    ≡ some two_wire
unfolding alpn_wire
two_held = refl

alpn_wire_reads_example : read_wire 12 two_wire ≡ some two_names
alpn_wire_reads_example =
    alpn_wire_reads enough_room two_names clean_world
      (world_of (alpn_wire enough_room (some two_names) clean_world)) 1 12 two_wire
      empty_world-IsFresh refl two_written refl two_held

abbrev two_lines : List (List ℕ)
two_lines = (67 ∷ 32 ∷ 49 ∷ []) ∷ (67 ∷ 32 ∷ 50 ∷ 51 ∷ []) ∷ []

keylog_buf_drain_to_lem_example :
    Drained clean_world.cell
      (and_then
        (append_all enough_room keylog_buf_init two_lines clean_world)
        (keylog_buf_drain_to enough_room))
      two_lines
      []
keylog_buf_drain_to_lem_example =
    keylog_buf_drain_to_lem enough_room (λ n. refl) two_lines clean_world empty_world-IsFresh
      (omega arith) refl

keylog_buf_clear_lem_example :
    Returns clean_world.cell
      (and_then (append_all enough_room keylog_buf_init two_lines clean_world) keylog_buf_clear)
      (keylog_buf_init, [])
keylog_buf_clear_lem_example =
    keylog_buf_clear_lem enough_room (λ n. refl) two_lines clean_world empty_world-IsFresh
      (omega arith)
