-- ===== src/TcpMessageHandler/Sender.antt =====
-- The sending side of a stream: `SendMessage(meta, protos, data, size)` of
-- even-http/ps/core/tcp_client.cc and of `TcpConnection` in even-http/ps/core/tcp_server.cc, which
-- write the same three blocks. `serialize` is protobuf's SerializeAsString, and `writes` says whether
-- libevent's bufferevent_write takes a block. The null checks are not modelled: here no pointer is.
use rpc.Common.{
  ℕ, zero, suc, ◌+◌, ◌%◌, ◌/◌, ◌<◌, ◌≡◌, Bool, true, false, Option, none, some, List, [], ◌∷◌, ◌++◌,
  length, append_assoc, if◌then◌else◌, arith,
}
use rpc.Common.Words.{u32_mod, u64_mod}
use rpc.Convert.{size_to_uint}
use native.Mathlib.Nat.{mod-eq_of_lt}
use rpc.TcpMessageHandler.{MessageHeader}

-- A word as the host holds it in memory, in `n` bytes.
unfoldable pub to_le : ℕ → ℕ → List ℕ
to_le zero x = []
to_le (suc n) x = (x % 256) ∷ to_le n (x / 256)

-- The 16 bytes of the struct: two words of 4 bytes and one of 8, with no padding.
unfoldable pub header_bytes : MessageHeader → List ℕ
header_bytes h =
    to_le 4 h.message_proto ++ to_le 4 h.message_meta_length ++ to_le 8 h.message_length

-- One call of bufferevent_write, and what its failure does to the result.
unfoldable pub write_block : (List ℕ → Bool) → List ℕ → List ℕ × Bool → List ℕ × Bool
write_block writes block (output, res) =
    if writes block then (output ++ block, res) else (output, false)

module _ {ℓ} {Meta : Type ℓ} (serialize : Meta → List ℕ) (writes : List ℕ → Bool) where
  -- What the output buffer holds afterwards and the result, or `none` if SizeToUint throws.
  pub send_message : Meta → ℕ → List ℕ → List ℕ → Option (List ℕ × Bool)
  unfolding write_block
  send_message meta protos payload output = elim (size_to_uint (length (serialize meta))) [
    | none ↦ none
    | some meta_length ↦
        let header : MessageHeader = record {
          message_proto = protos;
          message_meta_length = meta_length;
          message_length = (length payload + meta_length) % u64_mod;
        } in
        some (
          write_block writes payload (
            write_block writes (serialize meta)
              (write_block writes (header_bytes header) (output, true))))
  ]

-- A frame: the header, the meta and the payload.
unfoldable pub frame : ℕ → List ℕ → List ℕ → List ℕ
frame protos meta payload =
    header_bytes (record {
      message_proto = protos;
      message_meta_length = length meta;
      message_length = length payload + length meta;
    })
    ++ (meta ++ payload)

module _ {ℓ} {Meta : Type ℓ} (serialize : Meta → List ℕ) (writes : List ℕ → Bool) where
  -- For a message whose length fits its field and whose meta fits a uint32_t: there is a result; if
  -- it is true, then one whole frame is appended to the output; and it is true if libevent takes
  -- every block.
  pub send_message-frame :
      (meta : Meta) (protos : ℕ) (payload output : List ℕ)
      → length (serialize meta) < u32_mod
      → length payload + length (serialize meta) < u64_mod
      → (output' : List ℕ) × (res : Bool) × (send_message serialize writes meta protos payload
            output
          ≡ some (output', res))
        × (res ≡ true → output' ≡ output ++ frame protos (serialize meta) payload)
        × (((block : List ℕ) → writes block ≡ true) → res ≡ true)
  unfolding send_message frame size_to_uint
  send_message-frame meta protos payload output small fits =
      let m = serialize meta in
      let n = length payload + length m in
      let header : List ℕ = header_bytes (record {
        message_proto = protos;
        message_meta_length = length m;
        message_length = n % u64_mod;
      }) in
      let out =
        write_block writes payload
          (write_block writes m (write_block writes header (output, true))) in
      let same = mod-eq_of_lt {n = n} {m = u64_mod} fits in
      (
        out.0,
        out.1,
        ground arith,
        rw same (all_sent _ m payload output),
        λ all. ground (arith, all header, all m, all payload),
      )
    where
      all_sent :
          (a b c output : List ℕ)
          → (write_block writes c (write_block writes b (write_block writes a (output, true)))).1
            ≡ true
          → (write_block writes c (write_block writes b (write_block writes a (output, true)))).0
            ≡ output ++ (a ++ (b ++ c))
      all_sent a b c output e = ground (
        arith,
        append_assoc output a b,
        append_assoc (output ++ a) b c,
        append_assoc output a (b ++ c),
      )
