-- ===== src/TcpClient/CommMessages.antt =====
-- What a handler of even-http/ps/core/tcp_message_handler.cc makes of a CommMessage from
-- even-http/ps/core/tcp_client.cc.
use rpc.Common.{
  ℕ, ◌+◌, ◌^◌, ◌<◌, ◌≡◌, refl, sym, ap, ◌∙◌, Bool, true, some, List, [], ◌++◌, length, arith,
  append_assoc, length-append,
}
use rpc.Common.Words.{to_int32, u32_mod}
use rpc.Convert.{size_to_uint, int_to_uint}
use native.Mathlib.Nat.{mod-eq_of_lt}
use rpc.TcpMessageHandler.{MessageHeader, Handler, ok, open_message, receive_message}
use rpc.TcpMessageHandler.Bytewise.{
  feed_all, feed_all-append, feed_all-part, absorb, receive_message-feed_all,
}
use rpc.TcpMessageHandler.Sender.{header_bytes, write_block}
use rpc.TcpMessageHandler.Frames.{IsReady, feed_full_header, open_lem, split_header}
use rpc.TcpClient.{send_comm_message}

-- What is written when libevent takes every block.
send_comm_message_lem :
    (writes : List ℕ → Bool) (byte_size : ℕ) (mb bytes output : List ℕ)
    → ((block : List ℕ) → writes block ≡ true)
    → byte_size < 2 ^ 31
    → length mb < u32_mod
    → send_comm_message writes byte_size mb bytes output
      ≡ some (
        output
            ++ (header_bytes (record {
              message_proto = 1;
              message_meta_length = length mb;
              message_length = byte_size;
            })
                ++ (mb ++ bytes)),
        true,
      )
unfolding send_comm_message write_block to_int32 int_to_uint size_to_uint
send_comm_message_lem writes byte_size mb bytes output all small fits =
    let h : List ℕ =
      header_bytes (record {
        message_proto = 1;
        message_meta_length = length mb;
        message_length = byte_size;
      }) in
    ground (
      arith,
      mod-eq_of_lt {n = byte_size} {m = u32_mod},
      all h,
      all mb,
      all bytes,
      append_assoc output h mb,
      append_assoc (output ++ h) mb bytes,
      append_assoc output h (mb ++ bytes),
      append_assoc h mb bytes,
    )

module _ {ℓ} {Meta : Type ℓ} (parse : List ℕ → Meta) where
  header_fed :
      (m : MessageHeader) (h : Handler Meta)
      → IsReady h
      → feed_all parse h (header_bytes m)
        ≡ ok (open_message (record h { header = header_bytes m; header_index = 16 }))
  header_fed m h r =
      let (bs, b, fifteen, whole) = split_header m in
      ap (feed_all parse h) whole
      ∙ feed_full_header parse bs b h r fifteen
      ∙ ap (λ hb. ok (open_message (record h { header = hb; header_index = 16 }))) (sym whole)

  -- A CommMessage whose meta and data are fewer bytes than the whole, as protobuf writes it, once
  -- sent and received by a handler between two messages, delivers nothing: the handler waits for as
  -- many bytes more as the meta and the data are fewer.
  pub send_comm_message_stuck :
      (writes : List ℕ → Bool) (byte_size : ℕ) (mb bytes : List ℕ) (h : Handler Meta)
      → ((block : List ℕ) → writes block ≡ true)
      → byte_size < 2 ^ 31
      → length mb < u32_mod
      → length bytes + length mb < byte_size
      → IsReady h
      → (sent : List ℕ) × (h' : Handler Meta) × (send_comm_message writes byte_size mb bytes []
          ≡ some (sent, true))
        × (receive_message parse h sent ≡ ok h')
        × (h'.delivered ≡ h.delivered)
        × (h'.remaining_length + (length bytes + length mb) ≡ byte_size)
  unfolding open_message
  send_comm_message_stuck writes byte_size mb bytes h all small fits fewer r =
      let m : MessageHeader = record {
        message_proto = 1;
        message_meta_length = length mb;
        message_length = byte_size;
      } in
      let opened = open_message (record h { header = header_bytes m; header_index = 16 }) in
      let body = mb ++ bytes in
      let (left, _) = open_lem m h (ground arith) fits (omega arith) in
      let size = length-append mb bytes in
      let part = feed_all-part parse body opened (omega (arith, left, size)) in
      (
        header_bytes m ++ body,
        absorb parse opened body,
        send_comm_message_lem writes byte_size mb bytes [] all small fits,
        receive_message-feed_all parse h (header_bytes m ++ body)
            ∙ feed_all-append parse (header_bytes m) body h
            ∙ rw (header_fed m h r) part,
        refl,
        omega (arith, left, size),
      )
