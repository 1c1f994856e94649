-- ===== src/TcpMessageHandler/Faults.antt =====
-- Headers that `ReceiveMessage` of even-http/ps/core/tcp_message_handler.cc does not check.
use rpc.Common.{ℕ, ◌<◌, ◌≡◌, sym, ap, ◌∙◌, List, ◌∷◌, ◌++◌, arith}
use rpc.Common.Words.{u32_mod}
use rpc.TcpMessageHandler.{
  header_len, MessageHeader, Handler, ok, fault, header_overflow, open_message, store_header,
  receive_message,
}
use rpc.TcpMessageHandler.Bytewise.{
  feed, feed_all, header_byte, feed_all-append, receive_message-feed_all,
}
use rpc.TcpMessageHandler.Sender.{header_bytes}
use rpc.TcpMessageHandler.Frames.{IsReady, feed_full_header, split_header, open_lem}

module _ {ℓ} {Meta : Type ℓ} (parse : List ℕ → Meta) where
  overflow :
      (k : Handler Meta) (b : ℕ) (rest : List ℕ)
      → k.remaining_length ≡ 0
      → k.header_index ≡ header_len
      → feed_all parse k (b ∷ rest) ≡ fault header_overflow
  unfolding feed_all feed header_byte store_header
  overflow k b rest e i = ground arith

  -- After a header that announces a message of length 0, received by a handler between two messages,
  -- the next byte of the stream is written one place past `header_`.
  pub empty_message_overflows :
      (h : Handler Meta) (protos meta_length b : ℕ) (rest : List ℕ)
      → IsReady h
      → protos < u32_mod
      → meta_length < u32_mod
      → let m : MessageHeader = record {
        message_proto = protos;
        message_meta_length = meta_length;
        message_length = 0;
      } in
        receive_message parse h (header_bytes m ++ b ∷ rest) ≡ fault header_overflow
  empty_message_overflows h protos meta_length b rest r p q =
      let m : MessageHeader = record {
        message_proto = protos;
        message_meta_length = meta_length;
        message_length = 0;
      } in
      let (bs, c, fifteen, whole) = split_header m in
      let start : Handler Meta = record h { header = header_bytes m; header_index = 16 } in
      let opened = open_message start in
      let (left, index) = open_lem m h p q (omega arith) in
      let fed : feed_all parse h (header_bytes m) ≡ ok opened =
        ap (feed_all parse h) whole
        ∙ (feed_full_header parse bs c h r fifteen
            ∙ ap (λ hb. ok (open_message (record h { header = hb; header_index = 16 })))
                (sym whole)) in
      receive_message-feed_all parse h (header_bytes m ++ b ∷ rest)
      ∙ (feed_all-append parse (header_bytes m) (b ∷ rest) h
          ∙ (rw fed (overflow opened b rest left index)))
