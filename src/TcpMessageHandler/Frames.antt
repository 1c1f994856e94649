-- ===== src/TcpMessageHandler/Frames.antt =====
-- One frame, byte by byte, through `ReceiveMessage` of even-http/ps/core/tcp_message_handler.cc.
use rpc.Common.{
  ℕ, ◌+◌, ◌%◌, ◌/◌, ◌<◌, ◌≡◌, refl, ap, subst, ◌∙◌, true, List, [], ◌∷◌, ◌++◌, length, take,
  replicate, arith, length-append, length-replicate, take-length_append, drop-length_append,
}
use rpc.Common.Words.{u32_mod, u64_mod}
use rpc.TcpMessageHandler.{
  header_len, MessageHeader, Handler, ok, write_at, open_message, store_header, deliver,
  receive_message, init,
}
use rpc.TcpMessageHandler.Bytewise.{
  feed, feed_all, feed_all-append, feed_all-whole, header_byte, receive_message-feed_all,
}
use rpc.TcpMessageHandler.Sender.{to_le, header_bytes, frame}
use rpc.TcpMessageHandler.Memory.{read_le-to_le, write_at_whole, write_at_snoc}

module _ {ℓ} {Meta : Type ℓ} (parse : List ℕ → Meta) where
  -- All but the last byte of a header.
  feed_header :
      (bs : List ℕ) (h : Handler Meta)
      → h.remaining_length ≡ 0
      → h.header_index + length bs < header_len
      → feed_all parse h bs
        ≡ ok (record h {
          header = write_at h.header h.header_index bs;
          header_index = h.header_index + length bs;
        })
  unfolding feed_all feed header_byte store_header write_at
  feed_header [] h e l = ground arith
  feed_header (b ∷ bs) h e l = ground (arith, feed_header bs (store_header b h) e)

-- Between two messages, with a callback to give them to.
pub record IsReady {ℓ} {Meta : Type ℓ} (h : Handler Meta) : Type 0 where
  pub listening : h.has_callback ≡ true
  pub nothing_left : h.remaining_length ≡ 0
  pub no_header : h.header_index ≡ 0
  pub no_body : h.last_copy_len ≡ 0
  pub sixteen : length h.header ≡ header_len

pub init-IsReady {ℓ} : {Meta : Type ℓ} → IsReady (init {Meta = Meta} true)
init-IsReady = record {
  listening = refl;
  nothing_left = refl;
  no_header = refl;
  no_body = refl;
  sixteen = refl;
}

module _ {ℓ} {Meta : Type ℓ} (parse : List ℕ → Meta) where
  -- The whole header.
  pub feed_full_header :
      (bs : List ℕ) (b : ℕ) (h : Handler Meta)
      → IsReady h
      → length bs ≡ 15
      → feed_all parse h (bs ++ b ∷ [])
        ≡ ok (open_message (record h { header = bs ++ b ∷ []; header_index = 16 }))
  unfolding feed_all feed header_byte store_header
  feed_full_header bs b h r l =
      feed_all-append parse bs (b ∷ []) h
      ∙ (rw (feed_header parse bs h r.nothing_left (omega (arith, r.no_header))) last)
    where
      k : Handler Meta
      k = record h {
        header = write_at h.header h.header_index bs;
        header_index = h.header_index + length bs;
      }

      last :
          feed_all parse k (b ∷ [])
          ≡ ok (open_message (record h { header = bs ++ b ∷ []; header_index = 16 }))
      last =
          let hb = bs ++ b ∷ [] in
          let full : length hb ≡ length h.header =
            omega (arith, length-append bs (b ∷ []), r.sixteen) in
          ground (
            arith,
            r.nothing_left,
            r.no_header,
            write_at_snoc bs h.header 0 b,
            write_at_whole hb h.header full,
          )

  -- The whole body.
  feed_body :
      (h : Handler Meta) (mb payload : List ℕ)
      → h.has_callback ≡ true
      → h.remaining_length ≡ length payload + length mb
      → h.message_header.message_meta_length ≡ length mb
      → h.message_header.message_length ≡ length payload + length mb
      → h.last_copy_len ≡ 0
      → h.message_buffer ≡ replicate (length payload + length mb) 0
      → 0 < length payload + length mb
      → feed_all parse h (mb ++ payload)
        ≡ ok (record h {
          remaining_length = 0;
          header_index = 0;
          last_copy_len = 0;
          message_buffer = [];
          delivered =
              h.delivered
              ++ record {
                meta = parse mb;
                protos = h.message_header.message_proto;
                payload = payload;
              }
                ∷ [];
        })
  unfolding deliver
  feed_body h mb payload cb rem ml len last buffer some_bytes =
      let body = mb ++ payload in
      let n = length payload + length mb in
      let sum = length-append mb payload in
      let written : write_at (replicate n 0) 0 body ≡ body =
        write_at_whole body (replicate n 0) (omega (arith, sum, length-replicate {A = ℕ} n 0)) in
      feed_all-whole parse body h (omega arith) (omega (arith, sum))
      ∙ ground (arith, sum, written, take-length_append mb payload, drop-length_append mb payload)

-- What fits the three fields of a header, with at least one byte of body.
pub record Fits (protos : ℕ) (mb payload : List ℕ) : Type 0 where
  pub small_proto : protos < u32_mod
  pub small_meta : length mb < u32_mod
  pub small_total : length payload + length mb < u64_mod
  pub some_bytes : 0 < length payload + length mb

-- The header read back.
module _ {ℓ} {Meta : Type ℓ} where
  pub open_lem :
      (m : MessageHeader) (h : Handler Meta)
      → m.message_proto < u32_mod
      → m.message_meta_length < u32_mod
      → m.message_length < u64_mod
      → let opened = open_message (record h { header = header_bytes m; header_index = 16 }) in
        (opened.remaining_length ≡ m.message_length) × (opened.header_index ≡ header_len)
  unfolding open_message header_bytes to_le
  open_lem m h p q r = (read_le-to_le 8 m.message_length r, refl)

pub split_header :
    (m : MessageHeader)
    → (bs : List ℕ) × (b : ℕ) × (length bs ≡ 15) × (header_bytes m ≡ bs ++ b ∷ [])
unfolding header_bytes to_le
split_header m = (
  take 15 (header_bytes m),
  m.message_length / 256 / 256 / 256 / 256 / 256 / 256 / 256 % 256,
  refl,
  refl,
)

module _ {ℓ} {Meta : Type ℓ} (parse : List ℕ → Meta) where
  -- The header read back.
  open_header :
      (protos : ℕ) (mb payload : List ℕ) (h : Handler Meta)
      → Fits protos mb payload
      → let n = length payload + length mb in
        let m : MessageHeader = record {
          message_proto = protos;
          message_meta_length = length mb;
          message_length = n;
        } in
        open_message (record h { header = header_bytes m; header_index = 16 }) ≡ record h {
          header = header_bytes m;
          header_index = 16;
          message_header = m;
          remaining_length = n;
          message_buffer = replicate n 0;
        }
  unfolding open_message header_bytes to_le
  open_header protos mb payload h f =
      let n = length payload + length mb in
      rw (
        read_le-to_le 4 protos f.small_proto,
        read_le-to_le 4 (length mb) f.small_meta,
        read_le-to_le 8 n f.small_total,
      )

  -- One frame, in one call.
  pub frame_received :
      (protos : ℕ) (mb payload : List ℕ) (h : Handler Meta)
      → IsReady h
      → Fits protos mb payload
      → (h' : Handler Meta) × (receive_message parse h (frame protos mb payload) ≡ ok h')
        × IsReady h'
        × (h'.delivered
            ≡ h.delivered ++ record { meta = parse mb; protos = protos; payload = payload } ∷ [])
  unfolding frame header_bytes to_le
  frame_received protos mb payload h r f =
      let n = length payload + length mb in
      let m : MessageHeader = record {
        message_proto = protos;
        message_meta_length = length mb;
        message_length = n;
      } in
      let opened : Handler Meta = record h {
        header = header_bytes m;
        header_index = 16;
        message_header = m;
        remaining_length = n;
        message_buffer = replicate n 0;
      } in
      let done : Handler Meta = record opened {
        remaining_length = 0;
        header_index = 0;
        last_copy_len = 0;
        message_buffer = [];
        delivered =
            h.delivered ++ record { meta = parse mb; protos = protos; payload = payload } ∷ [];
      } in
      let (bs, b, fifteen, whole) = split_header m in
      let opening : open_message (record h { header = header_bytes m; header_index = 16 })
          ≡ opened =
        open_header protos mb payload h f in
      let opening' : open_message (record h { header = bs ++ b ∷ []; header_index = 16 }) ≡ opened =
        subst (λ hb. open_message (record h { header = hb; header_index = 16 }) ≡ opened) whole
          opening in
      let header_fed : feed_all parse h (header_bytes m) ≡ ok opened =
        ap (feed_all parse h) whole ∙ (feed_full_header parse bs b h r fifteen ∙ ap ok opening') in
      let body_fed : feed_all parse opened (mb ++ payload) ≡ ok done =
        feed_body parse opened mb payload r.listening refl refl refl r.no_body refl f.some_bytes in
      (
        done,
        receive_message-feed_all parse h (header_bytes m ++ (mb ++ payload))
            ∙ (feed_all-append parse (header_bytes m) (mb ++ payload) h ∙ rw header_fed body_fed),
        record {
          listening = r.listening;
          nothing_left = refl;
          no_header = refl;
          no_body = refl;
          sixteen = refl;
        },
        refl,
      )
