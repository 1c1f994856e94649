-- ===== src/TcpMessageHandler/RoundTrip.antt =====
-- What `SendMessage` writes, `ReceiveMessage` of even-http/ps/core/tcp_message_handler.cc reads.
use rpc.Common.{concat, ℕ, ◌≡◌, sym, ◌∙◌, List, [], ◌∷◌, ◌++◌, append-nil, append_assoc}
use rpc.TcpMessageHandler.{Message, Handler, Outcome, ok, ◌>>=◌, receive_message}
use rpc.TcpMessageHandler.Bytewise.{
  bind_congr, feed_all, receive_message-feed_all, receive_message-append,
}
use rpc.TcpMessageHandler.Sender.{frame}
use rpc.TcpMessageHandler.Frames.{IsReady, Fits, frame_received}

module _ {ℓ} {Meta : Type ℓ} (serialize : Meta → List ℕ) (parse : List ℕ → Meta) where
  abbrev pub stream : List (Message Meta) → List ℕ
  stream [] = []
  stream (m ∷ ms) = frame m.protos (serialize m.meta) m.payload ++ stream ms

  abbrev pub AllFit : List (Message Meta) → Type 0
  AllFit [] = Unit
  AllFit (m ∷ ms) = Fits m.protos (serialize m.meta) m.payload × AllFit ms

  -- The reads of a connection, one after the other.
  unfoldable pub receive_all : Handler Meta → List (List ℕ) → Outcome (Handler Meta)
  receive_all h [] = ok h
  receive_all h (c ∷ cs) = receive_message parse h c >>= λ h'. receive_all h' cs

  receive_all-concat :
      (cs : List (List ℕ)) (h : Handler Meta)
      → receive_all h cs ≡ receive_message parse h (concat cs)
  unfolding receive_all feed_all
  receive_all-concat [] h = sym (receive_message-feed_all parse h [])
  receive_all-concat (c ∷ cs) h =
      bind_congr (receive_message parse h c) (λ k. receive_all k cs)
        (λ k. receive_message parse k (concat cs)) (receive_all-concat cs)
      ∙ sym (receive_message-append parse h c (concat cs))

  stream_received :
      ((m : Meta) → parse (serialize m) ≡ m)
      → (ms : List (Message Meta)) (h : Handler Meta) → IsReady h
      → AllFit ms
      → (h' : Handler Meta) × (receive_message parse h (stream ms) ≡ ok h')
        × IsReady h'
        × (h'.delivered ≡ h.delivered ++ ms)
  unfolding feed_all
  stream_received inverse [] h r f =
      (h, receive_message-feed_all parse h [], r, sym (append-nil h.delivered))
  stream_received inverse (m ∷ ms) h r (f, fs) =
      let (k, got, ready, log) = frame_received parse m.protos (serialize m.meta) m.payload h r f in
      let (h', rest, ready', log') = stream_received inverse ms k ready fs in
      (
        h',
        receive_message-append parse h (frame m.protos (serialize m.meta) m.payload) (stream ms)
            ∙ rw got rest,
        ready',
        log' ∙ (rw log (rw (inverse m.meta) (append_assoc h.delivered (m ∷ []) ms))),
      )

  -- Messages that fit their headers, written one after the other and cut into reads anywhere, come
  -- out of a listening handler whole, in order and nothing else, and leave it ready for more, if
  -- protobuf's parser inverts its serializer.
  pub receive_all-stream :
      ((m : Meta) → parse (serialize m) ≡ m)
      → (ms : List (Message Meta)) (cs : List (List ℕ)) (h : Handler Meta) → concat cs ≡ stream ms
      → IsReady h
      → AllFit ms
      → (h' : Handler Meta) × (receive_all h cs ≡ ok h')
        × IsReady h'
        × (h'.delivered ≡ h.delivered ++ ms)
  receive_all-stream inverse ms cs h cut r f =
      let (h', got, ready, log) = stream_received inverse ms h r f in
      (h', receive_all-concat cs h ∙ (rw cut got), ready, log)
