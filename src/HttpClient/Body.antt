-- ===== src/HttpClient/Body.antt =====
-- The body of a response in even-http/ps/core/http_client.cc: how the blocks that come in are put
-- together.
use rpc.Common.{
  ℕ, zero, suc, ◌+◌, ◌-◌, ◌%◌, ◌≤◌, ◌<◌, ◌≡◌, refl, sym, ap, ◌∙◌, true, false, List, [], ◌∷◌, ◌++◌,
  length, take, drop, replicate, arith, length-take, length-drop, length-append, take-append-drop,
  append_assoc, length-replicate, append-nil, take-length_append,
}
use rpc.Common.Words.{u64_mod}
use native.Mathlib.Nat.{mod-eq_of_lt}
use rpc.TcpServer.{message_chunk_length}
use rpc.HttpMessageHandler.{
  Text, Headers, HttpMessageHandler, resize, resize_body, init_body_size, ok, ◌>>=◌,
  receive_message,
}
use rpc.HttpClient.{same_text, content_length, read_header_done_callback, read_chunk_loop, start}

abbrev zeros : ℕ → List ℕ
zeros n = replicate n 0

-- The handler with the body `got` in the front of a vector of `size` elements, the others 0.
abbrev pub holding : ℕ → List ℕ → HttpMessageHandler → HttpMessageHandler
holding size got h = record h {
  body = got ++ zeros (size - length got);
  has_storage = true;
  offset = length got;
}

drop-zeros : (n k : ℕ) → drop n (zeros k) ≡ zeros (k - n)
drop-zeros zero k = ground arith
drop-zeros (suc n) zero = ground arith
drop-zeros (suc n) (suc k) =
    let same : k - n ≡ suc k - suc n = omega arith in drop-zeros n k ∙ ap zeros same

drop-append_past : (xs ys : List ℕ) (n : ℕ) → drop (length xs + n) (xs ++ ys) ≡ drop n ys
drop-append_past [] ys n = let same : 0 + n ≡ n = omega arith in ap (λ m. drop m ys) same
drop-append_past (x ∷ xs) ys n =
    let same : suc (length xs) + n ≡ suc (length xs + n) = omega arith in
    ap (λ m. drop m (x ∷ (xs ++ ys))) same ∙ drop-append_past xs ys n

receive_message-holding :
    (size : ℕ) (got bytes : List ℕ) (h : HttpMessageHandler)
    → 0 < length bytes
    → length got + length bytes ≤ size
    → size < u64_mod
    → receive_message bytes (holding size got h) ≡ ok (holding size (got ++ bytes) h)
unfolding receive_message
receive_message-holding size got bytes h some_bytes fits small =
    let pad = zeros (size - length got) in
    let fill : size - length got - length bytes ≡ size - (length got + length bytes) =
      omega arith in
    let room : length got + length bytes ≤ length (got ++ pad) =
      omega (arith, length-append got pad, length-replicate {A = ℕ} (size - length got) 0) in
    let kept : drop (length got + length bytes) (got ++ pad)
        ≡ zeros (size - (length got + length bytes)) =
      drop-append_past got pad (length bytes)
      ∙ drop-zeros (length bytes) (size - length got)
      ∙ ap zeros fill in
    ground (
      arith,
      room,
      kept,
      length-append got bytes,
      take-length_append got pad,
      append_assoc got bytes (zeros (size - (length got + length bytes))),
      mod-eq_of_lt {n = length got + length bytes} {m = u64_mod},
    )

-- A block of bytes, 4096 at a time.
pub read_chunk_loop-holding :
    (fuel : ℕ) (input got : List ℕ) (size : ℕ) (h : HttpMessageHandler) (strtouq : Text → ℕ)
    → length input ≤ fuel
    → length got + length input ≤ size
    → size < u64_mod
    → read_chunk_loop strtouq fuel input (holding size got h) ≡ ok (holding size (got ++ input) h)
unfolding read_chunk_loop
read_chunk_loop-holding fuel [] got size h q l fits small =
    ap (λ g. ok (holding size g h)) (sym (append-nil got))
read_chunk_loop-holding zero (b ∷ bs) got size h q l fits small = absurd (omega arith)
read_chunk_loop-holding (suc fuel) (b ∷ bs) got size h q l fits small =
    let first = take message_chunk_length (b ∷ bs) in
    let rest = drop message_chunk_length (b ∷ bs) in
    let parts = length-take message_chunk_length (b ∷ bs) in
    let others = length-drop message_chunk_length (b ∷ bs) in
    let step = receive_message-holding size got first h (omega arith) (omega arith) small in
    let more =
      read_chunk_loop-holding fuel rest (got ++ first) size h q (omega arith)
        (omega (arith, length-append got first)) small in
    ap (λ r. r >>= λ h'. read_chunk_loop q fuel rest h') step
    ∙ more
    ∙ ap (λ g. ok (holding size g h))
        (append_assoc got first rest
          ∙ ap (got ++◌) (take-append-drop message_chunk_length (b ∷ bs)))

take-zeros : (n m : ℕ) → take n (zeros m) ++ zeros (n - m) ≡ zeros n
take-zeros zero m = let same : 0 - m ≡ 0 = omega arith in ap zeros same
take-zeros (suc n) zero = let same : suc n - 0 ≡ suc n = omega arith in ap zeros same
take-zeros (suc n) (suc m) =
    let same : suc n - suc m ≡ n - m = omega arith in
    ap (λ k. 0 ∷ (take n (zeros m) ++ zeros k)) same ∙ ap (◌∷◌ 0) (take-zeros n m)

-- No header is spelled like that of the length.
abbrev pub NoLength : Headers → Type 0
NoLength [] = Unit
NoLength ((key, value) ∷ headers) = (same_text key content_length ≡ false) × NoLength headers

module _ (q : Text → ℕ) where
  read_header_done_callback-append :
      (xs ys : Headers) (h : HttpMessageHandler)
      → read_header_done_callback q (xs ++ ys) h
        ≡ read_header_done_callback q ys (read_header_done_callback q xs h)
  unfolding read_header_done_callback
  read_header_done_callback-append [] ys h = refl
  read_header_done_callback-append ((key, value) ∷ xs) ys h =
      read_header_done_callback-append xs ys _

  pub read_header_done_callback_idle :
      (hs : Headers) (h : HttpMessageHandler) → NoLength hs → read_header_done_callback q hs h ≡ h
  unfolding read_header_done_callback
  read_header_done_callback_idle [] h none_there = refl
  read_header_done_callback_idle ((key, value) ∷ hs) h (other, others) =
      ground (arith, read_header_done_callback_idle hs h others)

  -- The vector is as long as announced, and one element more.
  pub read_header_done_callback-holding :
      (before after : Headers) (value : Text) (h : HttpMessageHandler)
      → NoLength before
      → NoLength after
      → q value + 1 < u64_mod
      → h.body ≡ []
      → h.offset ≡ 0
      → read_header_done_callback q (before ++ (content_length, value) ∷ after) h
        ≡ holding (q value + 1) [] (record h { content_len = q value })
  unfolding read_header_done_callback init_body_size resize_body resize same_text
  read_header_done_callback-holding before after value h none_before none_after small empty start =
      let announced : HttpMessageHandler = record h { content_len = q value % u64_mod } in
      read_header_done_callback-append before ((content_length, value) ∷ after) h
      ∙ ap (read_header_done_callback q ((content_length, value) ∷ after))
          (read_header_done_callback_idle before h none_before)
      ∙ read_header_done_callback_idle after (init_body_size announced) none_after
      ∙ ground (
        arith,
        mod-eq_of_lt {n = q value} {m = u64_mod},
        mod-eq_of_lt {n = q value + 1} {m = u64_mod},
        take-zeros (q value + 1) 0,
      )
