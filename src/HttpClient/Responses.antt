-- ===== src/HttpClient/Responses.antt =====
-- What `Get` and `Post` of even-http/ps/core/http_client.cc give back.
use rpc.Common.{
  concat, ℕ, ◌+◌, ◌-◌, ◌≤◌, ◌<◌, ◌≡◌, refl, if◌then◌else◌, ap, ◌∙◌, true, false, none, some, List,
  [], ◌∷◌, ◌++◌, map, length, take, replicate, arith, length-append, append_assoc, append-nil,
  take-length_append, length-take,
}
use rpc.Common.Words.{pos, u64_mod}
use rpc.TcpServer.{message_chunk_length}
use rpc.HttpMessageHandler.{
  Text, Headers, Uri, HttpMessageHandler, init, resize, ok, Fault, throws, outside_body,
  null_request, ◌>>=◌, receive_message,
}
use rpc.HttpClient.{
  content_length, Event, header_done, chunk_data, read, Exchange, freed_request, failed,
  read_chunk_loop, read_chunk_data_callback, read_callback, on_event, on_events, start, Libevent,
  create_request, init_request, get, post,
}
use rpc.HttpClient.Body.{
  holding, NoLength, read_chunk_loop-holding, read_header_done_callback-holding,
  read_header_done_callback_idle,
}

abbrev answered : HttpMessageHandler → List ℕ → Exchange
answered h body = record {
  handler = record h { body = body; has_storage = true };
  has_response = true;
}

resize-append : (got pad : List ℕ) → resize (length got) (got ++ pad) ≡ got
unfolding resize
resize-append got pad =
    let full : length got - length (got ++ pad) ≡ 0 = omega (arith, length-append got pad) in
    ap (λ k. take (length got) (got ++ pad) ++ replicate k 0) full
    ∙ append-nil (take (length got) (got ++ pad))
    ∙ take-length_append got pad

-- The blocks one after the other, and the end of the response.
on_events-chunks :
    (q : Text → ℕ) (cs : List (List ℕ)) (got : List ℕ) (size : ℕ) (h : HttpMessageHandler)
    → length (got ++ concat cs) ≤ size
    → size < u64_mod
    → on_events q true
        (map chunk_data cs ++ read (some (length (got ++ concat cs))) ∷ [])
        (record { handler = holding size got h; has_response = false })
      ≡ ok (answered (record h { offset = length (got ++ concat cs) }) (got ++ concat cs))
unfolding on_events on_event read_callback read_chunk_data_callback
on_events-chunks q [] got size h fits small = rw (append-nil got) (
    ap (λ b. ok (answered (record h { offset = length got }) b))
      (resize-append got (replicate (size - length got) 0)))
on_events-chunks q (c ∷ cs) got size h fits small =
    let whole = append_assoc got c (concat cs) in
    let room : length got + length c ≤ size =
      omega (arith, length-append got c, length-append (got ++ c) (concat cs), ap length whole) in
    let step = read_chunk_loop-holding (length c) c got size h q (omega arith) room small in
    let more = on_events-chunks q cs (got ++ c) size h (omega (arith, ap length whole)) small in
    ap
      (λ r. (r >>= λ h'. ok (record { handler = h'; has_response = false })) >>= λ x.
        on_events q true (map chunk_data cs ++ read (some (length (got ++ (c ++ concat cs)))) ∷ [])
          x)
      step
    ∙ rw (← whole) more

on_events-announced :
    (q : Text → ℕ) (before after : Headers) (value : Text) (cs : List (List ℕ))
    (h : HttpMessageHandler)
    → NoLength before
    → NoLength after
    → length (concat cs) ≤ q value
    → q value + 1 < u64_mod
    → h.body ≡ []
    → h.offset ≡ 0
    → on_events q true
        (header_done (before ++ (content_length, value) ∷ after)
          ∷ (map chunk_data cs ++ read (some (length (concat cs))) ∷ []))
        (record { handler = h; has_response = false })
      ≡ ok (answered (record h { content_len = q value; offset = length (concat cs) }) (concat cs))
unfolding on_events on_event
on_events-announced q before after value cs h none_before none_after fits small empty start =
    ap
      (λ k.
        on_events q true (map chunk_data cs ++ read (some (length (concat cs))) ∷ [])
          (record { handler = k; has_response = false }))
      (read_header_done_callback-holding q before after value h none_before none_after small empty
        start)
    ∙ on_events-chunks q cs [] (q value + 1) (record h { content_len = q value }) (omega arith)
        small

-- What becomes of a body for which there is no room.
abbrev pub unplaced : Libevent → Fault
unplaced p = if p.output_has_storage then outside_body else throws

module _ (p : Libevent) (url name : Text) (u : Uri) where
  abbrev pub Reaches : Type 0
  Reaches =
      (p.parse_uri url ≡ some u)
      × (u.host ≡ some name)
      × (p.connects ≡ true)
      × (p.adds_body ≡ true)
      × (p.adds_headers ≡ true)
      × (p.makes_request ≡ true)

  abbrev asking : HttpMessageHandler
  asking = record init { uri = some u; has_storage = p.output_has_storage }

  -- A request that libevent takes is the run of its events.
  get-create_request :
      Reaches → (get p url ≡ create_request p asking) × (post p url ≡ create_request p asking)
  unfolding get post init_request
  get-create_request (parsed, named, c, b, a, m) = ground arith

  -- When libevent takes the request, ends its loop well, and the response announces a length under
  -- exactly the name Content-Length and once, a body that is no longer is in `output` whole and in order,
  -- however it is cut into blocks, when the status is read, from a request that libevent has freed.
  pub get_body :
      (before after : Headers) (value : Text) (cs : List (List ℕ))
      → Reaches
      → p.exits_loop ≡ true
      → p.loop_result ≡ pos 0
      → p.events
        ≡ header_done (before ++ (content_length, value) ∷ after)
          ∷ (map chunk_data cs ++ read (some (length (concat cs))) ∷ [])
      → NoLength before
      → NoLength after
      → length (concat cs) ≤ p.strtouq value
      → p.strtouq value + 1 < u64_mod
      → (get p url ≡ freed_request (concat cs)) × (post p url ≡ freed_request (concat cs))
  unfolding create_request start
  get_body before after value cs reaches exits ended happens none_before none_after fits small =
      let (via_get, via_post) = get-create_request reaches in
      let (parsed, named, c, b, a, makes) = reaches in
      let begin : Exchange = record { handler = asking; has_response = false } in
      let run =
        on_events-announced p.strtouq before after value cs asking none_before none_after fits small
          refl refl in
      let whole =
        ap (λ e. on_events p.strtouq e p.events begin) exits
        ∙ ap (λ es. on_events p.strtouq true es begin) happens
        ∙ run in
      let result : create_request p asking ≡ freed_request (concat cs) = ground (arith, whole) in
      (via_get ∙ result, via_post ∙ result)

  -- When libevent takes the request and no header is spelled exactly Content-Length, the first block of
  -- the body is refused with an exception if the caller's vector never had storage, and is written
  -- behind the end of the vector, which has no elements, otherwise.
  pub get_unannounced :
      (hs : Headers) (b : ℕ) (bs : List ℕ) (es : List Event)
      → Reaches
      → NoLength hs
      → p.events ≡ header_done hs ∷ chunk_data (b ∷ bs) ∷ es
      → (get p url ≡ failed (unplaced p)) × (post p url ≡ failed (unplaced p))
  unfolding create_request on_events on_event read_chunk_data_callback read_chunk_loop
      receive_message
  get_unannounced hs b bs es reaches unannounced happens =
      let (via_get, via_post) = get-create_request reaches in
      let (parsed, named, c, d, a, makes) = reaches in
      let idle = read_header_done_callback_idle p.strtouq hs asking unannounced in
      let result : create_request p asking ≡ failed (unplaced p) =
        rw (makes, happens, idle) (ground (arith, length-take message_chunk_length (b ∷ bs))) in
      (via_get ∙ result, via_post ∙ result)

  -- When libevent reports a failure by a null request, that is dereferenced.
  pub get_null_request :
      (es : List Event) → Reaches → p.events ≡ read none ∷ es → get p url ≡ failed null_request
  unfolding create_request on_events on_event read_callback
  get_null_request es reaches happens =
      let (via_get, via_post) = get-create_request reaches in
      let (parsed, named, c, d, a, makes) = reaches in via_get ∙ rw (makes, happens) refl
