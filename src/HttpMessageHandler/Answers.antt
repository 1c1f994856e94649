-- ===== src/HttpMessageHandler/Answers.antt =====
-- The response that even-http/ps/core/http_message_handler.cc sends.
use rpc.Common.{
  ℕ, ◌≡◌, sym, ap, ◌∙◌, Bool, true, false, some, List, [], ◌∷◌, ◌++◌, map, arith, append-nil,
  append_assoc,
}
use rpc.HttpMessageHandler.{
  Text, Headers, Request, reply, HttpMessageHandler, c_str, add_resp_head_param, add_resp_values,
  add_resp_headers, add_resp_string, send_response, simple_response,
}

-- One header for each value, each text up to its first null character.
abbrev pub lines : List (Text × List Text) → Headers
lines [] = []
lines ((key, vals) ∷ headers) = map (λ v. (c_str key, c_str v)) vals ++ lines headers

abbrev with_headers : Headers → HttpMessageHandler → HttpMessageHandler
with_headers hs h = record h { resp_headers = some hs }

module _ (adds_header : Text → Text → Bool) (takes : (k v : Text) → adds_header k v ≡ true) where
  add_resp_values_lem :
      (key : Text) (vals : List Text) (hs : Headers) (h : HttpMessageHandler)
      → add_resp_values adds_header key vals (with_headers hs h)
        ≡ (with_headers (hs ++ map (λ v. (c_str key, c_str v)) vals) h, false)
  unfolding add_resp_values add_resp_head_param
  add_resp_values_lem key [] hs h = ap (λ k. (with_headers k h, false)) (sym (append-nil hs))
  add_resp_values_lem key (v ∷ vals) hs h =
      let more = add_resp_values_lem key vals (hs ++ (c_str key, c_str v) ∷ []) h in
      ground (
        arith,
        takes (c_str key) (c_str v),
        more,
        append_assoc hs ((c_str key, c_str v) ∷ []) (map (λ w. (c_str key, c_str w)) vals),
      )

  add_resp_headers_lem :
      (headers : List (Text × List Text)) (hs : Headers) (h : HttpMessageHandler)
      → add_resp_headers adds_header headers (with_headers hs h)
        ≡ (with_headers (hs ++ lines headers) h, false)
  unfolding add_resp_headers
  add_resp_headers_lem [] hs h = ap (λ k. (with_headers k h, false)) (sym (append-nil hs))
  add_resp_headers_lem ((key, vals) ∷ headers) hs h =
      let more = add_resp_headers_lem headers (hs ++ map (λ v. (c_str key, c_str v)) vals) h in
      ground (
        arith,
        add_resp_values_lem key vals hs h,
        more,
        append_assoc hs (map (λ v. (c_str key, c_str v)) vals) (lines headers),
      )

  -- On a request whose response is set up, and if libevent takes every header and the body,
  -- `SimpleResponse` sends one reply: a header for each value of each key, in order, behind those that
  -- were there, and the body behind what was there; keys, values and the body go up to their first
  -- null character. Its code is the one set before, 200
  -- at first, whatever code the call is given.
  pub simple_response_lem :
      (adds_bytes : List ℕ → Bool) (code : ℕ) (headers : List (Text × List Text)) (str : Text)
      (hs : Headers) (buf : List ℕ) (r : Request) (h : HttpMessageHandler)
      → h.request ≡ some r
      → h.resp_headers ≡ some hs
      → h.resp_buf ≡ some buf
      → adds_bytes (c_str str) ≡ true
      → simple_response adds_header adds_bytes code headers str h ≡ (
        record h {
          resp_headers = some (hs ++ lines headers);
          resp_buf = some [];
          replies = h.replies ++ reply h.resp_code (hs ++ lines headers) (buf ++ c_str str) ∷ [];
        },
        false,
      )
  unfolding simple_response add_resp_string send_response
  simple_response_lem adds_bytes code headers str hs buf r h asked begun body taken =
      let all = add_resp_headers_lem headers hs h in
      let same : with_headers hs h ≡ h = ground arith in
      let added : add_resp_headers adds_header headers h
          ≡ (with_headers (hs ++ lines headers) h, false) =
        ap (add_resp_headers adds_header headers) (sym same) ∙ all in
      ground (arith, added)
