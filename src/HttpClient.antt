-- ===== src/HttpClient.antt =====
-- even-http/ps/core/http_client.h and .cc: a request and what libevent calls back while its loop
-- runs, in `events`. Of libevent are `parse_uri` (evhttp_uri_parse), whether the connection, the
-- buffer, the headers and the request are taken, `strtouq`, and the result of the loop. A
-- response is known by its body_size.
pub mod Body
pub mod Responses
use rpc.Common.{
  ℕ, zero, suc, ◌+◌, ◌%◌, Bool, true, false, Option, none, some, List, [], ◌∷◌, ◌++◌, length, take,
  drop, if◌then◌else◌, nat_beq, ◌&&◌,
}
use rpc.Common.Words.{ℤ, pos, negsuc, u64_mod}
use rpc.TcpServer.{message_chunk_length}
use rpc.HttpMessageHandler.{
  Text, Headers, Uri, HttpMessageHandler, init, get_host_by_uri, resize, init_body_size,
  resize_body, Outcome, ok, fault, Fault, throws, outside_body, null_request, ◌>>=◌,
  receive_message,
}

-- `strcmp(s, t) == 0`.
unfoldable pub same_text : Text → Text → Bool
same_text [] [] = true
same_text (a ∷ s) (b ∷ t) = nat_beq a b && same_text s t
same_text [] (b ∷ t) = false
same_text (a ∷ s) [] = false

-- "Content-Length".
abbrev pub content_length : Text
content_length = 67 ∷ 111 ∷ 110 ∷ 116 ∷ 101 ∷ 110 ∷ 116 ∷ 45 ∷ 76 ∷ 101 ∷ 110 ∷ 103 ∷ 116 ∷ 104 ∷ []

pub data Event : Type 0 where
  header_done : Headers → Event
  chunk_data : List ℕ → Event
  -- The response's body_size, or the null request with which libevent reports a failure.
  read : Option ℕ → Event

-- What a request is at a given time: the handler, and whether it has been given the request of a
-- response. libevent frees that request when `ReadCallback` has returned.
pub record Exchange : Type 0 where
  pub handler : HttpMessageHandler
  pub has_response : Bool

pub data Result : Type 0 where
  -- The status, and what `output` then holds.
  status : ℕ → List ℕ → Result
  -- A request that has been freed is read for its code or freed once more, with what `output` then
  -- holds; what follows is left open by C++.
  freed_request : List ℕ → Result
  failed : Fault → Result

module _ (strtouq : Text → ℕ) where
  unfoldable pub read_header_done_callback : Headers → HttpMessageHandler → HttpMessageHandler
  unfolding same_text init_body_size
  read_header_done_callback [] h = h
  read_header_done_callback ((key, value) ∷ headers) h = read_header_done_callback headers (
      if same_text key content_length
      then init_body_size (record h { content_len = strtouq value % u64_mod })
      else h)

  -- The loop on the bytes that have come in. Each round takes a byte at least.
  unfoldable pub read_chunk_loop : ℕ → List ℕ → HttpMessageHandler → Outcome HttpMessageHandler
  read_chunk_loop fuel [] h = ok h
  read_chunk_loop zero (b ∷ bs) h = ok h
  read_chunk_loop (suc fuel) (b ∷ bs) h =
      receive_message (take message_chunk_length (b ∷ bs)) h >>= λ h'.
      read_chunk_loop fuel (drop message_chunk_length (b ∷ bs)) h'

  unfoldable pub read_chunk_data_callback : List ℕ → HttpMessageHandler → Outcome HttpMessageHandler
  unfolding read_chunk_loop
  read_chunk_data_callback input h = read_chunk_loop (length input) input h

  -- The log line reads the null request before it is tested. `exits` is whether the loop can be left.
  unfoldable pub read_callback : Bool → Option ℕ → Exchange → Outcome Exchange
  unfolding resize_body
  read_callback exits none x = fault null_request
  read_callback exits (some size) x =
      if exits
      then ok (record { handler = resize_body size x.handler; has_response = true })
      else fault throws

  unfoldable pub on_event : Bool → Event → Exchange → Outcome Exchange
  unfolding read_header_done_callback read_chunk_data_callback read_callback
  on_event exits (header_done headers) x =
      ok (record x { handler = read_header_done_callback headers x.handler })
  on_event exits (chunk_data input) x =
      read_chunk_data_callback input x.handler >>= λ h. ok (record x { handler = h })
  on_event exits (read response) x = read_callback exits response x

  unfoldable pub on_events : Bool → List Event → Exchange → Outcome Exchange
  unfolding on_event
  on_events exits [] x = ok x
  on_events exits (e ∷ es) x = on_event exits e x >>= λ x'. on_events exits es x'

-- `Start`: none where it throws.
unfoldable pub start : ℤ → Option Bool
start (pos zero) = some true
start (pos (suc zero)) = some false
start (pos (suc (suc n))) = none
start (negsuc zero) = some false
start (negsuc (suc n)) = none

-- libevent's answers to one request, and whether the caller's vector, which is cleared at first, has
-- storage.
pub record Libevent : Type 0 where
  pub parse_uri : Text → Option Uri
  pub strtouq : Text → ℕ
  pub connects : Bool
  pub adds_body : Bool
  pub adds_headers : Bool
  pub makes_request : Bool
  pub exits_loop : Bool
  pub events : List Event
  pub loop_result : ℤ
  pub output_has_storage : Bool

module _ (p : Libevent) where
  unfoldable pub create_request : HttpMessageHandler → Result
  unfolding on_events start
  create_request h =
      if p.makes_request
      then elim (on_events p.strtouq p.exits_loop p.events
          (record { handler = h; has_response = false })) [
            | ok x ↦ elim (start p.loop_result) [
              | none ↦ failed throws
              | some _ ↦
                  if x.has_response then freed_request x.handler.body else status 500 x.handler.body
            ]
            | fault e ↦ failed e
          ]
      else status 500 h.body

  -- The URL must parse, and name a host.
  unfoldable pub init_request : Text → HttpMessageHandler → Option HttpMessageHandler
  init_request url h =
      let h' : HttpMessageHandler = record h { uri = p.parse_uri url } in
      elim (get_host_by_uri h') [ none ↦ none | some _ ↦ some h' ]

  unfoldable pub get : Text → Result
  unfolding init_request create_request
  get url = elim (init_request url (record init { has_storage = p.output_has_storage })) [
    | none ↦ failed throws
    | some h ↦
        if p.connects
        then if p.adds_headers then create_request h else failed throws
        else status 400 []
  ]

  unfoldable pub post : Text → Result
  unfolding init_request create_request
  post url = elim (init_request url (record init { has_storage = p.output_has_storage })) [
    | none ↦ failed throws
    | some h ↦
        if p.connects
        then if p.adds_body
          then if p.adds_headers then create_request h else failed throws
          else status 500 []
        else status 400 []
  ]
