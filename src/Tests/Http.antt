-- ===== src/Tests/Http.antt =====
-- Witnesses and tests for even-http/ps/core/http_message_handler.cc and http_client.cc.
use rpc.Common.{ℕ, ◌≡◌, refl, Bool, true, false, some, none, List, [], ◌∷◌, ◌++◌, arith}
use rpc.Common.Words.{pos, negsuc}
use rpc.HttpMessageHandler.{
  Text, Headers, Uri, HttpMessageHandler, init, c_str, throws, reply, simple_response,
  get_request_path, get_uri_port,
}
use rpc.HttpMessageHandler.Answers.{simple_response_lem}
use rpc.HttpClient.{
  same_text, content_length, Event, header_done, chunk_data, read, Libevent, freed_request, failed,
  get, post,
}
use rpc.HttpClient.Responses.{get_body, get_unannounced}

abbrev uri : Uri
uri = record {
  host = some (104 ∷ []);
  port = negsuc 0;
  path = none;
  query = some (113 ∷ []);
  fragment = none;
}

abbrev seven : Text → ℕ
seven t = 7

abbrev before : Headers
before = (65 ∷ [], 66 ∷ []) ∷ []

abbrev chunks : List (List ℕ)
chunks = (1 ∷ 2 ∷ []) ∷ [] ∷ (3 ∷ []) ∷ []

abbrev answering : List Event → Libevent
answering events = record {
  parse_uri = λ t. some uri;
  strtouq = seven;
  connects = true;
  adds_body = true;
  adds_headers = true;
  makes_request = true;
  exits_loop = true;
  events = events;
  loop_result = pos 0;
  output_has_storage = false;
}

abbrev announced_events : List Event
announced_events =
    header_done (before ++ (content_length, 55 ∷ []) ∷ [])
    ∷ chunk_data (1 ∷ 2 ∷ [])
    ∷ chunk_data []
    ∷ chunk_data (3 ∷ [])
    ∷ read (some 3)
    ∷ []

get_body_example :
    (get (answering announced_events) [] ≡ freed_request (1 ∷ 2 ∷ 3 ∷ []))
    × (post (answering announced_events) [] ≡ freed_request (1 ∷ 2 ∷ 3 ∷ []))
unfolding same_text
get_body_example =
    get_body (answering announced_events) [] (104 ∷ []) uri before [] (55 ∷ []) chunks
      (refl, refl, refl, refl, refl, refl) refl refl refl (refl, tt) tt (omega arith) (omega arith)

-- The same header in small letters, for a vector that never had storage.
abbrev small : Headers
small =
    (99 ∷ 111 ∷ 110 ∷ 116 ∷ 101 ∷ 110 ∷ 116 ∷ 45 ∷ 108 ∷ 101 ∷ 110 ∷ 103 ∷ 116 ∷ 104 ∷ [], 55 ∷ [])
    ∷ []

abbrev small_letters : List Event
small_letters = header_done small ∷ chunk_data (1 ∷ []) ∷ []

get_unannounced_example :
    (get (answering small_letters) [] ≡ failed throws)
    × (post (answering small_letters) [] ≡ failed throws)
unfolding same_text
get_unannounced_example =
    get_unannounced (answering small_letters) [] (104 ∷ []) uri small 1 [] []
      (refl, refl, refl, refl, refl, refl) (refl, tt) refl

abbrev asked : HttpMessageHandler
asked = record init {
  request = some (record { uri = some uri; input_headers = []; input = [] });
  uri = some uri;
  resp_headers = some [];
  resp_buf = some [];
}

abbrev takes_bytes : List ℕ → Bool
takes_bytes bytes = true

abbrev takes : Text → Text → Bool
takes k v = true

simple_response_lem_example :
    simple_response takes takes_bytes 404
      ((65 ∷ [], (1 ∷ []) ∷ (2 ∷ []) ∷ []) ∷ [])
      (5 ∷ 0 ∷ 6 ∷ [])
      asked
    ≡ (
      record asked {
        resp_headers = some ((65 ∷ [], 1 ∷ []) ∷ (65 ∷ [], 2 ∷ []) ∷ []);
        replies = reply 200 ((65 ∷ [], 1 ∷ []) ∷ (65 ∷ [], 2 ∷ []) ∷ []) (5 ∷ []) ∷ [];
      },
      false,
    )
unfolding c_str
simple_response_lem_example =
    simple_response_lem takes (λ k v. refl) takes_bytes 404
      ((65 ∷ [], (1 ∷ []) ∷ (2 ∷ []) ∷ []) ∷ []) (5 ∷ 0 ∷ 6 ∷ []) [] []
      (record { uri = some uri; input_headers = []; input = [] }) asked refl refl refl refl

root_path : (get_request_path asked ≡ some (47 ∷ 63 ∷ 113 ∷ [])) × (get_uri_port asked ≡ some 80)
unfolding get_request_path get_uri_port
root_path = (refl, refl)
