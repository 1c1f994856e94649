-- ===== src/HttpMessageHandler.antt =====
-- even-http/ps/core/http_message_handler.h and .cc: what a request says, the response, and the body
-- that HttpClient receives. A text is a list of characters. libevent's part is `find_header`,
-- `parse_query` (what evhttp_parse_query_str returns, and what it leaves in the list) and
-- `adds_header` and `adds_bytes`. A getter gives none where the source throws; `receive_message` faults where the
-- source writes outside the vector. `replies` logs what is handed to libevent to send.
pub mod Answers
use rpc.Common.{
  ℕ, zero, suc, ◌+◌, ◌-◌, ◌%◌, ◌≡◌, Bool, true, false, not, ◌||◌, Option, none, some, List, [], ◌∷◌,
  ◌++◌, length, take, drop, replicate, if◌then◌else◌, leb, nat_beq,
}
use rpc.Common.Words.{ℤ, pos, negsuc, u64_mod}

abbrev pub Text : Type 0
Text = List ℕ

abbrev pub Headers : Type 0
Headers = List (Text × Text)

pub record Uri : Type 0 where
  pub host : Option Text
  pub port : ℤ
  pub path : Option Text
  pub query : Option Text
  pub fragment : Option Text

-- libevent's request. The lists of a response are empty before the handler fills them.
pub record Request : Type 0 where
  pub uri : Option Uri
  pub input_headers : Headers
  pub input : List ℕ

pub data Sent : Type 0 where
  reply : ℕ → Headers → List ℕ → Sent
  error : ℕ → Option Text → Sent

pub record HttpMessageHandler : Type 0 where
  pub request : Option Request
  pub uri : Option Uri
  pub path_params : Headers
  pub head_params : Option Headers
  pub post_params : Headers
  pub post_param_parsed : Bool
  pub body : List ℕ
  -- Whether the vector of the body has storage, so that `data()` is not null.
  pub has_storage : Bool
  pub resp_headers : Option Headers
  pub resp_buf : Option (List ℕ)
  pub resp_code : ℕ
  pub content_len : ℕ
  pub offset : ℕ
  pub replies : List Sent

abbrev pub init : HttpMessageHandler
init = record {
  request = none;
  uri = none;
  path_params = [];
  head_params = none;
  post_params = [];
  post_param_parsed = false;
  body = [];
  has_storage = false;
  resp_headers = none;
  resp_buf = none;
  resp_code = 200;
  content_len = 0;
  offset = 0;
  replies = [];
}

-- A C string: it ends before the first null character.
unfoldable pub c_str : Text → Text
c_str [] = []
c_str (c ∷ cs) = if nat_beq c 0 then [] else c ∷ c_str cs

module _ (find_header : Headers → Text → Option Text) (parse_query : Text → Bool × Headers) where
  -- The handler afterwards, and whether an exception is thrown.
  unfoldable pub init_http_message : HttpMessageHandler → HttpMessageHandler × Bool
  init_http_message h = elim h.request [
    | none ↦ (h, true)
    | some r ↦ elim r.uri [
      | none ↦ (record h { uri = none }, true)
      | some u ↦ (
        record h {
          uri = some u;
          path_params = elim u.query [ none ↦ h.path_params | some q ↦ (parse_query (c_str q)).1 ];
          head_params = some r.input_headers;
          resp_headers = some [];
          resp_buf = some [];
        },
        false,
      )
    ]
  ]

  unfoldable pub get_head_param : Text → HttpMessageHandler → Option Text
  get_head_param key h = elim h.head_params [ none ↦ none | some params ↦ find_header params key ]

  unfoldable pub get_path_param : Text → HttpMessageHandler → Option Text
  get_path_param key h = find_header h.path_params key

  unfoldable pub parse_post_param : HttpMessageHandler → HttpMessageHandler × Bool
  parse_post_param h = elim h.request [
    | none ↦ (h, true)
    | some r ↦
        let (parses, params) = parse_query (c_str r.input) in
        if nat_beq (length r.input) 0
        then (h, true)
        else (record h { post_param_parsed = true; post_params = params }, not parses)
  ]

  unfoldable pub get_post_param : Text → HttpMessageHandler → HttpMessageHandler × Option Text
  unfolding parse_post_param
  get_post_param key h =
      let (h', throws) = parse_post_param h in
      if h.post_param_parsed
      then (h, find_header h.post_params key)
      else (h', (if throws then none else find_header h'.post_params key))

unfoldable pub get_uri_port : HttpMessageHandler → Option ℕ
get_uri_port h = elim h.uri [
  | none ↦ none
  | some u ↦ elim u.port [ pos n ↦ some n | negsuc _ ↦ some 80 ]
]

abbrev pub get_host_by_uri : HttpMessageHandler → Option Text
get_host_by_uri h = elim h.uri [ none ↦ none | some u ↦ u.host ]

-- `/` where there is no path, then `?` and the query where there is one.
unfoldable pub get_request_path : HttpMessageHandler → Option Text
get_request_path h = elim h.uri [
  | none ↦ none
  | some u ↦
      let path : Text = elim u.path [
        | none ↦ 47 ∷ []
        | some [] ↦ 47 ∷ []
        | some (c ∷ cs) ↦ c ∷ cs
      ] in
      some (path ++ elim u.query [ none ↦ [] | some q ↦ 63 ∷ q ])
]

unfoldable pub get_post_msg : HttpMessageHandler → Option (List ℕ)
get_post_msg h = elim h.request [
  | none ↦ none
  | some r ↦ if nat_beq (length r.input) 0 then none else some r.input
]

-- evbuffer_add and evbuffer_add_printf take the bytes, or refuse them.
module _ (adds_bytes : List ℕ → Bool) where
  unfoldable pub add_resp_string : Text → HttpMessageHandler → HttpMessageHandler × Bool
  add_resp_string str h = elim h.resp_buf [
    | none ↦ (h, true)
    | some buf ↦
        if adds_bytes (c_str str)
        then (record h { resp_buf = some (buf ++ c_str str) }, false)
        else (h, true)
  ]

-- `evhttp_send_reply`, with what the response then holds.
abbrev send_reply : ℕ → List ℕ → HttpMessageHandler → HttpMessageHandler
send_reply code buf h = record h {
  replies =
      h.replies ++ reply code (elim h.resp_headers [ none ↦ [] | some headers ↦ headers ]) buf ∷ [];
  resp_buf = some [];
}

abbrev pub set_resp_code : ℕ → HttpMessageHandler → HttpMessageHandler
set_resp_code code h = record h { resp_code = code }

unfoldable pub send_response : HttpMessageHandler → HttpMessageHandler × Bool
send_response h = elim h.request [
  | none ↦ (h, true)
  | some _ ↦ elim h.resp_buf [ none ↦ (h, true) | some buf ↦ (send_reply h.resp_code buf h, false) ]
]

module _ (adds_bytes : List ℕ → Bool) where
  unfoldable pub quick_response : ℕ → List ℕ → HttpMessageHandler → HttpMessageHandler × Bool
  quick_response code bytes h = elim h.request [
    | none ↦ (h, true)
    | some _ ↦ elim h.resp_buf [
      | none ↦ (h, true)
      | some buf ↦ if adds_bytes bytes then (send_reply code (buf ++ bytes) h, false) else (h, true)
    ]
  ]

-- evhttp_add_header takes a header, or refuses it.
module _ (adds_header : Text → Text → Bool) where
  unfoldable pub add_resp_head_param : Text → Text → HttpMessageHandler → HttpMessageHandler × Bool
  add_resp_head_param key val h = elim h.resp_headers [
    | none ↦ (h, true)
    | some headers ↦
        if adds_header (c_str key) (c_str val)
        then (record h { resp_headers = some (headers ++ (c_str key, c_str val) ∷ []) }, false)
        else (h, true)
  ]

  -- The inner loop of `AddRespHeaders`, over the values of one key.
  unfoldable pub add_resp_values : Text → List Text → HttpMessageHandler → HttpMessageHandler × Bool
  unfolding add_resp_head_param
  add_resp_values key [] h = (h, false)
  add_resp_values key (val ∷ vals) h =
      let added = add_resp_head_param key val h in
      let rest = add_resp_values key vals added.0 in if added.1 then added else rest

  unfoldable pub add_resp_headers :
      List (Text × List Text) → HttpMessageHandler → HttpMessageHandler × Bool
  unfolding add_resp_values
  add_resp_headers [] h = (h, false)
  add_resp_headers ((key, vals) ∷ headers) h =
      let added = add_resp_values key vals h in
      let rest = add_resp_headers headers added.0 in if added.1 then added else rest

module _ (adds_header : Text → Text → Bool) (adds_bytes : List ℕ → Bool) where
  -- The code that it is given is not used.
  unfoldable pub simple_response :
      ℕ → List (Text × List Text) → Text → HttpMessageHandler → HttpMessageHandler × Bool
  unfolding add_resp_headers add_resp_string send_response
  simple_response code headers str h =
      let with_headers = add_resp_headers adds_header headers h in
      let with_body = add_resp_string adds_bytes str with_headers.0 in
      let sent = send_response with_body.0 in
      elim h.request [
        | none ↦ (h, true)
        | some _ ↦ elim h.resp_buf [
          | none ↦ (h, true)
          | some _ ↦
              if with_headers.1 then with_headers else if with_body.1 then with_body else sent
        ]
      ]

unfoldable pub resp_error : ℕ → Text → HttpMessageHandler → HttpMessageHandler × Bool
resp_error code message h = elim h.request [
  | none ↦ (h, true)
  | some _ ↦ (
    record h {
      replies =
          h.replies
          ++ error code (if nat_beq (length message) 0 then none else some (c_str message)) ∷ [];
    },
    false,
  )
]

-- `std::vector::resize`.
unfoldable pub resize : ℕ → List ℕ → List ℕ
resize n xs = take n xs ++ replicate (n - length xs) 0

unfoldable pub resize_body : ℕ → HttpMessageHandler → HttpMessageHandler
unfolding resize
resize_body n h = record h {
  body = resize n h.body;
  has_storage = h.has_storage || not (nat_beq n 0);
}

unfoldable pub init_body_size : HttpMessageHandler → HttpMessageHandler
unfolding resize_body
init_body_size h = resize_body ((h.content_len + 1) % u64_mod) h

pub data Fault : Type 0 where
  throws : Fault
  outside_body : Fault
  null_request : Fault

pub data Outcome {ℓ} (A : Type ℓ) : Type ℓ where
  ok : A → Outcome A
  fault : Fault → Outcome A

infixl 5 ◌>>=◌
abbrev pub ◌>>=◌ {ℓ κ} : {A : Type ℓ} {B : Type κ} → Outcome A → (A → Outcome B) → Outcome B
ok a >>= f = f a
fault e >>= f = fault e

-- memcpy_s is given the size of the block for that of the vector behind `offset`. It refuses a block of
-- no bytes and a null pointer; that it refuses a block over its greatest size is left out, since the
-- client passes 4096 bytes at most.
unfoldable pub receive_message : List ℕ → HttpMessageHandler → Outcome HttpMessageHandler
receive_message bytes h =
    if nat_beq (length bytes) 0 || not h.has_storage
    then fault throws
    else if leb (h.offset + length bytes) (length h.body)
    then ok (record h {
      body = take h.offset h.body ++ (bytes ++ drop (h.offset + length bytes) h.body);
      offset = (h.offset + length bytes) % u64_mod;
    })
    else fault outside_body
