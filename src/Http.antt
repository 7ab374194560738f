-- ===== src/Http.antt =====
-- src/http_client.h and src/http_client.cpp
use dpaste.Prelude.{ℤ, [], ◌∷◌, ◌++◌, Bool, true, false, none, some, Bytes, codes, ◌==◌}
use dpaste.Effects.{◌>>=◌, give, fail, json_error}
use dpaste.Platform.{Platform, Do, on_world, Request, Reply, logic_error, runtime_error, response}
use dpaste.Node.{dpaste_user_type}

pub record HttpClient : Type 0 where
  pub host : Bytes
  pub port : ℤ

abbrev pub http_proto : Bytes
http_proto = codes "http://"

module _ (P : Platform) where
  abbrev pub value_url : HttpClient → Bytes → Bytes
  value_url c code = http_proto ++ (c.host ++ (b'/' ∷ P.dht.info_hash code))

  abbrev pub get_request : HttpClient → Bytes → Request
  get_request c code = record {
    port = c.port;
    url = value_url c code ++ (codes "?user_type=" ++ dpaste_user_type);
    form = none;
  }

  abbrev pub put_request : HttpClient → Bytes → Bytes → Request
  put_request c code blob = record {
    port = c.port;
    url = value_url c code;
    form = some ((codes "user_type", dpaste_user_type) ∷ (codes "data", blob) ∷ []);
  }

  -- What is decoded of the body of a reply with status 200.
  unfoldable pub read_body : Bytes → Do P Bytes
  read_body body = elim (P.http.parse body) [
    | none ↦ fail json_error
    | some pr ↦ elim (P.http.is_empty pr) [
      | true ↦ give []
      | false ↦ elim (P.http.at_base64 (P.http.first pr)) [
        | none ↦ fail json_error
        | some v ↦ give (P.http.decode (P.http.dump v))
      ]
    ]
  ]

  abbrev pub read_reply : Reply → Do P Bytes
  read_reply logic_error = give []
  read_reply runtime_error = give []
  read_reply (response status body) = elim (status == 200) [
    | true ↦ read_body body
    | false ↦ give []
  ]

  unfoldable pub http_get : HttpClient → Bytes → Do P Bytes
  unfolding read_body
  http_get c code = do reply ← on_world P (P.http.perform (get_request c code)); read_reply reply

  abbrev pub is_stored : Reply → Bool
  is_stored (response status body) = status == 200
  is_stored _ = false

  unfoldable pub http_put : HttpClient → Bytes → Bytes → Do P Bool
  http_put c code blob = do
    reply ← on_world P (P.http.perform (put_request c code blob))
    give (is_stored reply)
