-- ===== src/Bin/Refused.antt =====
-- The server's replies that `HttpClient::get` of src/http_client.cpp throws at, and `Bin::get` of
-- src/bin.cpp with it.
use dpaste.Prelude.{
  false, none, some, Bytes, ◌≡◌, ◌⊎◌, ◌==◌, ==_iff, inl, inr, refl, ap, arith, Bool-cases,
  Option-cases,
}
use dpaste.Effects.{Exception, json_error, Result-cases, throw}
use dpaste.Platform.{Platform, Process, Reply, response, logic_error, runtime_error}
use dpaste.Http.{get_request, http_get, read_body, read_reply}
use dpaste.Node.{node_get}
use dpaste.Bin.{Bin, fetch}

module _ (P : Platform) where
  -- The body is not JSON, or its first value is neither an object nor null.
  abbrev IsStrange : Bytes → Type 0
  IsStrange body =
      (P.http.parse body ≡ none)
      ⊎ ((pr : P.http.Json) × (P.http.parse body ≡ some pr)
          × (P.http.is_empty pr ≡ false)
          × (P.http.at_base64 (P.http.first pr) ≡ none))

  abbrev pub IsRefused : Reply → Type 0
  IsRefused r = (body : Bytes) × (r ≡ response 200 body) × IsStrange body

  read_body-IsStrange :
      (body : Bytes) (e : Exception) (s : Process P)
      → (read_body P body s).0 ≡ throw e
      → (e ≡ json_error) × IsStrange body
  unfolding read_body
  read_body-IsStrange body e s h = elim (Option-cases (P.http.parse body)) [
    | inl n ↦ (ground arith, inl n)
    | inr (pr, y) ↦ elim (Bool-cases (P.http.is_empty pr)) [
      | inl t ↦ ground arith
      | inr f ↦ elim (Option-cases (P.http.at_base64 (P.http.first pr))) [
        | inl n ↦ (ground arith, inr (pr, y, f, n))
        | inr (v, k) ↦ ground arith
      ]
    ]
  ]

  IsStrange-read_body :
      (body : Bytes) (s : Process P) → IsStrange body → read_body P body s ≡ (throw json_error, s)
  unfolding read_body
  IsStrange-read_body body s (inl n) = rw (n, read_body) refl
  IsStrange-read_body body s (inr (pr, y, f, n)) = rw (y, read_body) (rw f (rw n refl))

  read_reply-IsRefused :
      (r : Reply) (e : Exception) (s : Process P)
      → (read_reply P r s).0 ≡ throw e
      → (e ≡ json_error) × IsRefused r
  read_reply-IsRefused logic_error e s h = cc
  read_reply-IsRefused runtime_error e s h = cc
  read_reply-IsRefused (response status body) e s h = elim (Bool-cases (status == 200)) [
    | inl t ↦
        let (j, strange) = read_body-IsStrange body e s (ground arith) in
        (j, (body, ap (λ n. response n body) ((==_iff status 200).0 t), strange))
    | inr f ↦ ground arith
  ]

  module _ (b : Bin) where
    http_get-IsRefused :
        (code : Bytes) (e : Exception) (s : Process P)
        → (http_get P b.http_client code s).0 ≡ throw e
        → (e ≡ json_error) × IsRefused (P.http.perform (get_request P b.http_client code) s.world).0
    unfolding http_get
    http_get-IsRefused code e s h = read_reply-IsRefused _ e _ h

    pub fetch-IsRefused :
        (code : Bytes) (e : Exception) (s : Process P)
        → (fetch P b code s).0 ≡ throw e
        → (e ≡ json_error) × IsRefused (P.http.perform (get_request P b.http_client code) s.world).0
    unfolding fetch node_get
    fetch-IsRefused code e s h = elim (Result-cases (http_get P b.http_client code s).0) [
      | inl (front, r) ↦ ground (arith, h, r)
      | inr (d, r) ↦ http_get-IsRefused code e s (ground arith)
    ]

    pub IsRefused-fetch :
        (code : Bytes) (s : Process P)
        → IsRefused (P.http.perform (get_request P b.http_client code) s.world).0
        → (fetch P b code s).0 ≡ throw json_error
    unfolding fetch http_get
    IsRefused-fetch code s (body, r, h) = rw r (rw (IsStrange-read_body body _ h) refl)
