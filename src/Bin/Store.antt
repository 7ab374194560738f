-- ===== src/Bin/Store.antt =====
-- The requests of `Bin::paste` and `Bin::get` of src/bin.cpp, to stores that keep texts.
use dpaste.Prelude.{
  Bool, true, false, [], ◌∷◌, Bytes, is_empty, map, ◌≡◌, ap, ◌⊎◌, inl, inr, arith, Bool-cases, ◌∙◌,
}
use dpaste.Effects.{ok}
use dpaste.Platform.{Platform, Process}
use dpaste.Http.{HttpClient, get_request, put_request, read_reply, is_stored, http_get, http_put}
use dpaste.Node.{dpaste_user_type, new_value, wait_result, node_get, node_paste}
use dpaste.Bin.{Bin, fetch, publish, front_or}

module _ (P : Platform) (c : HttpClient) where
  -- A request for the code, in that world: either the server has the text, or it has none and the
  -- table has it in the first place.
  abbrev pub Answers : P.World → Bytes → Bytes → Type 0
  Answers w code blob =
      let reply = P.http.perform (get_request P c code) w in
      ((s : Process P) → read_reply P reply.0 s ≡ (ok blob, s))
      ⊎ (((s : Process P) → read_reply P reply.0 s ≡ (ok [], s))
          × (front_or P
                (map (λ v. v.blob) (P.dht.get (P.dht.info_hash code) dpaste_user_type reply.1).0.0)
                []
              ≡ blob))

  -- Nothing is there for the code: the server's reply gives no text, and the table has no value then.
  abbrev pub IsNothing : P.World → Bytes → Type 0
  IsNothing w code =
      let reply = P.http.perform (get_request P c code) w in
      ((s : Process P) → read_reply P reply.0 s ≡ (ok [], s))
      × ((P.dht.get (P.dht.info_hash code) dpaste_user_type reply.1).0.0 ≡ [])

  -- Nothing is there where the value is to be put, nor after the server has refused it.
  abbrev pub IsFree : P.World → Bytes → Bytes → Type 0
  IsFree w code blob =
      let put = P.http.perform (put_request P c code blob) w in
      IsNothing w code × (is_stored P put.0 ≡ false → IsNothing put.1 code)

  -- A value that is put with success where there was none is there for a request that follows. Where
  -- there are others, nothing is said of which of them comes first.
  pub record Keeps : Type 0 where
    pub server_keeps :
        (code blob : Bytes) (w : P.World)
        → IsNothing w code
        → is_stored P (P.http.perform (put_request P c code blob) w).0 ≡ true
        → Answers (P.http.perform (put_request P c code blob) w).1 code blob
    pub table_keeps :
        (code blob : Bytes) (w : P.World)
        → IsNothing w code
        → (P.dht.put (P.dht.info_hash code) (new_value P blob) w).0 ≡ true
        → Answers (P.dht.put (P.dht.info_hash code) (new_value P blob) w).1 code blob

wait_result-false : (done late : Bool) → wait_result done late false ≡ false
unfolding wait_result
wait_result-false done late = ground arith

module _ (P : Platform) (b : Bin) where
  pub fetch-Answers :
      (code blob : Bytes) (s : Process P)
      → is_empty blob ≡ false
      → Answers P b.http_client s.world code blob
      → (fetch P b code s).0 ≡ ok blob
  unfolding fetch http_get node_get
  fetch-Answers code [] s full (inl h) = cc
  fetch-Answers code (x ∷ blob) s full (inl h) = rw h
  fetch-Answers code [] s full (inr (h, e)) = cc
  fetch-Answers code (x ∷ blob) s full (inr (h, e)) = rw h (ap ok e)

  publish_stored :
      (code blob : Bytes) (s : Process P)
      → is_stored P (P.http.perform (put_request P b.http_client code blob) s.world).0 ≡ true
      → (publish P b code blob s).1.world
        ≡ (P.http.perform (put_request P b.http_client code blob) s.world).1
  unfolding publish http_put
  publish_stored code blob s h = rw h

  -- The state in which the node is asked.
  abbrev refused : Bytes → Bytes → Process P → Process P
  refused code blob s = record s {
    world = (P.http.perform (put_request P b.http_client code blob) s.world).1;
  }

  publish-refused :
      (code blob : Bytes) (s : Process P)
      → is_stored P (P.http.perform (put_request P b.http_client code blob) s.world).0 ≡ false
      → publish P b code blob s ≡ node_paste P code blob (refused code blob s)
  unfolding publish http_put
  publish-refused code blob s h = rw h

  node_paste-world :
      (code blob : Bytes) (s : Process P)
      → (node_paste P code blob s).0 ≡ ok true
      → ((P.dht.put (P.dht.info_hash code) (new_value P blob) s.world).0 ≡ true)
        × ((node_paste P code blob s).1.world
            ≡ (P.dht.put (P.dht.info_hash code) (new_value P blob) s.world).1)
  unfolding node_paste
  node_paste-world code blob s h =
      elim (Bool-cases (P.dht.put (P.dht.info_hash code) (new_value P blob) s.world).0) [
        | inl t ↦ (t, rw t)
        | inr f ↦ cc (rw f at h, wait_result-false P.garbage.done P.garbage.late)
      ]

  -- The server took the value, or it refused it and the table took it, and the outside world is left
  -- as the one of the two left it that took it.
  abbrev pub IsTaken : Bytes → Bytes → P.World → P.World → Type 0
  IsTaken code blob w u =
      let reply = P.http.perform (put_request P b.http_client code blob) w in
      let done = P.dht.put (P.dht.info_hash code) (new_value P blob) reply.1 in
      (is_stored P reply.0 ≡ true) × (u ≡ reply.1)
      ⊎ (is_stored P reply.0 ≡ false) × (done.0 ≡ true) × (u ≡ done.1)

  pub publish-IsTaken :
      (code blob : Bytes) (s : Process P)
      → (publish P b code blob s).0 ≡ ok true
      → IsTaken code blob s.world (publish P b code blob s).1.world
  publish-IsTaken code blob s h =
      elim (Bool-cases
        (is_stored P (P.http.perform (put_request P b.http_client code blob) s.world).0)) [
          | inl t ↦ inl (t, publish_stored code blob s t)
          | inr f ↦
              let e = publish-refused code blob s f in
              let (t, w) = node_paste-world code blob (refused code blob s) (rw e at h) in
              inr (f, t, ap (λ r. r.1.world) e ∙ w)
        ]

  -- What was taken, where there was nothing, is there for a request that follows.
  pub IsTaken-Answers :
      (code blob : Bytes) (w u : P.World)
      → Keeps P b.http_client
      → IsFree P b.http_client w code blob
      → IsTaken code blob w u
      → Answers P b.http_client u code blob
  IsTaken-Answers code blob w u k (free, free_then) (inl (t, e)) =
      rw e (k.server_keeps code blob w free t)
  IsTaken-Answers code blob w u k (free, free_then) (inr (f, t, e)) =
      rw e (k.table_keeps code blob _ (free_then f) t)

  pub publish-Answers :
      (code blob : Bytes) (s : Process P)
      → Keeps P b.http_client
      → IsFree P b.http_client s.world code blob
      → (publish P b code blob s).0 ≡ ok true
      → Answers P b.http_client (publish P b code blob s).1.world code blob
  publish-Answers code blob s k free h =
      IsTaken-Answers code blob s.world _ k free (publish-IsTaken code blob s h)
