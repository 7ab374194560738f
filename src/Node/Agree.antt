-- ===== src/Node/Agree.antt =====
-- The two forms of `Node::get` and of `Node::paste` of src/node.cpp: with a callback, and blocking.
use dpaste.Prelude.{
  Bool, true, false, some, Bytes, codes, List, if◌then◌else◌, ◌≡◌, refl, inl, inr, Bool-cases,
}
use dpaste.Effects.{ok, ◌>>=◌}
use dpaste.Platform.{Platform, Process, Do}
use dpaste.Node.{
  dpaste_user_type, new_value, wait_result, complain, node_get, node_get_then, node_paste,
  node_paste_then,
}

module _ (P : Platform) where
  -- `get` with a callback does nothing itself. What it leaves to the node's threads, whenever that
  -- runs, calls the callback with the values that the blocking form returns, if the operation
  -- succeeds; if it does not, a complaint is made, and the blocking form returns the values all the
  -- same.
  node_get_then-node_get :
      (code : Bytes) (cb : List Bytes → Do P (Unit {0})) (s : Process P)
      → (later : Do P (Unit {0})) × (node_get_then P code (some cb) s ≡ (ok later, s))
        × ((t : Process P)
            → later t ≡ (
                if (P.dht.get (P.dht.info_hash code) dpaste_user_type t.world).0.1
                then (node_get P code >>= cb) t
                else (node_get P code >>= (λ values. complain P false (codes " (get)"))) t))
  unfolding node_get_then node_get
  node_get_then-node_get code cb s = (
    _,
    refl,
    λ t. elim (Bool-cases (P.dht.get (P.dht.info_hash code) dpaste_user_type t.world).0.1) [
      | inl e ↦ rw e refl
      | inr e ↦ rw e refl
    ],
  )

  -- `paste` with a callback returns true and does nothing itself. What it leaves to the node's
  -- threads gives the callback what the blocking form returns, if `done` starts false there, and
  -- does the same to the world.
  node_paste_then-node_paste :
      (code blob : Bytes) (cb : Bool → Do P (Unit {0})) (s : Process P)
      → P.garbage.done ≡ false
      → (later : Do P (Unit {0})) × (node_paste_then P code blob cb s ≡ (ok (true, later), s))
        × ((t : Process P)
            → (success : Bool) × (u : Process P) × ((node_paste P code blob t).0 ≡ ok success)
              × ((node_paste P code blob t).1.world ≡ u.world)
              × (later t ≡ cb success u))
  unfolding node_paste_then node_paste wait_result
  node_paste_then-node_paste code blob cb s h = (
    _,
    refl,
    λ t.
        let r = P.dht.put (P.dht.info_hash code) (new_value P blob) t.world in
        elim (Bool-cases r.0) [
          | inl e ↦ (true, record t { world = r.1 }, rw (e, h) refl, rw e refl, rw e refl)
          | inr e ↦ (false, record t { world = r.1 }, rw (e, h) refl, rw e refl, rw e refl)
        ],
  )
