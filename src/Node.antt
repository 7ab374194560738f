-- ===== src/Node.antt =====
-- src/node.h and src/node.cpp: the node of the distributed hash table.
pub mod Wait
pub mod Agree
pub mod Threads
use dpaste.Prelude.{
  ℕ, Bool, true, false, not, ◌&&◌, List, [], ◌∷◌, ◌++◌, map, Option, none, some, Bytes, codes,
  if◌then◌else◌,
}
use dpaste.Effects.{Result, ok, ◌>>=◌, ◌>>◌, give}
use dpaste.Platform.{Platform, Process, Do, on_world, change_world, Value}

abbrev pub default_bootstrap_node : Bytes
default_bootstrap_node = codes "bootstrap.ring.cx"

abbrev pub default_bootstrap_port : Bytes
default_bootstrap_port = codes "4222"

abbrev pub operation_failure_msg : Bytes
operation_failure_msg = codes "err.. DHT operation failed."

abbrev pub dpaste_user_type : Bytes
dpaste_user_type = codes "dpaste"

pub record Node : Type 0 where
  pub running : Bool

abbrev pub new_node : Node
new_node = record { running = false }

-- What the wait of `paste` returns: `done` is the flag before `put`, `late` says that the callback
-- has not run when the wait first looks at the flag, and `answer` is the callback's argument.
unfoldable pub wait_result : Bool → Bool → Bool → Bool
wait_result done late answer = if done && late then false else answer

module _ (P : Platform) where
  abbrev pub complain : Bool → Bytes → Do P (Unit {0})
  complain true operation s = (ok tt, s)
  complain false operation s =
      (ok tt, record s { err = s.err ++ (operation_failure_msg ++ (operation ++ b'\n' ∷ [])) })

  unfoldable pub node_run : Node → ℕ → Bytes → Bytes → Do P Node
  node_run node port hostname bootstrap_port = elim node.running [
    | true ↦ give node
    | false ↦ do
      change_world P (P.dht.run port)
      change_world P (P.dht.bootstrap hostname bootstrap_port)
      give (record { running = true })
  ]

  -- The wait ends when the shutdown callback has set `done`, which starts false.
  unfoldable pub node_stop : Node → Do P Node
  node_stop node = do
    change_world P P.dht.shutdown
    change_world P P.dht.join
    give (record { running = false })

  abbrev pub new_value : Bytes → Value
  new_value blob = record { blob = blob; user_type = dpaste_user_type }

  -- `paste` with a callback hands the operation over and returns at once; the second result is what
  -- is left to the threads of the node, where the callback gets the outcome.
  unfoldable pub node_paste_then :
      Bytes → Bytes → (Bool → Do P (Unit {0})) → Do P (Bool × Do P (Unit {0}))
  node_paste_then code blob cb = give (
    true,
    do success ← on_world P (P.dht.put (P.dht.info_hash code) (new_value blob)); cb success,
  )

  -- `paste` with no callback blocks.
  unfoldable pub node_paste : Bytes → Bytes → Do P Bool
  unfolding wait_result
  node_paste code blob = do
    success ← on_world P (P.dht.put (P.dht.info_hash code) (new_value blob))
    complain success (codes " (put)")
    give (wait_result P.garbage.done P.garbage.late success)

  -- `get` with a callback, which returns at once too; what is left to the threads of the node does
  -- not call it after a failure.
  unfoldable pub node_get_then :
      Bytes → Option (List Bytes → Do P (Unit {0})) → Do P (Do P (Unit {0}))
  node_get_then code pcb = give (do
    res ← on_world P (P.dht.get (P.dht.info_hash code) dpaste_user_type)
    elim res.1 [
      | false ↦ complain false (codes " (get)")
      | true ↦ elim pcb [ none ↦ give tt | some cb ↦ cb (map (λ v. v.blob) res.0) ]
    ])

  -- `get` that blocks on the future; the outcome of the operation is not looked at.
  unfoldable pub node_get : Bytes → Do P (List Bytes)
  node_get code = do
    res ← on_world P (P.dht.get (P.dht.info_hash code) dpaste_user_type)
    give (map (λ v. v.blob) res.0)
