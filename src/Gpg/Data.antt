-- ===== src/Gpg/Data.antt =====
-- `GPG::dataToVector` of src/gpgcrypto.cpp: the loop that reads a data object.
use dpaste.Prelude.{
  ℕ, zero, suc, ◌<◌, [], ◌∷◌, ◌++◌, Bytes, length, take, drop, ◌≡◌, ◌≢◌, ◌∙◌, arith, ◌==◌, false,
  append-nil, append_assoc, take-append-drop, length-drop,
}
use dpaste.Platform.{Platform}
use dpaste.Gpg.{buflen, read_loop, data_to_vector}

-- What `Data::read` promises: it gives something as long as something is unread.
pub record Reads (P : Platform) : Type 0 where
  pub reads : (unread : Bytes) → unread ≢ [] → P.gpgme.read_size buflen unread ≢ 0
  pub at_end : P.gpgme.read_size buflen [] ≡ 0

positive : (n : ℕ) → n ≢ 0 → (n == 0) ≡ false
positive n h = ground arith

module _ (P : Platform) (R : Reads P) where
  read_loop-all :
      (fuel : ℕ) (unread v : Bytes) → length unread < fuel → read_loop P fuel unread v ≡ v ++ unread
  unfolding read_loop
  read_loop-all zero unread v h = absurd (omega arith)
  read_loop-all (suc fuel) [] v h = rw (R.at_end, read_loop) (rw append-nil)
  read_loop-all (suc fuel) (x ∷ unread) v h =
      let n = P.gpgme.read_size buflen (x ∷ unread) in
      rw (positive n (R.reads (x ∷ unread) (λ e. cc)), read_loop)
        (read_loop-all fuel (drop n (x ∷ unread)) (v ++ take n (x ∷ unread))
            (omega (arith, length-drop n (x ∷ unread), R.reads (x ∷ unread) (λ e. cc)))
          ∙ (append_assoc v (take n (x ∷ unread)) (drop n (x ∷ unread)) ∙ rw take-append-drop))

  -- The fuel is enough: the loop ends with all the bytes of the data object, in their order.
  pub data_to_vector-all : (d : Bytes) → data_to_vector P d ≡ d
  unfolding data_to_vector
  data_to_vector-all d = read_loop-all (suc (length d)) d [] (omega arith)
