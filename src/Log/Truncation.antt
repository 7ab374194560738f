-- ===== src/Log/Truncation.antt =====
-- What `print_log` of src/log.cpp writes of a short message, and of one that fills its buffer.
use dpaste.Prelude.{
  ◌-◌, ◌<◌, ◌≤◌, true, false, [], ◌∷◌, ◌++◌, some, Bytes, codes, leb, length, take, min, take-of_le,
  take-append, length-take, length-append, ◌≡◌, ap, arith, append_assoc,
}
use dpaste.Log.{dpaste_msg_prefix, buffer_size, printed, print_log}

fits : (text : Bytes) → length text < buffer_size → min (length text) buffer_size ≡ length text
fits text h = omega arith

fills : (text : Bytes) → buffer_size ≤ length text → min (length text) buffer_size ≡ buffer_size
fills text h = omega arith

below : (text : Bytes) → length text < buffer_size → leb buffer_size (length text) ≡ false
below text h = ground arith

above : (text : Bytes) → buffer_size ≤ length text → leb buffer_size (length text) ≡ true
above text h = ground arith

length-printed : (text : Bytes) → length (printed text) ≤ buffer_size
length-printed text =
    let room = buffer_size - 1 in
    omega (arith, length-append (take room text) (0 ∷ []), length-take room text)

-- A message that the buffer holds is written as it is, on a line with the prefix.
pub print_log-whole :
    (text : Bytes)
    → length text < buffer_size
    → print_log (some text) ≡ dpaste_msg_prefix ++ (text ++ b'\n' ∷ [])
unfolding print_log
print_log-whole text h =
    ap (λ t. dpaste_msg_prefix ++ t)
      (rw (fits text h) (
        rw (below text h)
          (rw (take-of_le (buffer_size - 1) text (omega arith)) (rw (take-append text (0 ∷ []))))))

-- Of a message that has as many bytes as the buffer holds, or more, one byte less than the buffer
-- holds is written, then the null byte that ends the buffer, then the mark.
pub print_log-truncated :
    (text : Bytes)
    → buffer_size ≤ length text
    → print_log (some text)
      ≡ dpaste_msg_prefix
        ++ (take (buffer_size - 1) text ++ (0 ∷ codes "[[TRUNCATED]]" ++ b'\n' ∷ []))
unfolding print_log
print_log-truncated text h =
    ap (λ t. dpaste_msg_prefix ++ t)
      (rw (fills text h) (
        rw (above text h) (
          rw (take-of_le buffer_size (printed text) (length-printed text))
            (append_assoc (take (buffer_size - 1) text) (0 ∷ []) _))))
