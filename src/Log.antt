-- ===== src/Log.antt =====
-- src/log.cpp: messages on the error stream. The text is the one that `vsnprintf` makes of the
-- format and its arguments, or `none` where it reports an error.
pub mod Truncation
use dpaste.Prelude.{
  ℕ, ◌-◌, Option, none, some, [], ◌∷◌, ◌++◌, Bytes, codes, leb, if◌then◌else◌, length, take, min,
}
use dpaste.Effects.{ok}
use dpaste.Platform.{Platform, Do}

abbrev pub dpaste_msg_prefix : Bytes
dpaste_msg_prefix = codes "DPASTE: "

abbrev pub buffer_size : ℕ
buffer_size = 8192

-- The buffer after `vsnprintf`, as far as it is written: at most one byte less than it holds, and
-- a null byte.
abbrev pub printed : Bytes → Bytes
printed text = take (buffer_size - 1) text ++ 0 ∷ []

-- What `print_log` appends to the error stream.
unfoldable pub print_log : Option Bytes → Bytes
print_log none = []
print_log (some text) =
    dpaste_msg_prefix
    ++ (take (min (length text) buffer_size) (printed text)
        ++ ((if leb buffer_size (length text) then codes "[[TRUNCATED]]" else []) ++ b'\n' ∷ []))

-- `DPASTE_MSG`
unfoldable pub dpaste_msg : (P : Platform) → Bytes → Do P (Unit {0})
dpaste_msg P text s = (ok tt, record s { err = s.err ++ print_log (some text) })
