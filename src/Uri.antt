-- ===== src/Uri.antt =====
-- `Bin::code_from_dpaste_uri` of src/bin.cpp.
pub mod Laws
use dpaste.Prelude.{
  ℕ, ◌+◌, Option, none, some, Bytes, codes, leb, if◌then◌else◌, length, drop, find,
}
use dpaste.Effects.{Result, ok, throw, out_of_range}

abbrev pub dpaste_uri_prefix : Bytes
dpaste_uri_prefix = codes "dpaste:"

-- `s.substr(pos)` throws behind the end of the text.
abbrev pub substr : Bytes → ℕ → Result Bytes
substr s pos = if leb pos (length s) then ok (drop pos s) else throw out_of_range

abbrev pub code_start : Option ℕ → ℕ
code_start none = 0
code_start (some p) = p + length dpaste_uri_prefix

unfoldable pub code_from_dpaste_uri : Bytes → Result Bytes
unfolding find
code_from_dpaste_uri uri = substr uri (code_start (find dpaste_uri_prefix uri))
