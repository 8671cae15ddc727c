-- ===== src/Python/Values.antt =====
-- The values that the program tells apart by `isinstance` and `type`, the tests of `str` that it
-- makes, and the exception classes that it raises or catches.
use gpu_batch_crypto.Prelude.{Bool, ◌&&◌, Text, Bytes, leb, all}
use gpu_batch_crypto.Prelude.Int.{ℤ}

-- `other` is a value of any other type, `bool` included where the source asks for `int` exactly.
pub data Value : Type 0 where
  str : Text → Value
  bytes : Bytes → Value
  int : ℤ → Value
  other : Value

-- Exception classes; the messages are left out.
pub data Error : Type 0 where
  value_error type_error runtime_error index_error : Error

-- t.isascii()
unfoldable pub is_ascii : Text → Bool
is_ascii = all (λ c. leb c 127)

-- t.isprintable(), of a text that is ASCII
unfoldable pub is_printable : Text → Bool
is_printable = all (λ c. leb 32 c && leb c 126)
