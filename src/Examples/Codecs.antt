-- ===== src/Examples/Codecs.antt =====
-- A signed value through the writer and the reader.
use equinox.Prelude.{◌*◌, ◌≡◌, refl, some, [], ◌∷◌, arith}
use equinox.Prelude.Int.{negsuc}
use equinox.Bytes.{Bytes, read_signed}
use equinox.Bytes.Codec.{bigint, checked_signed, write_signed, read_signed-write_signed}

abbrev blank : Bytes
blank = 9 ∷ 9 ∷ 9 ∷ 9 ∷ []

lowest : checked_signed (bigint (negsuc 32767)) (8 * 2) ≡ some (negsuc 32767)
unfolding checked_signed
lowest = refl

read_signed-write_signed_example :
    read_signed 2 (write_signed blank 1 (negsuc 32767) 2) 1 ≡ some (negsuc 32767)
read_signed-write_signed_example =
    read_signed-write_signed (bigint (negsuc 32767)) 1 1 blank lowest (omega arith)
