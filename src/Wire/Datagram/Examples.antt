-- ===== src/Wire/Datagram/Examples.antt =====
-- core/datagram_engine.go: a datagram in its frame, with a byte behind it.
use smp3_multipath_kit_publi.Wire.Hello.Examples.{bytes_of_small}
use smp3_multipath_kit_publi.Wire.Bytes.{IsByte}
use smp3_multipath_kit_publi.Wire.Datagram.{
  write_datagram_frame, read_datagram_frame, datagram_header, DatagramFrame, row,
}
use smp3_multipath_kit_publi.Base.{◌∷◌, List, arith, ℕ, ◌++◌, [], ◌≡◌, refl, All}
use smp3_multipath_kit_publi.Wire.Datagram.Laws.{read_datagram_frame-write}
use smp3_multipath_kit_publi.Wire.Datagram.Accept.{read_datagram_frame-Accepted, Accepted}
use smp3_multipath_kit_publi.Wire.Bytes.{be}
use smp3_multipath_kit_publi.Wire.Result.{ok}

abbrev frame : DatagramFrame
frame = record { id = 7; address = 97 ∷ 58 ∷ 49 ∷ []; body = 1 ∷ 2 ∷ [] }

abbrev wire : List ℕ
wire = row (datagram_header 7 7) ++ (be 2 3 ++ (frame.address ++ frame.body))

read_datagram_frame-write_example :
    read_datagram_frame 1200 (wire ++ (255 ∷ [])) ≡ ok (frame, 255 ∷ [])
unfolding write_datagram_frame
read_datagram_frame-write_example =
    read_datagram_frame-write frame 1200 (255 ∷ []) (omega arith) (omega arith) refl

carrier-All : All IsByte (wire ++ (255 ∷ []))
unfolding be
carrier-All = bytes_of_small (wire ++ (255 ∷ [])) refl

read_datagram_frame-Accepted_example : Accepted 1200 (wire ++ (255 ∷ [])) frame (255 ∷ [])
read_datagram_frame-Accepted_example =
    read_datagram_frame-Accepted 1200 (wire ++ (255 ∷ [])) carrier-All
      read_datagram_frame-write_example
