-- ===== src/Wire/Frame/Examples.antt =====
-- core/stream_frame.go: a DATA header in front of a longer buffer.
use smp3_multipath_kit_publi.Wire.Frame.{
  IsHeader, validate_stream_frame_header, StreamFrameHeader, encode_stream_frame_header,
  stream_frame_fields, read_stream_frame_header,
}
use smp3_multipath_kit_publi.Base.{replicate, List, ◌++◌, ◌≡◌, arith, ◌↔◌, refl, ◌∷◌, [], ℕ}
use smp3_multipath_kit_publi.Wire.Frame.Laws.{read-encode, validate_iff_Allowed, Allowed}
use smp3_multipath_kit_publi.Wire.Result.{ok}
use smp3_multipath_kit_publi.Wire.Bytes.{row, be}

abbrev header : StreamFrameHeader
header = record { kind = 1; value = 70000; size = 5 }

header-IsHeader : IsHeader header
header-IsHeader = record {
  kind_fits = omega arith;
  value_fits = omega arith;
  size_fits = omega arith;
}

abbrev buffer : List ℕ
buffer = row (stream_frame_fields header) ++ (8 ∷ [])

abbrev behind : List ℕ
behind = 8 ∷ 7 ∷ []

read-encode_example : read_stream_frame_header (buffer ++ (7 ∷ [])) ≡ ok (header, behind)
unfolding encode_stream_frame_header validate_stream_frame_header be
read-encode_example = read-encode header (replicate 13 0 ++ (8 ∷ [])) (7 ∷ []) header-IsHeader refl

validate_iff_Allowed_example : (validate_stream_frame_header header ≡ ok tt) ↔ Allowed header
validate_iff_Allowed_example = validate_iff_Allowed header
