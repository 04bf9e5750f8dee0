-- ===== src/Wire/FrameType.antt =====
-- core/stream_frame.go: the StreamFrameType constants, and the sizes of the two control messages
-- (core/stream_path_protocol.go).
use smp3_multipath_kit_publi.Base.{ℕ, ◌+◌}

abbrev pub data_frame : ℕ
data_frame = 1

abbrev pub activate : ℕ
activate = 2

abbrev pub ack : ℕ
ack = 3

abbrev pub close : ℕ
close = 4

abbrev pub path_rtt : ℕ
path_rtt = 5

abbrev pub drain : ℕ
drain = 6

abbrev pub stream_rtt_message_size : ℕ
stream_rtt_message_size = 8 + 1 + 1 + 1 + 1 + 16 + 8 + 32

abbrev pub stream_drain_control_message_size : ℕ
stream_drain_control_message_size = 8 + 1 + 1 + 1 + 1 + 16 + 1 + 8 + 16 + 16 + 8 + 8 + 4 + 8 + 32
