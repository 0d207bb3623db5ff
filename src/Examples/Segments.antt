-- ===== src/Examples/Segments.antt =====
-- A client that has sent up to relative number 101, and a server that closed its window.
use log_squirl_tcpdump.Common.{◌≤◌, ◌≡◌, true, false, arith}
use log_squirl_tcpdump.TcpAnalysis.{TcpDirection, new_direction, Segment, seq_is_before}
use log_squirl_tcpdump.TcpAnalysis.Classify.{classify}
use log_squirl_tcpdump.TcpAnalysis.Markers.{classify-forward, late_markers, classify-late}

abbrev sending : TcpDirection
sending = record new_direction {
  next_seq = 101;
  last_ack = 1;
  window = 512;
  window_known = true;
  base_seq_set = true;
  advanced_with_data = true;
}

abbrev closed : TcpDirection
closed = record new_direction {
  next_seq = 1;
  last_ack = 101;
  window_known = true;
  base_seq_set = true;
}

-- The data from 51 on, sent again.
abbrev again : Segment
again = record {
  number = 9;
  time = 5000000;
  seq = 51;
  ack = 1;
  len = 50;
  flags = 0x18;
  raw_window = 512;
  window_scaled = false;
  window = 512;
}

classify-forward_example :
    seq_is_before (classify sending closed again).fwd.next_seq sending.next_seq ≡ false
classify-forward_example = classify-forward sending closed again (omega arith) (omega arith)

classify-late_example : late_markers (classify sending closed again).markers ≤ 1
classify-late_example = classify-late sending closed again
