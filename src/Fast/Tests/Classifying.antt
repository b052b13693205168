-- ===== src/Fast/Tests/Classifying.antt =====
-- The lookup and the parsers at work.
use tas.Base.{ℕ, ◌+◌, ◌*◌, ◌<◌, ◌≡◌, refl, arith, true, some, [], ◌∷◌, get_or, if◌then◌else◌, ltb}
use tas.Fast.Options.{
  options_loop, options_len, parse_options, tcp_parse_options, tcp_parse_options_gre,
}
use tas.Fast.Receive.{Packet, extra_hlen}
use tas.Fast.Classify.{
  FlowTable, Frame, same_tuple, entry_flow, entry_for, bucket, fss_loop, packet_fss, packet_parse,
  packet_parse_gre,
}
use tas.Fast.Classify.Lookup.{IsFound}
use tas.Fast.Tests.{flow, packet}

-- Flow 3 hashes to the last bucket and stands in the second one after it.
abbrev hash : Packet → ℕ
hash p = 262143

abbrev table : FlowTable
table = record {
  flowst = λ i. flow;
  flowht = λ k.
      if ltb k 2
      then record { flow_id = 2147483648 + 3; flow_hash = 262143 * k }
      else record { flow_id = 0; flow_hash = 0 };
}

table_hit : packet_fss hash table packet ≡ some 3
unfolding packet_fss fss_loop bucket entry_for entry_flow same_tuple
table_hit = refl

second_bucket : IsFound table packet 262143 2 3
unfolding bucket entry_for entry_flow same_tuple
second_bucket = record { valid = refl; here = refl; same = refl }

abbrev frame : Frame
frame = record {
  len = 100;
  eth_type = 2048;
  out_proto = 47;
  out_version = 4;
  out_hl = 5;
  out_len = 86;
  gre_proto = 2048;
  proto = 6;
  version = 4;
  hl = 5;
  ip_len = 58;
  hdrlen = 8;
  options = λ a. get_or (1 ∷ 1 ∷ 8 ∷ 10 ∷ []) a 0;
}

frame_accepted : packet_parse 41 frame ≡ true
unfolding packet_parse tcp_parse_options parse_options options_loop options_len
frame_accepted = refl

frame_gre_accepted : packet_parse_gre 41 frame ≡ true
unfolding packet_parse_gre tcp_parse_options_gre parse_options options_loop options_len
frame_gre_accepted = refl

-- an IP length that leaves out the options
abbrev short : Packet
short = record packet { ip_len = 40 }

short_headers : 40 < 40 + extra_hlen short
unfolding extra_hlen
short_headers = omega arith
