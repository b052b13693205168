-- ===== src/Fast/Classify/Accept.antt =====
-- What an accepted packet is known to hold, and what it is not.
use tas.Base.{ℕ, ◌+◌, ◌-◌, ◌≤◌, ◌<◌, ◌^◌, ◌≡◌, refl, arith, true, none, some}
use tas.Fast.Options.{
  Parse, fail, done, running, options_len, parse_options, tcp_parse_options, tcp_parse_options_gre,
  pkt_tcp_size, pkt_gre_size,
}
use tas.Fast.Options.Timestamp.{IsTimestamp, parse_options-IsTimestamp}
use tas.Fast.Receive.{Packet, extra_hlen, payload_size}
use tas.Fast.Classify.{Frame, has_ts, packet_parse, packet_parse_gre}

-- The headers of TCP over IP version 4 without IP options are there, and so is a timestamp.
pub record IsAccepted (f : Frame) (headers : ℕ) : Type 0 where
  pub whole : headers ≤ f.len
  pub ether : f.eth_type ≡ 0x0800
  pub tcp : f.proto ≡ 0x06
  pub version4 : f.version ≡ 4
  pub no_options : f.hl ≡ 5
  pub offset : 5 ≤ f.hdrlen
  pub stamp : (o : ℕ) × IsTimestamp f.options (options_len f.hdrlen) o

has_ts-done : (r : Parse) → has_ts r ≡ true → (o : ℕ) × (r ≡ done (some o))
has_ts-done fail e = absurd (ground (arith, e))
has_ts-done running e = absurd (ground (arith, e))
has_ts-done (done none) e = absurd (ground (arith, e))
has_ts-done (done (some o)) e = (o, refl)

stamped :
    (fuel size : ℕ) (f : Frame)
    → f.hdrlen < 16
    → has_ts (parse_options fuel size f.options f.hdrlen f.len) ≡ true
    → (o : ℕ) × IsTimestamp f.options (options_len f.hdrlen) o
stamped fuel size f h e =
    let d = has_ts-done (parse_options fuel size f.options f.hdrlen f.len) e in
    (d.0, parse_options-IsTimestamp fuel size f.options f.hdrlen f.len d.0 h d.1)

-- A frame with a data offset below 16 that `fast_flows_packet_parse` accepts has whole headers of TCP
-- over IP version 4, a timestamp option whose first two bytes lie within the options, and an IP length
-- that is within the frame.
pub parse-IsAccepted :
    (fuel : ℕ) (f : Frame)
    → f.hdrlen < 16
    → packet_parse fuel f ≡ true
    → IsAccepted f 54 × (f.ip_len + 14 ≤ f.len)
unfolding packet_parse tcp_parse_options
parse-IsAccepted fuel f h e = (
  record {
    whole = ground (arith, e);
    ether = ground (arith, e);
    tcp = ground (arith, e);
    version4 = ground (arith, e);
    no_options = ground (arith, e);
    offset = ground (arith, e);
    stamp = stamped fuel pkt_tcp_size f h (ground (arith, e));
  },
  ground (arith, e),
)

-- A frame with a data offset below 16 that `fast_flows_packet_parse_gre` accepts has whole headers of
-- TCP in a tunnel, a timestamp option whose first two bytes lie within the options, and an outer IP
-- length that is within the frame.
pub parse_gre-IsAccepted :
    (fuel : ℕ) (f : Frame)
    → f.hdrlen < 16
    → packet_parse_gre fuel f ≡ true
    → IsAccepted f 82 × (f.out_len + 14 ≤ f.len)
unfolding packet_parse_gre tcp_parse_options_gre
parse_gre-IsAccepted fuel f h e = (
  record {
    whole = ground (arith, e);
    ether = ground (arith, e);
    tcp = ground (arith, e);
    version4 = ground (arith, e);
    no_options = ground (arith, e);
    offset = ground (arith, e);
    stamp = stamped fuel pkt_gre_size f h (ground (arith, e));
  },
  ground (arith, e),
)

-- A packet whose 16-bit IP length is less than its headers gets a payload of more than 2^32 - 2^17
-- bytes.
pub payload_size_short :
    (p : Packet) → p.ip_len < 40 + extra_hlen p → 2 ^ 32 - 2 ^ 17 < payload_size p
unfolding payload_size extra_hlen
payload_size_short p h = omega arith
