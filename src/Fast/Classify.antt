-- ===== src/Fast/Classify.antt =====
-- How the fast path chooses the flow of a packet: `fast_flows_packet_fss` and
-- `fast_flows_packet_parse` of tas/fast/fast_flows.c with their versions for tunnelled packets, for one
-- packet of a batch. The hash of the addresses is a checksum instruction of the processor, so it is a
-- parameter. Prefetching is left out.
pub mod Lookup
pub mod Accept
use tas.Base.{
  ℕ, zero, suc, ◌+◌, ◌-◌, ◌*◌, ◌%◌, ◌^◌, Bool, true, false, not, ◌&&◌, ◌||◌, Option, none, some,
  ltb, leb, ◌==◌, if◌then◌else◌, Memory, add32, has,
}
use tas.Fast.Flow.{Flow}
use tas.Fast.Segment.{Tunnel}
use tas.Fast.Options.{
  Parse, done, tcp_parse_options, tcp_parse_options_gre, pkt_tcp_size, pkt_gre_size,
}
use tas.Fast.Receive.{Packet}

-- `struct flextcp_pl_flowhte`
pub record Entry : Type 0 where
  pub flow_id : ℕ
  pub flow_hash : ℕ

-- The flow table and the hash table, as functions of the index.
pub record FlowTable : Type 0 where
  pub flowst : ℕ → Flow
  pub flowht : ℕ → Entry

-- FLEXNIC_PL_FLOWHT_ENTRIES and FLEXNIC_PL_FLOWHT_NBSZ
abbrev pub ht_entries : ℕ
ht_entries = 128 * 1024 * 2

abbrev pub ht_nbsz : ℕ
ht_nbsz = 4

-- the comparison of a flow's addresses with those of a packet
unfoldable pub same_tuple : Flow → Packet → Bool
same_tuple fs p =
    let ports = fs.local_port == p.dest && fs.remote_port == p.src in
    elim p.tunnel [
      | none ↦ fs.out_local_ip == p.ip_dest && (fs.out_remote_ip == p.ip_src && ports)
      | some t ↦
          fs.out_local_ip == t.out_dest
          && (fs.out_remote_ip == t.out_src
              && (fs.in_local_ip == p.ip_dest
                  && (fs.in_remote_ip == p.ip_src && (fs.tunnel_id == t.key && ports))))
    ]

-- `ffid & ((1 << FLEXNIC_PL_FLOWHTE_POSSHIFT) - 1)`
unfoldable pub entry_flow : Entry → ℕ
entry_flow e = e.flow_id % 2 ^ 29

-- a valid entry for the hash `h`
unfoldable pub entry_for : Entry → ℕ → Bool
entry_for e h = has e.flow_id (2 ^ 31) && e.flow_hash == h

-- the bucket that the loop looks at in round `j`
unfoldable pub bucket : FlowTable → ℕ → ℕ → Entry
bucket t h j = t.flowht (add32 h j % ht_entries)

-- The last `rounds` rounds of the loop, from round `j` on.
unfoldable pub fss_loop : FlowTable → Packet → ℕ → (rounds j : ℕ) → Option ℕ
fss_loop t p h zero j = none
fss_loop t p h (suc rounds) j =
    let e = bucket t h j in
    let rest = fss_loop t p h rounds (j + 1) in
    if not (entry_for e h)
    then rest
    else if same_tuple (t.flowst (entry_flow e)) p
    then some (entry_flow e)
    else rest

-- The index of the packet's flow, given the hash function.
unfoldable pub packet_fss : (Packet → ℕ) → FlowTable → Packet → Option ℕ
packet_fss flow_hash t p = fss_loop t p (flow_hash p) ht_nbsz 0

-- The header fields that the parsers check. `out_` is the outer IP header of a tunnelled packet.
pub record Frame : Type 0 where
  pub len : ℕ
  pub eth_type : ℕ
  pub out_proto : ℕ
  pub out_version : ℕ
  pub out_hl : ℕ
  pub out_len : ℕ
  pub gre_proto : ℕ
  pub proto : ℕ
  pub version : ℕ
  pub hl : ℕ
  pub ip_len : ℕ
  pub hdrlen : ℕ
  pub options : Memory

-- the parse succeeds with a timestamp
abbrev pub has_ts : Parse → Bool
has_ts (done (some o)) = true
has_ts _ = false

-- `!cond` of `fast_flows_packet_parse`, on fuel for the option loop
unfoldable pub packet_parse : ℕ → Frame → Bool
packet_parse fuel f =
    leb pkt_tcp_size f.len
    && (f.eth_type == 0x0800
        && (f.proto == 0x06
            && (f.version == 4
                && (f.hl == 5
                    && (leb 5 f.hdrlen
                        && (leb (f.ip_len + 14) f.len
                            && has_ts (tcp_parse_options fuel f.options f.hdrlen f.len)))))))

-- `!cond` of `fast_flows_packet_parse_gre`
unfoldable pub packet_parse_gre : ℕ → Frame → Bool
packet_parse_gre fuel f =
    leb pkt_gre_size f.len
    && (f.eth_type == 0x0800
        && (f.out_proto == 0x2f
            && (f.proto == 0x06
                && (f.gre_proto == 0x0800
                    && (f.out_version == 4
                        && (f.out_hl == 5
                            && (f.version == 4
                                && (f.hl == 5
                                    && (leb 5 f.hdrlen
                                        && (leb (f.out_len + 14) f.len
                                            && has_ts (
                                                tcp_parse_options_gre fuel f.options f.hdrlen
                                                  f.len)))))))))))
