-- ===== src/Slow/Tcp/Table/Lookup.antt =====
-- A registered connection gets its packets, until it is unregistered.
use tas.Base.{
  ℕ, ◌%◌, ◌≤◌, ◌≡◌, refl, sym, ap, ◌∙◌, arith, Bool, true, false, not, ◌||◌, some, ◌∷◌, ltb, ◌==◌,
  put, put-same, put-other, if_yes, ℕ_discrete, ◌>>=◌,
}
use tas.Slow.Tcp.Ports.{PortTable}
use tas.Slow.Tcp.Table.{
  ConnEntry, TcpTable, ConnHash, conn_bucket, conn_register, unlink, conn_unregister, InPacket,
  is_of, find_conn, conn_lookup, to_conn, dispatch_by, tcp_packet,
}

-- The packet has the connection's addresses.
pub record IsOf (e : ConnEntry) (p : InPacket) : Type 0 where
  pub dest : p.dest_ip ≡ e.out_local_ip
  pub src : p.src_ip ≡ e.out_remote_ip
  pub dest_port : p.dest_port ≡ e.local_port
  pub src_port : p.src_port ≡ e.remote_port

bucket_of :
    (conn_hash : ConnHash) (e : ConnEntry) (p : InPacket)
    → IsOf e p
    → conn_hash p.dest_ip p.src_ip p.dest_port p.src_port % 4096 ≡ conn_bucket conn_hash e
unfolding conn_bucket
bucket_of conn_hash e p o = rw (o.dest, o.src, o.dest_port, o.src_port) refl

is_of_lem : (e : ConnEntry) (p : InPacket) → IsOf e p → is_of p e ≡ true
unfolding is_of
is_of_lem e p o = ground (arith, o.src, o.dest_port, o.src_port)

-- A packet with the addresses of the connection that was registered last goes to it.
pub register_then_packet :
    (conn_hash : ConnHash) (parses : InPacket → Bool) (has_kni : Bool) (ports : PortTable)
    (t : TcpTable) (e : ConnEntry) (p : InPacket)
    → 54 ≤ p.len
    → parses p ≡ true
    → IsOf e p
    → tcp_packet conn_hash parses e.out_local_ip has_kni ports (conn_register conn_hash e t) p
      ≡ to_conn e.id
unfolding tcp_packet conn_lookup conn_register dispatch_by find_conn
register_then_packet conn_hash parses has_kni ports t e p l y o =
    let whole : (ltb p.len 54 || not (p.dest_ip == e.out_local_ip) || not (parses p)) ≡ false =
      ground (arith, l, y, o.dest) in
    let h = conn_bucket conn_hash e in
    let chain : put t h (e ∷ t h) (conn_hash p.dest_ip p.src_ip p.dest_port p.src_port % 4096)
        ≡ e ∷ t h =
      ap (put t h (e ∷ t h)) (bucket_of conn_hash e p o) ∙ put-same t h (e ∷ t h) in
    rw (whole) (
      ap (λ l. dispatch_by has_kni ports p (find_conn p l)) chain
      ∙ ap (dispatch_by has_kni ports p) (if_yes _ _ (is_of_lem e p o)))

-- Unregistering the connection that was registered last gives back the table.
pub unregister-register :
    (conn_hash : ConnHash) (t : TcpTable) (e : ConnEntry)
    → (u : TcpTable) × (conn_unregister conn_hash e (conn_register conn_hash e t) ≡ some u)
      × ((h : ℕ) → u h ≡ t h)
unfolding conn_unregister conn_register unlink
unregister-register conn_hash t e =
    let b = conn_bucket conn_hash e in
    let r = put t b (e ∷ t b) in
    let same : (e.id == e.id) ≡ true = ground arith in
    (
      put r b (t b),
      ap (λ l. unlink e.id l >>= (λ k. some (put r b k))) (put-same t b (e ∷ t b))
          ∙ ap (λ o. o >>= (λ k. some (put r b k))) (if_yes _ _ same),
      λ h. elim (ℕ_discrete h b) [
        | yes y ↦ ap (put r b (t b)) y ∙ put-same r b (t b) ∙ ap t (sym y)
        | no n ↦ put-other r b (t b) h n ∙ put-other t b (e ∷ t b) h n
      ],
    )
