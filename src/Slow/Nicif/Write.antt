-- ===== src/Slow/Nicif/Write.antt =====
-- What a successful `nicif_connection_add` has done.
use tas.Base.{
  ℕ, ◌%◌, ◌^◌, ◌<◌, ◌≡◌, refl, sym, ap, ◌∙◌, arith, true, ◌&&◌, List, [], ◌∷◌, ltb, Bool-cases, inl,
  inr,
}
use tas.Fast.Classify.{FlowTable, ht_entries, ht_nbsz, entry_flow, entry_for, bucket}
use tas.Slow.Nicif.{flow_id_alloc}
use tas.Slow.Nicif.Slots.{
  HashTable, taken_id, SlotResult, slot, no_slot, asserted, still_moving, flow_slot_alloc,
}
use tas.Slow.Nicif.Moves.{away}
use tas.Slow.Nicif.Connections.{
  NicState, ConnArgs, added, conn_write, add_by, add_with, nicif_connection_add,
}

-- What a successful call did.
pub record IsAdded (fuel : ℕ) (conn_hash : ConnArgs → ℕ) (c : ConnArgs) (s : NicState) (f : ℕ)
    (s' : NicState) : Type 0 where
  pub rest : List ℕ
  pub i : ℕ
  pub d : ℕ
  pub table : HashTable
  pub ids : s.free_ids ≡ f ∷ rest
  pub allocated : flow_slot_alloc fuel s.flows.flowht (conn_hash c) ≡ slot i d table
  pub state : s' ≡ conn_write c (conn_hash c) f (record s { free_ids = rest }) i d table

added_inj : {f g : ℕ} {s t : NicState} → added f s ≡ added g t → (f ≡ g) × (s ≡ t)
added_inj {f} {g} {s} {t} e =
    (ap (λ r. elim r [ added i u ↦ i | _ ↦ f ]) e, ap (λ r. elim r [ added i u ↦ u | _ ↦ s ]) e)

by-IsAdded :
    (fuel : ℕ) (conn_hash : ConnArgs → ℕ) (c : ConnArgs) (s : NicState) (f it : ℕ) (s' : NicState)
    (rest : List ℕ) (r : SlotResult)
    → s.free_ids ≡ it ∷ rest
    → flow_slot_alloc fuel s.flows.flowht (conn_hash c) ≡ r
    → add_by c (conn_hash c) it (record s { free_ids = rest }) r ≡ added f s'
    → IsAdded fuel conn_hash c s f s'
unfolding add_by
by-IsAdded fuel conn_hash c s f it s' rest (slot i d t) l a e =
    elim (Bool-cases (ltb i ht_entries && ltb d ht_nbsz)) [
      | inr n ↦ absurd (ground (arith, rw n at e))
      | inl y ↦
          let w = added_inj (rw y at e) in
          record {
            rest = rest;
            i = i;
            d = d;
            table = t;
            ids = l ∙ ap (λ k. k ∷ rest) w.0;
            allocated = a;
            state =
                sym (w.1)
                ∙ ap (λ k. conn_write c (conn_hash c) k (record s { free_ids = rest }) i d t) w.0;
          }
    ]
by-IsAdded fuel conn_hash c s f it s' rest (no_slot t) l a e = absurd (ground (arith, e))
by-IsAdded fuel conn_hash c s f it s' rest asserted l a e = absurd (ground (arith, e))
by-IsAdded fuel conn_hash c s f it s' rest still_moving l a e = absurd (ground (arith, e))

with-IsAdded :
    (fuel : ℕ) (conn_hash : ConnArgs → ℕ) (c : ConnArgs) (s : NicState) (f : ℕ) (s' : NicState)
    (l : List ℕ)
    → s.free_ids ≡ l
    → add_with fuel conn_hash c s (flow_id_alloc l) ≡ added f s'
    → IsAdded fuel conn_hash c s f s'
unfolding add_with flow_id_alloc
with-IsAdded fuel conn_hash c s f s' [] l e = absurd (ground (arith, e))
with-IsAdded fuel conn_hash c s f s' (it ∷ rest) l e =
    by-IsAdded fuel conn_hash c s f it s' rest (flow_slot_alloc fuel s.flows.flowht (conn_hash c)) l
      refl e

pub add-IsAdded :
    (fuel : ℕ) (conn_hash : ConnArgs → ℕ) (c : ConnArgs) (s : NicState) (f : ℕ) (s' : NicState)
    → nicif_connection_add fuel conn_hash c s ≡ added f s'
    → IsAdded fuel conn_hash c s f s'
unfolding nicif_connection_add
add-IsAdded fuel conn_hash c s f s' e = with-IsAdded fuel conn_hash c s f s' s.free_ids refl e

-- the home bucket of a hash and the ones behind it
pub bucket_lem :
    (t : FlowTable) (h i : ℕ)
    → i < ht_entries
    → away (h % ht_entries) i < 4
    → bucket t h (away (h % ht_entries) i) ≡ t.flowht i
unfolding bucket
bucket_lem t h i a b = ap t.flowht (omega arith)

pub written :
    (d f h : ℕ)
    → d < 4
    → f < 2 ^ 29
    → (entry_for (record { flow_id = taken_id d f; flow_hash = h }) h ≡ true)
      × (entry_flow (record { flow_id = taken_id d f; flow_hash = h }) ≡ f)
unfolding entry_for entry_flow taken_id
written d f h a b = (ground (arith), omega arith)
