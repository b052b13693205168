-- ===== src/Fast/Qman/Chunks.antt =====
-- What a poll of the flow queues reports, against the bytes that it takes from them.
use tas.Base.{
  ℕ, ◌+◌, ◌≤◌, ◌≡◌, refl, sym, ◌∙◌, ap, arith, List, [], ◌∷◌, ◌++◌, ltb, ◌==◌, if◌then◌else◌,
  length, length-append, Bool-cases, inl, inr,
}
use mathlib.Core.List.{append_assoc, append-nil}
use tas.Fast.Qman.{FlowQueue, FlowQman, VmQueue}
use tas.Fast.Qman.Flows.{
  Thread, Chunk, Polled, with_fqman, with_queue, flow_queue_activate, flow_queue_activate_skiplist,
  fire_bytes, fired, flow_queue_fire, poll_queue,
}
use tas.Fast.Qman.Avail.{SameQueues, same_refl, activate_same}

-- the bytes that `chunks` report of the queue `i`
abbrev pub taken : ℕ → List Chunk → ℕ
taken i [] = 0
taken i (c ∷ cs) = (if c.q_id == i then c.bytes else 0) + taken i cs

taken-append : (i : ℕ) (cs ds : List Chunk) → taken i (cs ++ ds) ≡ taken i cs + taken i ds
taken-append i [] ds = omega arith
taken-append i (c ∷ cs) ds = omega (arith, taken-append i cs ds)

-- Each chunk is of the machine `id` and no longer than its queue allows.
abbrev pub IsFit : FlowQman → ℕ → List Chunk → Type 0
IsFit fq id [] = Unit {0}
IsFit fq id (c ∷ cs) = (c.vm_id ≡ id) × (c.bytes ≤ (fq.queues c.q_id).max_chunk) × IsFit fq id cs

IsFit-append :
    (fq fq' : FlowQman) (id : ℕ) (cs ds : List Chunk)
    → ((i : ℕ) → (fq'.queues i).max_chunk ≡ (fq.queues i).max_chunk)
    → IsFit fq id cs
    → IsFit fq' id ds
    → IsFit fq id (cs ++ ds)
IsFit-append fq fq' id [] [] m a b = tt
IsFit-append fq fq' id [] (d ∷ ds) m a b =
    (b.0, omega (arith, b.1, m d.q_id), IsFit-append fq fq' id [] ds m tt b.2)
IsFit-append fq fq' id (c ∷ cs) ds m a b = (a.0, a.1, IsFit-append fq fq' id cs ds m a.2 b)

-- From `p` to `p'` at most `num` chunks are polled. Each queue has the bytes that are reported of it
-- less, its limit is the same, and nothing else of the machine's account changes.
pub record Polls (num : ℕ) (p p' : Polled) : Type 0 where
  pub new : List Chunk
  pub reported : p'.chunks ≡ p.chunks ++ new
  pub at_most : length new ≤ num
  pub waits :
      (i : ℕ)
      → (p'.thread.vq.fqman.queues i).avail + taken i new ≡ (p.thread.vq.fqman.queues i).avail
  pub limits :
      (i : ℕ) → (p'.thread.vq.fqman.queues i).max_chunk ≡ (p.thread.vq.fqman.queues i).max_chunk
  pub fit : IsFit p.thread.vq.fqman p.thread.vq.id new
  pub same_id : p'.thread.vq.id ≡ p.thread.vq.id
  pub same_avail : p'.thread.vq.avail ≡ p.thread.vq.avail

pub Polls-none :
    (num : ℕ) (p p' : Polled)
    → p'.chunks ≡ p.chunks
    → SameQueues p.thread.vq.fqman p'.thread.vq.fqman
    → p'.thread.vq.id ≡ p.thread.vq.id
    → p'.thread.vq.avail ≡ p.thread.vq.avail
    → Polls num p p'
Polls-none num p p' c s i a = record {
  new = [];
  reported = c ∙ sym (append-nil p.chunks);
  at_most = omega arith;
  waits = λ k. omega (arith, s.avail k);
  limits = s.max_chunk;
  fit = tt;
  same_id = i;
  same_avail = a;
}

pub Polls-then :
    (m n k : ℕ) (p q r : Polled) (a : Polls m p q) (b : Polls n q r)
    → length a.new + length b.new ≤ k
    → Polls k p r
Polls-then m n k p q r a b h = record {
  new = a.new ++ b.new;
  reported = b.reported ∙ ap (λ l. l ++ b.new) a.reported ∙ append_assoc p.chunks a.new b.new;
  at_most = omega (arith, length-append a.new b.new);
  waits = λ i. omega (arith, taken-append i a.new b.new, a.waits i, b.waits i);
  limits = λ i. b.limits i ∙ a.limits i;
  fit =
      IsFit-append p.thread.vq.fqman q.thread.vq.fqman p.thread.vq.id a.new b.new a.limits a.fit
        (rw a.same_id at b.fit);
  same_id = b.same_id ∙ a.same_id;
  same_avail = b.same_avail ∙ a.same_avail;
}

fire_le : (q : FlowQueue) → (fire_bytes q ≤ q.avail) × (fire_bytes q ≤ q.max_chunk)
unfolding fire_bytes
fire_le q = ground arith

-- the account of the machine under an activation
pub activate_account :
    (t : Thread) (idx : ℕ)
    → ((flow_queue_activate t idx).vq.id ≡ t.vq.id)
      × ((flow_queue_activate t idx).vq.avail ≡ t.vq.avail)
unfolding flow_queue_activate flow_queue_activate_skiplist
activate_account t idx = elim (Bool-cases ((t.vq.fqman.queues idx).rate == 0)) [
  | inl z ↦ rw z (refl, refl)
  | inr n ↦ rw n (refl, refl)
]

-- the machine's queue with the bytes taken, before the flow is active again
abbrev drained : VmQueue → ℕ → VmQueue
drained vq idx = with_fqman vq (with_queue vq.fqman idx (fired vq (vq.fqman.queues idx)))

drained_waits :
    (vq : VmQueue) (idx i : ℕ)
    → ((drained vq idx).fqman.queues i).avail
        + (if idx == i then fire_bytes (vq.fqman.queues idx) else 0)
      ≡ (vq.fqman.queues i).avail
unfolding fired
drained_waits vq idx i = elim (Bool-cases (i == idx)) [
  | inl e ↦
      let same : i ≡ idx = ground arith in rw (same) (ground (arith, fire_le (vq.fqman.queues idx)))
  | inr n ↦ rw n (ground arith)
]

drained_limits :
    (vq : VmQueue) (idx i : ℕ)
    → ((drained vq idx).fqman.queues i).max_chunk ≡ (vq.fqman.queues i).max_chunk
unfolding fired
drained_limits vq idx i = ground arith

pub fire_same :
    (t : Thread) (idx : ℕ)
    → SameQueues (drained t.vq idx).fqman (flow_queue_fire t idx).vq.fqman
      × ((flow_queue_fire t idx).vq.id ≡ t.vq.id)
      × ((flow_queue_fire t idx).vq.avail ≡ t.vq.avail)
unfolding flow_queue_fire
fire_same t idx =
    let t' : Thread = record t { vq = drained t.vq idx } in
    let a = activate_account t' idx in
    elim (Bool-cases (ltb 0 (fired t.vq (t.vq.fqman.queues idx)).avail)) [
      | inl y ↦ rw y (activate_same t' idx, a.0, a.1)
      | inr n ↦ rw n (same_refl _, refl, refl)
    ]

-- One queue sends.
pub poll_queue-Polls : (p : Polled) (idx : ℕ) → Polls 1 p (poll_queue p idx)
unfolding poll_queue
poll_queue-Polls p idx =
    let s = fire_same p.thread idx in
    elim (Bool-cases (ltb 0 (p.thread.vq.fqman.queues idx).avail)) [
      | inr n ↦ rw n (Polls-none 1 p p refl (same_refl p.thread.vq.fqman) refl refl)
      | inl y ↦ rw y (record {
        new =
            record {
              q_id = idx;
              bytes = fire_bytes (p.thread.vq.fqman.queues idx);
              vm_id = p.thread.vq.id;
            }
            ∷ [];
        reported = refl;
        at_most = omega arith;
        waits = λ i. omega (arith, s.0.avail i, drained_waits p.thread.vq idx i);
        limits = λ i. s.0.max_chunk i ∙ drained_limits p.thread.vq idx i;
        fit = (refl, (fire_le (p.thread.vq.fqman.queues idx)).1, tt);
        same_id = s.1;
        same_avail = s.2;
      })
    ]
