-- ===== src/Fast/Qman/Fair.antt =====
-- The loop over the list without limit serves the queues in the order of the list, each once before any
-- twice.
use tas.Base.{
  mem, mem-append, ℕ, zero, suc, ◌+◌, ◌-◌, ◌≤◌, ◌<◌, ◌≡◌, ◌≢◌, refl, sym, ◌∙◌, ap, subst, arith,
  true, false, List, [], ◌∷◌, ◌++◌, Option, none, some, ltb, dec_lt, ◌==◌, if◌then◌else◌, put-other,
  Bool-cases, inl, inr, length, length-append, take, map,
}
use mathlib.Core.List.{append_assoc, append-nil}
use tas.Fast.Qman.{FlowQueue, FlowQman}
use tas.Fast.Qman.Flows.{
  Thread, Chunk, Polled, with_fqman, with_queue, flow_queue_activate, flow_queue_activate_nolimit,
  nolimit_pop, fire_bytes, fired, flow_queue_fire, poll_queue, room, nolimit_round, nolimit_loop,
}
use tas.Fast.Qman.Poll.{flow_poll_nolimit}
use tas.Fast.Qman.Avail.{pop_same}
use tas.Fast.Qman.Chunks.{fire_same}
use tas.Fast.Qman.Fifo.{IsQueue, IsQueue-frame, pop-IsQueue, activate-IsQueue}

-- the queues that chunks are of
abbrev pub ids : List Chunk → List ℕ
ids cs = map (λ c. c.q_id) cs

activate_nolimited :
    (t : Thread) (idx : ℕ)
    → (t.vq.fqman.queues idx).rate ≡ 0
    → (flow_queue_activate t idx).vq.fqman ≡ flow_queue_activate_nolimit t.vq.fqman idx
unfolding flow_queue_activate
activate_nolimited t idx z =
    let b : ((t.vq.fqman.queues idx).rate == 0) ≡ true = ground (arith, z) in rw b refl

-- Where the queue `idx` is afterwards, when it sent: at the end, if bytes are left.
abbrev again : FlowQueue → ℕ → List ℕ
again q idx = if ltb 0 (q.avail - fire_bytes q) then idx ∷ [] else []

fire-IsQueue :
    (t : Thread) (idx : ℕ) (xs : List ℕ)
    → (t.vq.fqman.queues idx).rate ≡ 0
    → mem idx xs ≡ false
    → IsQueue t.vq.fqman xs
    → IsQueue (flow_queue_fire t idx).vq.fqman (xs ++ again (t.vq.fqman.queues idx) idx)
unfolding flow_queue_fire fired
fire-IsQueue t idx xs z m h =
    let q = fired t.vq (t.vq.fqman.queues idx) in
    let t' : Thread = record t { vq = with_fqman t.vq (with_queue t.vq.fqman idx q) } in
    let h' : IsQueue t'.vq.fqman xs = IsQueue-frame t.vq.fqman xs idx q refl refl h in
    let z' : (t'.vq.fqman.queues idx).rate ≡ 0 = ground (arith, z) in
    elim (Bool-cases (ltb 0 ((t.vq.fqman.queues idx).avail - fire_bytes (t.vq.fqman.queues idx)))) [
      | inl y ↦ rw y (
          subst (λ fq. IsQueue fq (xs ++ idx ∷ [])) (sym (activate_nolimited t' idx z'))
            (activate-IsQueue t'.vq.fqman xs idx m h'))
      | inr n ↦ rw n (subst (λ l. IsQueue t'.vq.fqman l) (sym (append-nil xs)) h')
    ]

-- A queue without limit, out of the list, sends.
turn-IsQueue :
    (p : Polled) (idx : ℕ) (xs : List ℕ)
    → (p.thread.vq.fqman.queues idx).rate ≡ 0
    → 0 < (p.thread.vq.fqman.queues idx).avail
    → mem idx xs ≡ false
    → IsQueue p.thread.vq.fqman xs
    → IsQueue (poll_queue p idx).thread.vq.fqman (xs ++ again (p.thread.vq.fqman.queues idx) idx)
unfolding poll_queue
turn-IsQueue p idx xs z a m h =
    let y : ltb 0 (p.thread.vq.fqman.queues idx).avail ≡ true = ground arith in
    rw y (fire-IsQueue p.thread idx xs z m h)

ids-append : (cs ds : List Chunk) → ids (cs ++ ds) ≡ ids cs ++ ids ds
ids-append [] ds = refl
ids-append (c ∷ cs) ds = rw (ids-append cs ds)

turn_ids :
    (p : Polled) (idx : ℕ)
    → 0 < (p.thread.vq.fqman.queues idx).avail
    → ids (poll_queue p idx).chunks ≡ ids p.chunks ++ idx ∷ []
unfolding poll_queue
turn_ids p idx a =
    let y : ltb 0 (p.thread.vq.fqman.queues idx).avail ≡ true = ground arith in
    rw y (ids-append p.chunks _)

-- no limit, and something to send
abbrev pub IsReady : FlowQman → ℕ → Type 0
IsReady fq i = ((fq.queues i).rate ≡ 0) × (0 < (fq.queues i).avail)

IsReady-other :
    (fq : FlowQman) (idx i : ℕ) (q : FlowQueue)
    → i ≢ idx
    → IsReady fq i
    → IsReady (with_queue fq idx q) i
IsReady-other fq idx i q far r =
    subst (λ u. (u.rate ≡ 0) × (0 < u.avail)) (sym (put-other fq.queues idx q i far)) r

turn_others :
    (p : Polled) (idx i : ℕ)
    → i ≢ idx
    → IsReady p.thread.vq.fqman i
    → IsReady (poll_queue p idx).thread.vq.fqman i
unfolding poll_queue
turn_others p idx i far r = elim (Bool-cases (ltb 0 (p.thread.vq.fqman.queues idx).avail)) [
  | inr n ↦ rw n r
  | inl y ↦
      let s = (fire_same p.thread idx).0 in
      let d =
        IsReady-other p.thread.vq.fqman idx i (fired p.thread.vq (p.thread.vq.fqman.queues idx)) far
          r in
      rw y (s.rate i ∙ d.0, subst (λ n. 0 < n) (sym (s.avail i)) d.1)
]

-- The first queue of the list has its turn.
abbrev popped : Polled → ℕ → Polled
popped p x = record p {
  thread = record (p.thread) { vq = with_fqman p.thread.vq (nolimit_pop p.thread.vq.fqman x) };
}

popped-IsReady :
    (p : Polled) (x i : ℕ) → IsReady p.thread.vq.fqman i → IsReady (popped p x).thread.vq.fqman i
popped-IsReady p x i r =
    let s = pop_same p.thread.vq.fqman x in
    (s.rate i ∙ r.0, subst (λ n. 0 < n) (sym (s.avail i)) r.1)

turn_length :
    (p : Polled) (idx : ℕ)
    → 0 < (p.thread.vq.fqman.queues idx).avail
    → length (poll_queue p idx).chunks ≡ length p.chunks + 1
unfolding poll_queue
turn_length p idx a =
    let y : ltb 0 (p.thread.vq.fqman.queues idx).avail ≡ true = ground arith in
    rw y (length-append p.chunks _)

round_full :
    (next : Polled → Polled) (start num : ℕ) (p : Polled) (o : Option ℕ)
    → room start p num ≡ 0
    → nolimit_round next start num p o ≡ p
unfolding nolimit_round
round_full next start num p none f = refl
round_full next start num p (some x) f =
    let y : ltb 0 (room start p num) ≡ false = ground arith in rw y refl

round_turn :
    (next : Polled → Polled) (start num : ℕ) (p : Polled) (o : Option ℕ) (x : ℕ)
    → 0 < room start p num
    → o ≡ some x
    → nolimit_round next start num p o ≡ next (poll_queue (popped p x) x)
unfolding nolimit_round
round_turn next start num p none x f e = ground arith
round_turn next start num p (some y) x f e =
    let t : ltb 0 (room start p num) ≡ true = ground arith in
    let same : y ≡ x = ground arith in rw (t, same) refl

take-suc :
    {A : Type 0} (k j : ℕ) (x : A) (xs : List A) → k ≡ suc j → take k (x ∷ xs) ≡ x ∷ take j xs
take-suc k j x xs h = rw h refl

apart : (i x : ℕ) (xs zs : List ℕ) → mem i xs ≡ true → mem x (xs ++ zs) ≡ false → i ≢ x
apart i x xs zs m o e =
    let m' : mem x xs ≡ true = subst (λ j. mem j xs ≡ true) e m in
    ground (arith, mem-append x xs zs)

-- `flow_poll_nolimit` where `xs` is in the list, followed by `zs`, and each of `xs` has bytes to send and
-- no limit.
loop_in_order :
    (fuel start num : ℕ) (p : Polled) (xs zs : List ℕ)
    → IsQueue p.thread.vq.fqman (xs ++ zs)
    → ((i : ℕ) → mem i xs ≡ true → IsReady p.thread.vq.fqman i)
    → room start p num ≤ length xs
    → room start p num ≤ fuel
    → ids (nolimit_loop fuel start num p).chunks ≡ ids p.chunks ++ take (room start p num) xs
unfolding nolimit_loop
loop_in_order zero start num p xs zs q r l f =
    let z : room start p num ≡ 0 = omega arith in rw z (sym (append-nil (ids p.chunks)))
loop_in_order (suc fuel) start num p [] zs q r l f =
    let z : room start p num ≡ 0 = omega arith in
    ap (λ p'. ids p'.chunks)
      (round_full (nolimit_loop fuel start num) start num p p.thread.vq.fqman.nolimit_head_idx z)
    ∙ rw z (sym (append-nil (ids p.chunks)))
loop_in_order (suc fuel) start num p (x ∷ xs) zs q r l f = elim (dec_lt 0 (room start p num)) [
  | no full ↦
      let z : room start p num ≡ 0 = omega arith in
      ap (λ p'. ids p'.chunks)
        (round_full (nolimit_loop fuel start num) start num p p.thread.vq.fqman.nolimit_head_idx z)
      ∙ rw z (sym (append-nil (ids p.chunks)))
  | yes some_room ↦
      let p1 = popped p x in
      let p2 = poll_queue p1 x in
      let ready = popped-IsReady p x x (r x (ground arith)) in
      let out : mem x (xs ++ zs) ≡ false = ground (arith, q.once) in
      let q1 = pop-IsQueue p.thread.vq.fqman x (xs ++ zs) q in
      let q2 = turn-IsQueue p1 x (xs ++ zs) ready.0 ready.1 out q1 in
      let n = turn_length p1 x ready.1 in
      let rest =
        loop_in_order fuel start num p2 xs (zs ++ again (p1.thread.vq.fqman.queues x) x)
          (subst (λ l. IsQueue p2.thread.vq.fqman l) (append_assoc xs zs _) q2)
          (λ i m.
            turn_others p1 x i (apart i x xs zs m out) (popped-IsReady p x i (r i (ground arith))))
          (omega arith) (omega arith) in
      ap (λ p'. ids p'.chunks)
        (round_turn (nolimit_loop fuel start num) start num p p.thread.vq.fqman.nolimit_head_idx x
          some_room q.chain.0)
      ∙ rest
      ∙ ap (λ l. l ++ take (room start p2 num) xs) (turn_ids p1 x ready.1)
      ∙ append_assoc (ids p.chunks) (x ∷ []) (take (room start p2 num) xs)
      ∙ ap (λ l. ids p.chunks ++ l)
          (sym (take-suc (room start p num) (room start p2 num) x xs (omega arith)))
]

-- `flow_poll_nolimit` for `num` chunks, with fuel for `num` rounds, where the list holds `xs`, at least
-- `num` queues, each with bytes to send and no limit: it reports one chunk of each of the first `num`, in
-- the order of the list. None of them may be in the skip list too,
-- against which `flow_queue_activate_nolimit` has an assertion.
pub poll_nolimit_in_order :
    (fuel num : ℕ) (p : Polled) (xs : List ℕ)
    → IsQueue p.thread.vq.fqman xs
    → ((i : ℕ) → mem i xs ≡ true → IsReady p.thread.vq.fqman i)
    → ((i : ℕ) → mem i xs ≡ true → (p.thread.vq.fqman.queues i).in_skiplist ≡ false)
    → num ≤ length xs
    → num ≤ fuel
    → ids (flow_poll_nolimit fuel num p).chunks ≡ ids p.chunks ++ take num xs
unfolding flow_poll_nolimit
poll_nolimit_in_order fuel num p xs q r s l f =
    let n : room (length p.chunks) p num ≡ num = omega arith in
    loop_in_order fuel (length p.chunks) num p xs []
      (subst (λ l. IsQueue p.thread.vq.fqman l) (sym (append-nil xs)) q) r (omega arith)
      (omega arith)
    ∙ ap (λ k. ids p.chunks ++ take k xs) n
