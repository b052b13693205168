-- ===== src/Fast/Qman/Fifo.antt =====
-- The list without limit is a queue: what is activated goes to its end, a poll takes from its front.
use tas.Base.{
  mem, distinct, mem-append, distinct-snoc, ℕ, ◌≡◌, ◌≢◌, refl, sym, ◌∙◌, ap, arith, Bool, true,
  false, List, [], ◌∷◌, ◌++◌, Option, none, some, ◌||◌, ◌==◌, ==_iff, if◌then◌else◌, put,
  Bool-cases, Option-cases, inl, inr,
}
use tas.Fast.Qman.{FlowQueue, FlowQman}
use tas.Fast.Qman.Flows.{with_queue, flow_queue_activate_nolimit, nolimit_pop}
use tas.Fast.Qman.Chain.{Chain, last, last-snoc, last-mem, Chain-frame, Chain-snoc}

-- `next_idxs[0]`
abbrev pub links : FlowQman → ℕ → Option ℕ
links fq i = (fq.queues i).next_idxs 0

-- The list without limit holds `xs`, in this order, and the flags say so.
pub record IsQueue (fq : FlowQman) (xs : List ℕ) : Type 0 where
  pub chain : Chain (links fq) fq.nolimit_head_idx xs
  pub tail : fq.nolimit_tail_idx ≡ last xs
  pub once : distinct xs ≡ true
  pub flags : (i : ℕ) → (fq.queues i).in_nolimit ≡ mem i xs

link_if :
    (b : Bool) (q r : FlowQueue)
    → (if b then q else r).next_idxs 0 ≡ (if b then q.next_idxs 0 else r.next_idxs 0)
link_if true q r = refl
link_if false q r = refl

flag_if :
    (b : Bool) (q r : FlowQueue)
    → (if b then q else r).in_nolimit ≡ (if b then q.in_nolimit else r.in_nolimit)
flag_if true q r = refl
flag_if false q r = refl

put_flag :
    (fq : FlowQman) (idx : ℕ) (q : FlowQueue) (i : ℕ)
    → ((with_queue fq idx q).queues i).in_nolimit
      ≡ (if i == idx then q.in_nolimit else (fq.queues i).in_nolimit)
put_flag fq idx q i = flag_if (i == idx) q (fq.queues i)

put_link :
    (fq : FlowQman) (idx : ℕ) (q : FlowQueue) (i : ℕ)
    → links (with_queue fq idx q) i ≡ (if i == idx then q.next_idxs 0 else links fq i)
put_link fq idx q i = link_if (i == idx) q (fq.queues i)

frame_links :
    (fq : FlowQman) (idx : ℕ) (q : FlowQueue) (i : ℕ)
    → q.next_idxs 0 ≡ links fq idx
    → links (with_queue fq idx q) i ≡ links fq i
frame_links fq idx q i n = put_link fq idx q i ∙ elim (Bool-cases (i == idx)) [
  | inl e ↦ let same : i ≡ idx = ground arith in rw e (n ∙ ap (links fq) (sym same))
  | inr e ↦ rw e refl
]

-- A queue that changes nothing of its links and its flag.
pub IsQueue-frame :
    (fq : FlowQman) (xs : List ℕ) (idx : ℕ) (q : FlowQueue)
    → q.next_idxs 0 ≡ links fq idx
    → q.in_nolimit ≡ (fq.queues idx).in_nolimit
    → IsQueue fq xs
    → IsQueue (with_queue fq idx q) xs
IsQueue-frame fq xs idx q n f h = record {
  chain =
      Chain-frame (links fq) (links (with_queue fq idx q)) fq.nolimit_head_idx xs
        (λ i m. frame_links fq idx q i n) h.chain;
  tail = h.tail;
  once = h.once;
  flags = λ i. elim (Bool-cases (i == idx)) [
    | inl e ↦
        let same : i ≡ idx = ground arith in put_flag fq idx q i ∙ (rw (e, same) (f ∙ h.flags idx))
    | inr e ↦ put_flag fq idx q i ∙ (rw e (h.flags i))
  ];
}

-- The first queue leaves.
pub pop-IsQueue :
    (fq : FlowQman) (x : ℕ) (xs : List ℕ) → IsQueue fq (x ∷ xs) → IsQueue (nolimit_pop fq x) xs
unfolding nolimit_pop
pop-IsQueue fq x [] h = record {
  chain = h.chain.1;
  tail = rw h.chain.1 refl;
  once = refl;
  flags = λ i.
      put_flag fq x (record (fq.queues x) { in_nolimit = false }) i ∙ ground (arith, h.flags i);
}
pop-IsQueue fq x (y ∷ xs) h =
    let q = record (fq.queues x) { in_nolimit = false } in
    record {
      chain =
          Chain-frame (links fq) (links (nolimit_pop fq x)) (links fq x) (y ∷ xs)
            (λ i m. frame_links fq x q i refl) h.chain.1;
      tail = rw h.chain.1.0 h.tail;
      once = ground (arith, h.once);
      flags = λ i. put_flag fq x q i ∙ ground (arith, h.once, h.flags i, ==_iff i x);
    }

head_none :
    (fq : FlowQman) (idx : ℕ)
    → fq.nolimit_tail_idx ≡ none
    → (flow_queue_activate_nolimit fq idx).nolimit_head_idx ≡ some idx
unfolding flow_queue_activate_nolimit
head_none fq idx e = rw e refl

last-cons : (x : ℕ) (xs : List ℕ) → last (x ∷ xs) ≢ none
last-cons x [] e = ground arith
last-cons x (y ∷ xs) e = last-cons y xs e

-- the two queues that the code changes, where the list is not empty
linked : FlowQman → ℕ → ℕ → FlowQman
linked fq t idx =
    let q = fq.queues idx in
    let fq' =
      with_queue fq idx (record q { in_nolimit = true; next_idxs = put q.next_idxs 0 none }) in
    let q_tail = fq'.queues t in
    with_queue fq' t (record q_tail { next_idxs = put q_tail.next_idxs 0 (some idx) })

links-linked :
    (fq : FlowQman) (t idx i : ℕ)
    → links (linked fq t idx) i
      ≡ (if i == t then some idx else if i == idx then none else links fq i)
unfolding linked
links-linked fq t idx i =
    let q = record (fq.queues idx) {
      in_nolimit = true;
      next_idxs = put (fq.queues idx).next_idxs 0 none;
    } in
    let fq' = with_queue fq idx q in
    put_link fq' t (record (fq'.queues t) { next_idxs = put (fq'.queues t).next_idxs 0 (some idx) })
      i
    ∙ ap (λ o. if i == t then some idx else o) (put_link fq idx q i)

linked_flags :
    (fq : FlowQman) (t idx i : ℕ)
    → ((linked fq t idx).queues i).in_nolimit ≡ ((i == idx) || (fq.queues i).in_nolimit)
unfolding linked
linked_flags fq t idx i =
    let q = record (fq.queues idx) {
      in_nolimit = true;
      next_idxs = put (fq.queues idx).next_idxs 0 none;
    } in
    let fq' = with_queue fq idx q in
    put_flag fq' t (record (fq'.queues t) { next_idxs = put (fq'.queues t).next_idxs 0 (some idx) })
      i
    ∙ (elim (Bool-cases (i == t)) [
      | inl e ↦
          let same : i ≡ t = ground arith in
          rw (e)
            (ap (λ j. (fq'.queues j).in_nolimit) (sym same) ∙ put_flag fq idx q i ∙ ground arith)
      | inr e ↦ rw e (put_flag fq idx q i ∙ ground arith)
    ])

appended :
    (fq : FlowQman) (x : ℕ) (xs : List ℕ) (t idx : ℕ)
    → mem idx (x ∷ xs) ≡ false
    → fq.nolimit_tail_idx ≡ some t
    → last (x ∷ xs) ≡ some t
    → IsQueue fq (x ∷ xs)
    → IsQueue (flow_queue_activate_nolimit fq idx) (x ∷ xs ++ idx ∷ [])
unfolding flow_queue_activate_nolimit linked
appended fq x xs t idx m e l h =
    let away : idx ≢ t = ground (arith, last-mem (x ∷ xs) t l) in
    rw e (record {
      chain =
          Chain-snoc (links fq) (links (linked fq t idx)) fq.nolimit_head_idx (x ∷ xs) t idx l
            h.once (links-linked fq t idx t ∙ ground arith)
            (links-linked fq t idx idx ∙ ground (arith, ==_iff idx t, ==_iff t idx))
            (λ i n far. links-linked fq t idx i ∙ ground (arith, ==_iff i t, ==_iff i idx)) h.chain;
      tail = sym (last-snoc (x ∷ xs) idx);
      once = distinct-snoc (x ∷ xs) idx h.once m;
      flags = λ i.
          linked_flags fq t idx i ∙ ground (arith, h.flags i, mem-append i (x ∷ xs) (idx ∷ []));
    })

-- `flow_queue_activate_nolimit` on a queue that is in no list puts it at the end.
pub activate-IsQueue :
    (fq : FlowQman) (xs : List ℕ) (idx : ℕ)
    → mem idx xs ≡ false
    → IsQueue fq xs
    → IsQueue (flow_queue_activate_nolimit fq idx) (xs ++ idx ∷ [])
unfolding flow_queue_activate_nolimit
activate-IsQueue fq [] idx m h =
    let q = record (fq.queues idx) {
      in_nolimit = true;
      next_idxs = put (fq.queues idx).next_idxs 0 none;
    } in
    rw h.tail (record {
      chain = (refl, put_link fq idx q idx ∙ ground arith);
      tail = refl;
      once = refl;
      flags = λ i. put_flag fq idx q i ∙ ground (arith, h.flags i);
    })
activate-IsQueue fq (x ∷ xs) idx m h = elim (Option-cases (last (x ∷ xs))) [
  | inl e ↦ elim (last-cons x xs e) [ ]
  | inr w ↦ appended fq x xs w.0 idx m (h.tail ∙ w.1) w.1 h
]
