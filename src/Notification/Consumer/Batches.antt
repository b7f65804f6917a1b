-- ===== src/Notification/Consumer/Batches.antt =====
-- `pops` over several arrivals.
use mathlib.Core.Bool.{true, false}
use sonic_swss_common.Prelude.{
  ◌^◌, ◌<◌, List, [], ◌∷◌, ◌++◌, some, map, Bytes, ◌≡◌, refl, ap, sym, ◌∙◌, arith, if◌then◌else◌,
  length, Bool-cases, inl, inr, append-nil, append_assoc, leb, ◌==◌, nat_eq, subst, All,
}
use sonic_swss_common.Prelude.Maybe.{bind-eq-some}
use sonic_swss_common.Kco.{Kco}
use sonic_swss_common.Notification.Producer.{Json}
use sonic_swss_common.Notification.Consumer.{
  Consumer, fifo, push, messages, pop_front, size, decode, drain, is_admitted, Popped, pops_loop,
  pops, Arrived, read_data,
}
use sonic_swss_common.Notification.Consumer.Admission.{
  taken, published, admitted, push_all, read_data-admitted,
}
use sonic_swss_common.Notification.Consumer.Popping.{decode_all, drain_step}

-- The messages that one peek finds, at least one, in the order of their publishing.
abbrev pub Batch : Type 0
Batch = Bytes × List Bytes

abbrev pub all_of : Batch → List Bytes
all_of (msg, ms) = msg ∷ ms

abbrev pub arrive : Bytes → Bytes → Batch → Arrived
arrive kind channel b = record { replies = published kind channel (all_of b); intact = true }

abbrev pub admitted_of : List Bytes → List Batch → List Bytes
admitted_of ops [] = []
admitted_of ops (b ∷ bs) = admitted ops (all_of b) ++ admitted_of ops bs

push_all-fifo : (ms q : List Bytes) → push_all ms (fifo q) ≡ fifo (q ++ ms)
unfolding push
push_all-fifo [] q = ap fifo (sym (append-nil q))
push_all-fifo (msg ∷ ms) q =
    push_all-fifo ms (q ++ msg ∷ []) ∙ ap fifo (append_assoc q (msg ∷ []) ms)

module _ (json : Json) where
  abbrev pub Readable : Bytes → Type 0
  Readable msg = (kco : Kco) × (decode json msg ≡ some kco)

  pub decode_all-Readable :
      (ms : List Bytes) → All Readable ms → (kcos : List Kco) × (decode_all json ms ≡ some kcos)
  decode_all-Readable [] h = ([], refl)
  decode_all-Readable (msg ∷ ms) ((kco, d), h) =
      let (kcos, ds) = decode_all-Readable ms h in (kco ∷ kcos, rw d (rw ds refl))

  admitted-Readable : (ops ms : List Bytes) → All Readable ms → All Readable (admitted ops ms)
  admitted-Readable ops [] h = tt
  admitted-Readable ops (msg ∷ ms) (r, h) = elim (Bool-cases (is_admitted ops msg)) [
    | inl allowed ↦ rw allowed (r, admitted-Readable ops ms h)
    | inr barred ↦ rw barred (admitted-Readable ops ms h)
  ]

  decode_all-append :
      (ms ns : List Bytes) (ks ls : List Kco)
      → decode_all json ms ≡ some ks
      → decode_all json ns ≡ some ls
      → decode_all json (ms ++ ns) ≡ some (ks ++ ls)
  decode_all-append [] ns ks ls d e = ground arith
  decode_all-append (msg ∷ ms) ns ks ls d e =
      let (kco, first, more) = bind-eq-some (decode json msg) _ d in
      let (rest, tail, f) = bind-eq-some (decode_all json ms) _ more in
      ground (arith, decode_all-append ms ns rest ls tail e)

  -- One round of the outer loop, from a queue that is not empty, without an exception.
  pops_loop_step :
      (a : Arrived) (later : List Arrived) (vkco v1 : List Kco) (c c1 : Consumer)
      → drain json (size c.queue) vkco c ≡ (true, v1, c1)
      → (size c.queue == 0) ≡ false
      → pops_loop json (a ∷ later) vkco c ≡ (
          if leb c.pop_batch_size (length v1)
          then record { returned = true; vkco = v1; arrivals = a ∷ later; consumer = c1 }
          else if (read_data a c1).0
          then pops_loop json later v1 (read_data a c1).2
          else record {
            returned = false;
            vkco = v1;
            arrivals = record a { replies = (read_data a c1).1 } ∷ later;
            consumer = (read_data a c1).2;
          })
  unfolding pops_loop
  pops_loop_step a later vkco v1 c c1 d full = ground arith

  pops_loop_empty :
      (a : Arrived) (later : List Arrived) (vkco : List Kco) (c : Consumer)
      → (size c.queue == 0) ≡ true
      → pops_loop json (a ∷ later) vkco c
        ≡ record { returned = true; vkco = vkco; arrivals = a ∷ later; consumer = c }
  unfolding pops_loop
  pops_loop_empty a later vkco c empty = ground arith

  drain_fifo :
      (ms : List Bytes) (vkco kcos : List Kco) (c : Consumer)
      → decode_all json ms ≡ some kcos
      → drain json (length ms) vkco (record c { queue = fifo ms })
        ≡ (true, vkco ++ kcos, record c { queue = fifo [] })
  unfolding drain messages pop_front
  drain_fifo [] vkco kcos c d = ground (arith, append-nil vkco)
  drain_fifo (msg ∷ ms) vkco kcos c d =
      let (kco, first, more) = bind-eq-some (decode json msg) _ d in
      let (rest, tail, f) = bind-eq-some (decode_all json ms) _ more in
      let whole : kco ∷ rest ≡ kcos = ground arith in
      drain_step json msg ms vkco kco (record c { queue = fifo (msg ∷ ms) }) refl first
      ∙ drain_fifo ms (vkco ++ kco ∷ []) rest c tail
      ∙ ground (arith, append_assoc vkco (kco ∷ []) rest)

  -- What `pops` took: the batches that it read, and those that it left.
  pub record Took (kind channel : Bytes) (ms : List Bytes) (ops : List Bytes) (vkco : List Kco)
      (batches : List Batch) (end : Popped json) : Type 0 where
    pub read : List Batch
    pub left : List Batch
    pub kcos : List Kco
    pub split : batches ≡ read ++ left
    pub decoded : decode_all json (ms ++ admitted_of ops read) ≡ some kcos
    pub returned : end.returned ≡ true
    pub order : end.vkco ≡ vkco ++ kcos
    pub arrivals : end.arrivals ≡ map (arrive kind channel) left
    pub empty : end.consumer.queue ≡ fifo []

  module _ (kind channel : Bytes) where
    nothing_more :
        (q : List Bytes) (vkco kcos : List Kco) (c : Consumer)
        → decode_all json q ≡ some kcos
        → pops_loop json [] vkco (record c { queue = fifo q }) ≡ record {
          returned = true;
          vkco = vkco ++ kcos;
          arrivals = [];
          consumer = record c { queue = fifo [] };
        }
    unfolding pops_loop size messages
    nothing_more q vkco kcos c d = ground (arith, drain_fifo q vkco kcos c d)

    -- Nothing is read.
    Took-none :
        (ms : List Bytes) (ops : List Bytes) (vkco kcos : List Kco) (batches : List Batch)
        (c : Consumer)
        → decode_all json ms ≡ some kcos
        → c.queue ≡ fifo []
        → Took kind channel ms ops vkco batches (record {
          returned = true;
          vkco = vkco ++ kcos;
          arrivals = map (arrive kind channel) batches;
          consumer = c;
        })
    Took-none ms ops vkco kcos batches c d e = record {
      read = [];
      left = batches;
      kcos = kcos;
      split = refl;
      decoded = rw append-nil d;
      returned = refl;
      order = refl;
      arrivals = refl;
      empty = e;
    }

    -- A batch is read, and then what `t` says.
    Took-more :
        (ms : List Bytes) (ops : List Bytes) (vkco kcos : List Kco) (b : Batch) (bs : List Batch)
        (end : Popped json)
        → decode_all json ms ≡ some kcos
        → Took kind channel (admitted ops (all_of b)) ops (vkco ++ kcos) bs end
        → Took kind channel ms ops vkco (b ∷ bs) end
    Took-more ms ops vkco kcos b bs end d t = record {
      read = b ∷ t.read;
      left = t.left;
      kcos = kcos ++ t.kcos;
      split = ap (λ (l : List Batch). b ∷ l) t.split;
      decoded =
          decode_all-append ms (admitted ops (all_of b) ++ admitted_of ops t.read) kcos t.kcos d
            t.decoded;
      returned = t.returned;
      order = t.order ∙ append_assoc vkco kcos t.kcos;
      arrivals = t.arrivals;
      empty = t.empty;
    }

    full_round :
        (msg : Bytes) (ms : List Bytes) (b : Batch) (later : List Arrived) (vkco kcos : List Kco)
        (c : Consumer)
        → decode_all json (msg ∷ ms) ≡ some kcos
        → c.received < 2 ^ 64
        → c.dropped < 2 ^ 64
        → pops_loop json (arrive kind channel b ∷ later) vkco (record c { queue = fifo (msg ∷ ms) })
          ≡ (if leb c.pop_batch_size (length (vkco ++ kcos))
              then record {
                returned = true;
                vkco = vkco ++ kcos;
                arrivals = arrive kind channel b ∷ later;
                consumer = record c { queue = fifo [] };
              }
              else pops_loop json later
                  (vkco ++ kcos)
                  (record (taken (all_of b) c) { queue = fifo (admitted c.ops (all_of b)) }))
    unfolding size messages
    full_round msg ms (m, bs) later vkco kcos c d lt lt' =
        pops_loop_step (arrive kind channel (m, bs)) later vkco (vkco ++ kcos)
          (record c { queue = fifo (msg ∷ ms) }) (record c { queue = fifo [] })
          (drain_fifo (msg ∷ ms) vkco kcos c d) (ground arith)
        ∙ rw
            (
              read_data-admitted kind channel m bs true (record c { queue = fifo [] }) lt lt',
              push_all-fifo,
            )
            refl

    pops_loop-Took :
        (batches : List Batch) (q : List Bytes) (vkco : List Kco) (c : Consumer)
        → All Readable q
        → All (λ (b : Batch). All Readable (all_of b)) batches
        → c.received < 2 ^ 64
        → c.dropped < 2 ^ 64
        → Took kind channel q c.ops vkco batches
            (pops_loop json (map (arrive kind channel) batches) vkco (record c { queue = fifo q }))
    unfolding size
    pops_loop-Took [] q vkco c h hs r d =
        let (kcos, ds) = decode_all-Readable q h in
        subst (Took kind channel q c.ops vkco []) (sym (nothing_more q vkco kcos c ds))
          (Took-none q c.ops vkco kcos [] (record c { queue = fifo [] }) ds refl)
    pops_loop-Took (b ∷ bs) [] vkco c h hs r d =
        subst (Took kind channel [] c.ops vkco (b ∷ bs))
          (sym (
            pops_loop_empty (arrive kind channel b) _ vkco (record c { queue = fifo [] }) refl
            ∙ ground (arith, append-nil vkco)))
          (Took-none [] c.ops vkco [] (b ∷ bs) (record c { queue = fifo [] }) refl refl)
    pops_loop-Took (b ∷ bs) (msg ∷ ms) vkco c h (hb, hs) r d =
        let (kcos, ds) = decode_all-Readable (msg ∷ ms) h in
        subst (Took kind channel (msg ∷ ms) c.ops vkco (b ∷ bs))
          (sym (full_round msg ms b (map (arrive kind channel) bs) vkco kcos c ds r d))
          (elim (Bool-cases (leb c.pop_batch_size (length (vkco ++ kcos)))) [
            | inl many ↦ rw many (
                Took-none (msg ∷ ms) c.ops vkco kcos (b ∷ bs) (record c { queue = fifo [] }) ds
                  refl)
            | inr few ↦ rw few (
                Took-more (msg ∷ ms) c.ops vkco kcos b bs _ ds (
                  pops_loop-Took bs (admitted c.ops (all_of b)) (vkco ++ kcos) (taken (all_of b) c)
                    (admitted-Readable c.ops (all_of b) hb) hs (omega arith) (omega arith)))
          ])

    -- No message is lost, made up or put out of order: with a queue in the order of arrival, and
    -- messages that can all be read, in the queue and in the batches on their way, `pops` returns
    -- without an exception. It has read the first batches and no part of the others, it returns the
    -- tuples of the messages that were queued and of those in these batches whose operation is on
    -- the allowlist, in the order of arrival, and it leaves the queue empty.
    pub pops-Took :
        (batches : List Batch) (q : List Bytes) (c : Consumer)
        → All Readable q
        → All (λ (b : Batch). All Readable (all_of b)) batches
        → c.received < 2 ^ 64
        → c.dropped < 2 ^ 64
        → Took kind channel q c.ops [] batches
            (pops json (map (arrive kind channel) batches) (record c { queue = fifo q }))
    unfolding pops
    pops-Took batches q c h hs r d = pops_loop-Took batches q [] c h hs r d
