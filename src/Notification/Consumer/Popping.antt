-- ===== src/Notification/Consumer/Popping.antt =====
-- What `pop` and `pops` return, and that a message that was sent is what is popped.
use mathlib.Core.Bool.{Bool, true}
use sonic_swss_common.Prelude.{
  List, [], ◌∷◌, ◌++◌, Option, some, Bytes, ◌≡◌, refl, ap, subst, sym, ◌∙◌, arith, length, drop,
  append-nil, append_assoc, nat_eq,
}
use sonic_swss_common.Prelude.Maybe.{◌>>=◌, bind-eq-some}
use sonic_swss_common.Kco.{Kco}
use sonic_swss_common.Notification.Producer.{Json}
use sonic_swss_common.Notification.Queue.Refines.{messages-pop}
use sonic_swss_common.Notification.Consumer.{
  Consumer, NotificationQueue, fifo, lru_dedup, messages, pop_front, size, decode, pop, drain,
}

messages-pop_front : (q : NotificationQueue) → messages (pop_front q) ≡ drop 1 (messages q)
unfolding messages pop_front
messages-pop_front (fifo q) = refl
messages-pop_front (lru_dedup q) = messages-pop q

module _ (json : Json) where
  -- The tuples of the messages, in order, if all can be read.
  abbrev pub decode_all : List Bytes → Option (List Kco)
  decode_all [] = some []
  decode_all (msg ∷ ms) = decode json msg >>= λ kco. decode_all ms >>= λ kcos. some (kco ∷ kcos)

  pub record Drained (vkco : List Kco) (c : Consumer) (end : Bool × List Kco × Consumer)
      : Type 0 where
    pub returned : end.0 ≡ true
    pub all : end.1 ≡ vkco
    pub empty : messages end.2.queue ≡ []
    pub same : end.2 ≡ record c { queue = end.2.queue }

  pub pop-some :
      (msg : Bytes) (ms : List Bytes) (kco : Kco) (c : Consumer)
      → messages c.queue ≡ msg ∷ ms
      → decode json msg ≡ some kco
      → pop json c ≡ (some kco, record c { queue = pop_front c.queue })
  unfolding pop
  pop-some msg ms kco c m d = ground arith

  Drained-step :
      (vkco : List Kco) (kco : Kco) (kcos : List Kco) (c : Consumer) (q : NotificationQueue)
      (end : Bool × List Kco × Consumer)
      → Drained ((vkco ++ kco ∷ []) ++ kcos) (record c { queue = q }) end
      → Drained (vkco ++ kco ∷ kcos) c end
  Drained-step vkco kco kcos c q end h = record {
    returned = h.returned;
    all = h.all ∙ append_assoc vkco (kco ∷ []) kcos;
    empty = h.empty;
    same = h.same;
  }

  pub drain_step :
      (msg : Bytes) (ms : List Bytes) (vkco : List Kco) (kco : Kco) (c : Consumer)
      → messages c.queue ≡ msg ∷ ms
      → decode json msg ≡ some kco
      → drain json (length (msg ∷ ms)) vkco c
        ≡ drain json (length ms) (vkco ++ kco ∷ []) (record c { queue = pop_front c.queue })
  unfolding drain
  drain_step msg ms vkco kco c m d = ground (arith, pop-some msg ms kco c m d)

  drain-Drained :
      (ms : List Bytes) (vkco kcos : List Kco) (c : Consumer)
      → messages c.queue ≡ ms
      → decode_all ms ≡ some kcos
      → Drained (vkco ++ kcos) c (drain json (length ms) vkco c)
  unfolding drain
  drain-Drained [] vkco kcos c m d = record {
    returned = refl;
    all = sym (append-nil vkco) ∙ ap (λ (l : List Kco). vkco ++ l) (ground arith);
    empty = m;
    same = refl;
  }
  drain-Drained (msg ∷ ms) vkco kcos c m d =
      let (kco, first, more) = bind-eq-some (decode json msg) _ d in
      let (rest, tail, e) = bind-eq-some (decode_all ms) _ more in
      let whole : kco ∷ rest ≡ kcos = ground arith in
      subst (λ (l : List Kco). Drained (vkco ++ l) c (drain json (length (msg ∷ ms)) vkco c)) whole
        (subst (Drained (vkco ++ kco ∷ rest) c) (sym (drain_step msg ms vkco kco c m first)) (
          Drained-step vkco kco rest c (pop_front c.queue) _ (
            drain-Drained ms (vkco ++ kco ∷ []) rest (record c { queue = pop_front c.queue })
              (messages-pop_front c.queue ∙ ap (drop 1) m) tail)))

  -- The inner loop of `pops` returns all that is queued.
  pub drain_all :
      (vkco kcos : List Kco) (c : Consumer)
      → decode_all (messages c.queue) ≡ some kcos
      → Drained (vkco ++ kcos) c (drain json (size c.queue) vkco c)
  unfolding size
  drain_all vkco kcos c d = drain-Drained (messages c.queue) vkco kcos c refl d
