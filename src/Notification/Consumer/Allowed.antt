-- ===== src/Notification/Consumer/Allowed.antt =====
-- The allowlist of `readData` by the operations of the messages, and the replies that it refuses.
use mathlib.Core.Bool.{Bool, true, false, ◌&&◌, not}
use sonic_swss_common.Prelude.{
  ℕ, ◌+◌, ◌%◌, ◌^◌, List, [], ◌∷◌, ◌++◌, none, some, map, Bytes, bytes_eq, nat_eq, codes, ◌≡◌, ◌≢◌,
  refl, ap, ◌∙◌, ◌<◌, arith, if◌then◌else◌, length, Bool-cases, Option-cases, inl, inr, ◌⊎◌, suc,
  ◌==◌, eq_iff, contains, All, Lacks,
}
use sonic_swss_common.Notification.Consumer.{
  Consumer, Reply, array, other, process_reply, is_admitted, read_replies, read_data, until_quote,
  peek_op,
}
use sonic_swss_common.Notification.Consumer.Admission.{
  push_all, published, taken, admitted, refused, read_data-admitted, read_replies-published,
}

-- A message that starts with a bracket and the operation between quotation marks.
abbrev pub Quotes : Bytes → Bytes → Type 0
Quotes op text = Lacks b'"' op × ((rest : Bytes) × (text ≡ codes "[\"" ++ op ++ b'"' ∷ rest))

-- The operation of a message: what it quotes, and nothing if it does not start so.
abbrev pub HasOp : Bytes × Bytes → Type 0
HasOp (op, text) = Quotes op text ⊎ ((op ≡ []) × ((o : Bytes) → ¬ (Quotes o text)))

-- An empty allowlist allows everything, another one never the empty operation.
abbrev pub is_allowed : List Bytes → Bytes → Bool
is_allowed [] op = true
is_allowed (o ∷ os) op = not (op == []) && contains (o ∷ os) op

abbrev pub texts : List (Bytes × Bytes) → List Bytes
texts = map (λ (m : Bytes × Bytes). m.1)

abbrev pub allowed : List Bytes → List (Bytes × Bytes) → List Bytes
allowed ops [] = []
allowed ops ((op, text) ∷ ms) = if is_allowed ops op then text ∷ allowed ops ms else allowed ops ms

abbrev pub barred : List Bytes → List (Bytes × Bytes) → ℕ
barred ops [] = 0
barred ops ((op, text) ∷ ms) = if is_allowed ops op then barred ops ms else barred ops ms + 1

-- The consumer once it has taken the messages.
abbrev pub accepted : List (Bytes × Bytes) → Consumer → Consumer
accepted ms c = record c {
  queue = push_all (allowed c.ops ms) c.queue;
  received = (c.received + length ms) % 2 ^ 64;
  dropped = (c.dropped + barred c.ops ms) % 2 ^ 64;
}

-- A reply that `processReply` cannot take: not an array, or one without exactly three texts.
abbrev pub IsNoMessage : Reply → Type 0
IsNoMessage other = Unit
IsNoMessage (array ts) = length ts ≢ 3

until_quote-Lacks : (op rest : Bytes) → Lacks b'"' op → until_quote (op ++ b'"' ∷ rest) ≡ some op
unfolding until_quote
until_quote-Lacks [] rest h = refl
until_quote-Lacks (c ∷ op) rest (k, h) = ground (arith, until_quote-Lacks op rest h)

peek_op-Quotes : (op text : Bytes) → Quotes op text → peek_op text ≡ op
unfolding peek_op
peek_op-Quotes [] text (h, (rest, e)) = rw e (ground (arith, until_quote-Lacks [] rest h))
peek_op-Quotes (c ∷ op) text (h, (rest, e)) =
    rw e (ground (arith, until_quote-Lacks (c ∷ op) rest h))

until_quote-some :
    (s op : Bytes)
    → until_quote s ≡ some op
    → Lacks b'"' op × ((rest : Bytes) × (s ≡ op ++ b'"' ∷ rest))
unfolding until_quote
until_quote-some [] op h = ground arith
until_quote-some (c ∷ s) op h = elim (Bool-cases (c == b'"')) [
  | inl e ↦
      let empty : op ≡ [] = ground (arith, e, h) in
      rw empty (tt, (s, rw ((eq_iff c b'"').0 e) refl))
  | inr e ↦ elim (Option-cases (until_quote s)) [
    | inl e' ↦ ground (arith, e, e', h)
    | inr (t, e') ↦
        let longer : op ≡ c ∷ t = ground (arith, e, e', h) in
        let (lacks, (rest, parts)) = until_quote-some s t e' in
        rw longer ((ground (arith, e, eq_iff c b'"'), lacks), (rest, ap (λ l. c ∷ l) parts))
  ]
]

Quotes-peek_op : (text : Bytes) → peek_op text ≢ [] → Quotes (peek_op text) text
unfolding peek_op
Quotes-peek_op [] h = absurd (h refl)
Quotes-peek_op (x ∷ []) h = absurd (h refl)
Quotes-peek_op (x ∷ (y ∷ [])) h = absurd (h refl)
Quotes-peek_op (x ∷ (y ∷ (c ∷ s))) h = elim (Option-cases (until_quote (c ∷ s))) [
  | inl e ↦ absurd (h (ground (arith, e)))
  | inr (op, e) ↦ elim (Bool-cases (x == b'[')) [
    | inr e' ↦ absurd (h (ground (arith, e')))
    | inl bracket ↦ elim (Bool-cases (y == b'"')) [
      | inr e' ↦ absurd (h (ground (arith, e')))
      | inl quote ↦
          let (lacks, (rest, parts)) = until_quote-some (c ∷ s) op e in
          let this : peek_op (x ∷ y ∷ c ∷ s) ≡ op = ground (arith, e, bracket, quote) in
          rw this (
            lacks,
            (
              rest,
              rw ((eq_iff x b'[').0 bracket, (eq_iff y b'"').0 quote)
                  (ap (λ (l : Bytes). b'[' ∷ b'"' ∷ l) parts),
            ),
          )
    ]
  ]
]

peek_op-HasOp : (op text : Bytes) → HasOp (op, text) → peek_op text ≡ op
peek_op-HasOp op text (inl h) = peek_op-Quotes op text h
peek_op-HasOp op text (inr (empty, none_quoted)) = elim (Bool-cases (peek_op text == [])) [
  | inl e ↦ ground (arith, (eq_iff (peek_op text) []).0 e, empty)
  | inr e ↦ absurd (
      none_quoted (peek_op text)
        (Quotes-peek_op text (λ h. ground (arith, (eq_iff (peek_op text) []).1 h, e))))
]

is_admitted-is_allowed :
    (ops : List Bytes) (op text : Bytes)
    → HasOp (op, text)
    → is_admitted ops text ≡ is_allowed ops op
unfolding is_admitted
is_admitted-is_allowed [] op text h = refl
is_admitted-is_allowed (o ∷ os) op text h = ground (arith, peek_op-HasOp op text h)

admitted-allowed :
    (ops : List Bytes) (ms : List (Bytes × Bytes))
    → All HasOp ms
    → (admitted ops (texts ms) ≡ allowed ops ms) × (refused ops (texts ms) ≡ barred ops ms)
admitted-allowed ops [] h = (refl, refl)
admitted-allowed ops ((op, text) ∷ ms) (h, hs) =
    let same = is_admitted-is_allowed ops op text h in
    let (all, none_else) = admitted-allowed ops ms hs in
    (ground (arith, same, all), ground (arith, same, none_else))

length-texts : (ms : List (Bytes × Bytes)) → length (texts ms) ≡ length ms
length-texts [] = refl
length-texts (m ∷ ms) = ap suc (length-texts ms)

taken-accepted :
    (ms : List (Bytes × Bytes)) (c : Consumer) → All HasOp ms → taken (texts ms) c ≡ accepted ms c
taken-accepted ms c h =
    let (all, none_else) = admitted-allowed c.ops ms h in rw (all, none_else, length-texts ms) refl

process_reply-bad : (bad : Reply) (c : Consumer) → IsNoMessage bad → process_reply bad c ≡ none
unfolding process_reply
process_reply-bad other c h = refl
process_reply-bad (array []) c h = refl
process_reply-bad (array (a ∷ [])) c h = refl
process_reply-bad (array (a ∷ (b ∷ []))) c h = refl
process_reply-bad (array (a ∷ (b ∷ (d ∷ [])))) c h = absurd (h refl)
process_reply-bad (array (a ∷ (b ∷ (d ∷ (e ∷ ts))))) c h = refl

-- A call of `readData` at which messages have arrived takes all of them: those whose operation is
-- on the allowlist are pushed, in their order, the others only counted, and every one is counted as
-- received. An empty allowlist allows all. The operation is what stands between `["`, with which
-- the message starts, and the next quotation mark; a message that is not so, or whose operation is
-- empty, is on no list. If a reply that is no message stands behind them, that is one that is no
-- array or has not three elements, the call throws, has taken what came before it, and leaves what
-- comes behind it for the next call. The counters are as the source keeps them, modulo 2^64.
pub read_data-taken :
    (kind channel : Bytes) (m : Bytes × Bytes) (ms : List (Bytes × Bytes)) (bad : Reply)
    (behind : List Reply) (intact : Bool) (c : Consumer)
    → All HasOp (m ∷ ms)
    → IsNoMessage bad
    → c.received < 2 ^ 64
    → c.dropped < 2 ^ 64
    → (read_data (record { replies = published kind channel (texts (m ∷ ms)); intact = intact }) c
        ≡ (intact, [], accepted (m ∷ ms) c))
      × (read_data
            (record {
              replies = published kind channel (texts (m ∷ ms)) ++ bad ∷ behind;
              intact = intact;
            })
            c
          ≡ (false, behind, accepted (m ∷ ms) c))
unfolding read_data read_replies
read_data-taken kind channel (op, text) ms bad behind intact c h no_message r d =
    let same = taken-accepted ((op, text) ∷ ms) c h in
    (
      read_data-admitted kind channel text (texts ms) intact c r d
          ∙ ap (λ (k : Consumer). (intact, [], k)) same,
      read_replies-published kind channel (text ∷ texts ms) (bad ∷ behind) intact c r d
          ∙ ap (read_replies (bad ∷ behind) intact) same
          ∙ rw (read_replies, process_reply-bad bad (accepted ((op, text) ∷ ms) c) no_message) refl,
    )
