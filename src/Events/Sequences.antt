-- ===== src/Events/Sequences.antt =====
-- Sequence numbers, modulo 2^32: what the subscriber makes of the next one that it reads.
use sonic_swss_common.Prelude.{
  ℕ, ◌+◌, ◌-◌, ◌%◌, ◌^◌, ◌<◌, true, false, [], ◌∷◌, some, Bytes, bytes_eq, nat_eq, starts_with,
  lookup, insert, ◌≡◌, arith, ap, ◌∙◌,
}
use sonic_swss_common.Decimal.{to_string, scan, skip_space}
use sonic_swss_common.Decimal.RoundTrip.{scan-to_string, StartsWithDigit, to_string-StartsWithDigit}
use sonic_swss_common.Events.{
  InternalEvent, EvtInfo, Track, Outcome, missed_since, is_duplicate, accept, take_event,
  str_to_seq, ctrl_prefix,
}

-- With `k` messages lost behind the last one, the count is `k`, also across a rollover.
missed_since-next :
    (last k : ℕ) → last < 2 ^ 32 → k < 2 ^ 31 → missed_since ((last + 1 + k) % 2 ^ 32) last ≡ k
unfolding missed_since
missed_since-next last k h small = ground arith

-- A message that came `d` before the last one.
missed_since-old :
    (last d : ℕ)
    → last < 2 ^ 32
    → d < 2 ^ 31
    → missed_since ((last + (2 ^ 32 - d)) % 2 ^ 32) last ≡ 2 ^ 32 - 1 - d
unfolding missed_since
missed_since-old last d h small = ground arith

no_space : (c : ℕ) (s : Bytes) → StartsWithDigit (c ∷ s) → skip_space (c ∷ s) ≡ c ∷ s
unfolding skip_space
no_space c s d = ground arith

read_back :
    (junk : ℕ) (s : Bytes) → StartsWithDigit s → scan 0 s < 2 ^ 32 → str_to_seq junk s ≡ scan 0 s
unfolding str_to_seq
read_back junk [] d h = absurd d
read_back junk (c ∷ s) d h = rw (str_to_seq, no_space c s d) (ground arith)

pub str_to_seq-to_string : (junk n : ℕ) → n < 2 ^ 32 → str_to_seq junk (to_string n) ≡ n
str_to_seq-to_string junk n h =
    read_back junk (to_string n) (to_string-StartsWithDigit n) (omega (arith, scan-to_string n))
    ∙ scan-to_string n

module _ (junk now : ℕ) (e : InternalEvent) (track : Track) (info : EvtInfo)
    (known : lookup e.runtime_id track ≡ some info) (small : info.seq < 2 ^ 32) where
  take_event-known :
      take_event junk now e track
      ≡ accept now e
          (str_to_seq junk e.sequence)
          true
          (missed_since (str_to_seq junk e.sequence) info.seq)
          track
  unfolding take_event
  take_event-known = rw (take_event, known)

  seq_read : (n : ℕ) → n < 2 ^ 32 → e.sequence ≡ to_string n → str_to_seq junk e.sequence ≡ n
  seq_read n h number = ap (str_to_seq junk) number ∙ str_to_seq-to_string junk n h

  -- An event from a publisher that the subscriber knows, `k` places behind the next that it expects,
  -- is taken with the count `k`, fewer than 2^31, even when the numbers roll over; the publisher is
  -- then tracked with the event's number and the time.
  pub take_event-next :
      (k : ℕ)
      → k < 2 ^ 31
      → e.sequence ≡ to_string ((info.seq + 1 + k) % 2 ^ 32)
      → starts_with ctrl_prefix e.str_data ≡ false
      → take_event junk now e track ≡ (
        Outcome.event k,
        insert e.runtime_id (record { epoch_secs = now; seq = (info.seq + 1 + k) % 2 ^ 32 }) track,
      )
  unfolding accept is_duplicate
  take_event-next k h number plain =
      rw
        (
          take_event-known,
          seq_read ((info.seq + 1 + k) % 2 ^ 32) (omega arith) number,
          missed_since-next info.seq k small h,
        )
        (ground arith)

  -- A message, event or control, that was sent `d` places before the last one from its publisher, or
  -- is that one again, fewer than 2^31 places, is a duplicate and changes nothing.
  pub take_event-old :
      (d : ℕ)
      → d < 2 ^ 31
      → e.sequence ≡ to_string ((info.seq + (2 ^ 32 - d)) % 2 ^ 32)
      → take_event junk now e track ≡ (Outcome.duplicate, track)
  unfolding accept is_duplicate
  take_event-old d h number =
      rw
        (
          take_event-known,
          seq_read ((info.seq + (2 ^ 32 - d)) % 2 ^ 32) (omega arith) number,
          missed_since-old info.seq d small h,
        )
        (ground arith)
