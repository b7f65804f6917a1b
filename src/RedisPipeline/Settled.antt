-- ===== src/RedisPipeline/Settled.antt =====
-- Buffering changes when commands take effect and not what they do.
use sonic_swss_common.Prelude.{
  ℕ, ◌<◌, List, [], ◌∷◌, ◌++◌, Bytes, bytes_eq, codes, leb, length, ◌≡◌, refl, arith, ◌∙◌, ap,
  Bool-cases, inl, inr,
}
use sonic_swss_common.Redis.{Redis}
use sonic_swss_common.RedisPipeline.{
  Pipeline, run_all, publish_all, flush, mayflush, push, settled, load_redis_script, add_channel,
  push_reply,
}

module _ (r : Redis) where
  open r use {Db, publish}

  run_all-append :
      (cs ds : List (Db → Db)) (db : Db) → run_all r (cs ++ ds) db ≡ run_all r ds (run_all r cs db)
  unfolding run_all
  run_all-append [] ds db = refl
  run_all-append (c ∷ cs) ds db = run_all-append cs ds (c db)

  -- A pipeline holds fewer commands than `COMMAND_MAX` between calls.
  pub IsBounded : Pipeline r → Type 0
  IsBounded p = length p.queued < p.command_max

  pub flush-IsBounded : (p : Pipeline r) → 0 < p.command_max → IsBounded (flush r p)
  unfolding flush IsBounded
  flush-IsBounded p h = ground arith

  -- What a push leaves queued stays below `COMMAND_MAX`, whatever was queued before.
  pub push-IsBounded :
      (command : Db → Db) (p : Pipeline r) → 0 < p.command_max → IsBounded (push r command p)
  unfolding push mayflush IsBounded flush
  push-IsBounded command p h = ground arith

  -- An observation that notifications do not change sees a flush as nothing, and a push as the
  -- command run behind all others.
  module _ {ℓ} {A : Type ℓ} (see : Db → A)
      (quiet : (c m : Bytes) (db : Db) → see (publish c m db) ≡ see db) where
    see-publish_all : (cs : List Bytes) (db : Db) → see (publish_all r cs db) ≡ see db
    unfolding publish_all
    see-publish_all [] db = refl
    see-publish_all (c ∷ cs) db =
        see-publish_all cs (publish c (codes "G") db) ∙ quiet c (codes "G") db

    see-flush_queue :
        (max : ℕ) (q : List (Db → Db)) (channels : List Bytes) (db : Db)
        → (let p : Pipeline r = record {
          command_max = max;
          queued = q;
          channels = channels;
          db = db;
        } in
            see (settled r (flush r p)) ≡ see (settled r p))
    unfolding flush settled
    see-flush_queue max [] channels db = refl
    see-flush_queue max (c ∷ cs) channels db = see-publish_all channels (run_all r (c ∷ cs) db)

    pub see-flush : (p : Pipeline r) → see (settled r (flush r p)) ≡ see (settled r p)
    see-flush p = see-flush_queue p.command_max p.queued p.channels p.db

    -- An observation that notifications do not change sees a push of a command as that command run
    -- behind all those that were queued, whether the push flushes or not.
    pub see-push :
        (command : Db → Db) (p : Pipeline r)
        → see (settled r (push r command p)) ≡ see (command (settled r p))
    unfolding push mayflush
    see-push command p =
        let p1 : Pipeline r = record p { queued = p.queued ++ command ∷ [] } in
        let behind : settled r p1 ≡ command (settled r p) =
          unfold settled in run_all-append p.queued (command ∷ []) p.db in
        elim (Bool-cases (leb p.command_max (length p1.queued))) [
          | inl full ↦ rw full (see-flush p1 ∙ ap see behind)
          | inr room ↦ rw room (ap see behind)
        ]

    pub see-load : (p : Pipeline r) → see (settled r (load_redis_script r p)) ≡ see (settled r p)
    unfolding load_redis_script push_reply settled
    see-load p = see-flush p

    -- Scripts are loaded and channels added without a change to what the queued commands do.
    pub see-add_channel :
        (channel : Bytes) (p : Pipeline r)
        → see (settled r (add_channel r channel p)) ≡ see (settled r p)
    unfolding add_channel settled
    see-add_channel channel p = ground (arith, see-load p)

  flush_queue_settles :
      (max : ℕ) (q : List (Db → Db)) (channels : List Bytes) (db : Db)
      → (let p : Pipeline r = record {
        command_max = max;
        queued = q;
        channels = channels;
        db = db;
      } in
          settled r (flush r p) ≡ (flush r p).db)
  unfolding flush settled
  flush_queue_settles max [] channels db = refl
  flush_queue_settles max (c ∷ q) channels db = refl

  -- Nothing is queued behind a flush.
  pub flush_settles : (p : Pipeline r) → settled r (flush r p) ≡ (flush r p).db
  flush_settles p = flush_queue_settles p.command_max p.queued p.channels p.db
