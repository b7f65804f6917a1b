-- ===== src/RedisPipeline.antt =====
-- common/redispipeline.h: commands are sent at once and their replies read later, together. The
-- commands without a read reply are `queued`; Redis runs them in the order in which they were sent.
pub mod Settled
mod Examples
use sonic_swss_common.Prelude.{
  ℕ, Bool, true, false, List, [], ◌∷◌, ◌++◌, Bytes, bytes_eq, codes, leb, length, contains,
  if◌then◌else◌,
}
use sonic_swss_common.Redis.{Redis}

module _ (r : Redis) where
  open r use {Db, publish}

  -- `m_remaining` is the length of `queued`; `channels` is `m_channels`, from which the script
  -- `m_luaPub` is made.
  pub record Pipeline : Type 0 where
    pub command_max : ℕ
    pub queued : List (Db → Db)
    pub channels : List Bytes
    pub db : Db

  unfoldable pub run_all : List (Db → Db) → Db → Db
  run_all [] db = db
  run_all (c ∷ cs) db = run_all cs (c db)

  unfoldable pub publish_all : List Bytes → Db → Db
  publish_all [] db = db
  publish_all (channel ∷ channels) db = publish_all channels (publish channel (codes "G") db)

  -- The replies are read until none is left, and then the channels are notified.
  unfoldable pub flush : Pipeline → Pipeline
  unfolding run_all publish_all
  flush p = elim p.queued [
    | [] ↦ p
    | _ ∷ _ ↦ record p { queued = []; db = publish_all p.channels (run_all p.queued p.db) }
  ]

  unfoldable pub mayflush : Pipeline → Pipeline
  unfolding flush
  mayflush p = if leb p.command_max (length p.queued) then flush p else p

  -- `push` of a command whose reply is read later.
  unfoldable pub push : (Db → Db) → Pipeline → Pipeline
  unfolding mayflush
  push command p = mayflush (record p { queued = p.queued ++ command ∷ [] })

  -- `push` of a command whose reply is returned: everything before it is flushed first.
  unfoldable pub push_reply : {A : Type 0} → (Db → A × Db) → Pipeline → A × Pipeline
  unfolding flush
  push_reply command p =
      let q = flush p in let (reply, db) = command q.db in (reply, record q { db = db })

  -- `SCRIPT LOAD` is pushed for its reply, which flushes, and changes no key.
  unfoldable pub load_redis_script : Pipeline → Pipeline
  unfolding push_reply
  load_redis_script p = (push_reply (λ db. (tt, db)) p).1

  -- The new script is loaded before it takes the place of the old one.
  unfoldable pub add_channel : Bytes → Pipeline → Pipeline
  unfolding load_redis_script
  add_channel channel p =
      if contains p.channels channel
      then p
      else let q = load_redis_script p in record q { channels = q.channels ++ channel ∷ [] }

  -- What Redis holds once it has run the queued commands.
  unfoldable pub settled : Pipeline → Db
  unfolding run_all
  settled p = run_all p.queued p.db
