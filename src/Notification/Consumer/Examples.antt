-- ===== src/Notification/Consumer/Examples.antt =====
-- Tests of notifications, and their theorems at concrete inputs.
use mathlib.Core.Bool.{true, false}
use sonic_swss_common.Prelude.{
  ◌≤◌, List, [], ◌∷◌, ◌++◌, some, map, Bytes, bytes_eq, codes, ◌≡◌, refl, arith, inl, inr, length,
  bytes_beq, lookup, insert, erase, contains,
}
use sonic_swss_common.Kco.{Kco}
use sonic_swss_common.Redis.Memory.{publish}
use sonic_swss_common.Redis.Model.{memory_redis}
use sonic_swss_common.RedisPipeline.{push_reply}
use sonic_swss_common.Notification.PlainJson.{plain_json, dump_plain_texts, parse_plain}
use sonic_swss_common.Notification.Producer.{NotificationProducer, send}
use sonic_swss_common.Notification.Queue
use sonic_swss_common.Notification.Queue.{LruQueue, new_lru_queue}
use sonic_swss_common.Notification.Queue.Lookup.{OneEach}
use sonic_swss_common.Notification.Queue.Refines.{new_lru_queue-IsValid}
use sonic_swss_common.Notification.Queue.Order.{
  Call, call_push, call_pop, run, ideal, run-ideal, last_seen, messages-pushes,
}
use sonic_swss_common.Notification.Consumer.{
  Consumer, fifo, lru_dedup, messages, peek_op, until_quote, is_admitted, admit, decode, pop, drain,
  pops, pops_loop, Reply, array, other, read_data, read_replies, process_reply, peek, first_pair,
}
use sonic_swss_common.Notification.Consumer.Admission.{published}
use sonic_swss_common.Notification.Consumer.Allowed.{HasOp, texts, accepted, read_data-taken}
use sonic_swss_common.Notification.Consumer.Batches.{arrive, Took, pops-Took}
use sonic_swss_common.Notification.Consumer.RoundTrip.{send-popped}

abbrev some_calls : List Call
some_calls = call_push (codes "a") ∷ call_push (codes "b") ∷ call_push (codes "a") ∷ call_pop ∷ []

run_test : Queue.messages (run some_calls new_lru_queue) ≡ codes "a" ∷ []
unfolding run Queue.push Queue.pop Queue.messages new_lru_queue lookup insert erase bytes_beq
run_test = refl

run-ideal_example :
    (Queue.messages (run some_calls new_lru_queue)
      ≡ ideal some_calls (Queue.messages new_lru_queue))
    × OneEach (Queue.messages (run some_calls new_lru_queue))
    × ((run some_calls new_lru_queue).current_depth
        ≡ length (Queue.messages (run some_calls new_lru_queue)))
    × ((run some_calls new_lru_queue).current_depth ≤ (run some_calls new_lru_queue).high_watermark)
unfolding Queue.messages new_lru_queue
run-ideal_example = run-ideal some_calls new_lru_queue new_lru_queue-IsValid (omega arith)

abbrev some_texts : List Bytes
some_texts = codes "a" ∷ codes "b" ∷ codes "a" ∷ []

messages-pushes_example :
    Queue.messages (run (map call_push some_texts) new_lru_queue) ≡ last_seen some_texts
messages-pushes_example = messages-pushes some_texts (omega arith)

abbrev created : Bytes
created = codes "[\"create\",\"1\",\"f\",\"v\"]"

abbrev removed : Bytes
removed = codes "[\"remove\",\"1\"]"

peek_op_test : peek_op created ≡ codes "create"
unfolding peek_op
peek_op_test = refl

-- The operation a"b is dumped with its quotation mark escaped, and is not recognised.
peek_op_quote_test : peek_op (codes "[\"a\\\"b\",\"1\"]") ≡ codes "a\\"
unfolding peek_op
peek_op_quote_test = refl

abbrev only_create : Consumer
only_create = record {
  pop_batch_size = 2048;
  queue = fifo [];
  ops = codes "create" ∷ [];
  received = 0;
  dropped = 0;
}

abbrev arrived : List (Bytes × Bytes)
arrived = (codes "create", created) ∷ []

abbrev two_texts : Reply
two_texts = array (codes "message" ∷ codes "N" ∷ [])

removed-HasOp : HasOp (codes "remove", removed)
removed-HasOp = inl (ground arith, (codes ",\"1\"]", refl))

created-HasOp : HasOp (codes "create", created)
created-HasOp = inl (ground arith, (codes ",\"1\",\"f\",\"v\"]", refl))

read_data-taken_example :
    (read_data
        (record {
          replies =
              published (codes "message") (codes "N") (texts ((codes "remove", removed) ∷ arrived));
          intact = true;
        })
        only_create
      ≡ (true, [], accepted ((codes "remove", removed) ∷ arrived) only_create))
    × (read_data
          (record {
            replies =
                published
                  (codes "message")
                  (codes "N")
                  (texts ((codes "remove", removed) ∷ arrived))
                ++ two_texts ∷ [];
            intact = true;
          })
          only_create
        ≡ (false, [], accepted ((codes "remove", removed) ∷ arrived) only_create))
read_data-taken_example =
    read_data-taken (codes "message") (codes "N") (codes "remove", removed) arrived two_texts []
      true only_create (removed-HasOp, (created-HasOp, tt)) (omega arith) (omega arith)
      (omega arith)

accepted_test : accepted ((codes "remove", removed) ∷ arrived) only_create ≡ record {
  pop_batch_size = 2048;
  queue = fifo (created ∷ []);
  ops = codes "create" ∷ [];
  received = 2;
  dropped = 1;
}
unfolding contains bytes_beq sonic_swss_common.Notification.Consumer.push
accepted_test = refl

abbrev created_kco : Kco
created_kco = record { key = codes "1"; op = codes "create"; fvs = (codes "f", codes "v") ∷ [] }

created_decodes : decode plain_json created ≡ some created_kco
unfolding decode parse_plain bytes_beq
created_decodes = refl

pops-Took_example :
    Took plain_json
      (codes "message")
      (codes "N")
      (created ∷ [])
      only_create.ops
      []
      ((created, []) ∷ [])
      (pops plain_json
        (map (arrive (codes "message") (codes "N")) ((created, []) ∷ []))
        (record only_create { queue = fifo (created ∷ []) }))
pops-Took_example =
    pops-Took plain_json (codes "message") (codes "N") ((created, []) ∷ []) (created ∷ [])
      only_create ((created_kco, created_decodes), tt) ((((created_kco, created_decodes), tt), tt))
      (omega arith) (omega arith)

abbrev producer : NotificationProducer plain_json memory_redis
producer = record {
  channel = codes "N";
  buffered = false;
  pipe = record {
    command_max = 1;
    queued = [];
    channels = [];
    db = record { hashes = []; sets = []; log = [] };
  };
}

abbrev sent : NotificationProducer plain_json memory_redis
sent = record producer {
  pipe = record producer.pipe {
    db = record { hashes = []; sets = []; log = (codes "N", created) ∷ [] };
  };
}

send_test :
    send plain_json memory_redis (codes "create") (codes "1") ((codes "f", codes "v") ∷ []) producer
    ≡ some sent
unfolding send push_reply dump_plain_texts publish
send_test = refl

send-popped_example :
    (msg : Bytes) × (memory_redis.published sent.pipe.db
      ≡ memory_redis.published producer.pipe.db ++ (codes "N", msg) ∷ [])
    × ((pop plain_json (admit msg only_create)).0 ≡ some created_kco)
unfolding messages contains bytes_beq
send-popped_example =
    send-popped plain_json memory_redis producer sent (codes "create") (codes "1")
      ((codes "f", codes "v") ∷ []) only_create refl refl send_test tt refl
      (inr (omega arith, (λ e. cc), refl))
