-- ===== src/RedisPipeline/Examples.antt =====
-- A test of the pipeline.
use sonic_swss_common.Prelude.{[], ◌∷◌, Bytes, codes, ◌≡◌, refl}
use sonic_swss_common.Redis.Memory.{Memory, empty, sadd}
use sonic_swss_common.Redis.Model.{memory_redis}
use sonic_swss_common.RedisPipeline.{Pipeline, flush}

abbrev add : Bytes → Memory → Memory
add member db = (sadd (codes "s") member db).1

abbrev pipeline : Pipeline memory_redis
pipeline = record {
  command_max = 2;
  queued = add (codes "a") ∷ [];
  channels = codes "c" ∷ [];
  db = empty;
}

flush_test : (flush memory_redis pipeline).queued ≡ []
unfolding flush
flush_test = refl
