-- ===== src/StateTable/Changes.antt =====
-- What the producer's operations do to the view of its table. `now` is what Redis holds once the
-- queued commands have run.
use sonic_swss_common.Prelude.{
  ◌≢◌, Bool, false, ◌&&◌, List, [], ◌∷◌, Option, none, Bytes, bytes_eq, nat_eq, ◌==◌, ◌≡◌, refl,
  arith, if◌then◌else◌, ap, ◌∙◌, contains, Bool-cases, inl, inr,
}
use sonic_swss_common.Kco.{FieldValue, Kco}
use sonic_swss_common.Redis.{Redis}
use sonic_swss_common.Redis.Loops.{last_value, or_else}
use sonic_swss_common.RedisPipeline
use sonic_swss_common.RedisPipeline.Settled.{see-flush, see-push, see-load, see-add_channel}
use sonic_swss_common.StateTable.Names.{Table, IsNamed, state_name, key_name-row_name}
use sonic_swss_common.StateTable.Scripts.{evalsha, lua_set, lua_del}
use sonic_swss_common.StateTable.Producer.{
  Producer, reload_redis_script, set_buffered, send, set, del, set_all, del_all, set_args, del_args,
  scripts_publish,
}
use sonic_swss_common.StateTable.Commands.{
  run_set, run_del, pend_set_all, pend_del_all, run_batched_set, run_batched_del,
}
use sonic_swss_common.StateTable.View.{
  view, pend_set, pend_del, view-pend_set, view-pend_del, view-lua_pub,
}

-- The view after a run of requests, request by request.
unfoldable pub put_kcos : List Kco → Bytes → Bytes → Option Bytes → Option Bytes
put_kcos [] j g old = old
put_kcos (kco ∷ kcos) j g old =
    put_kcos kcos j g (if kco.key == j then or_else (last_value g kco.fvs) old else old)

module _ (r : Redis) where
  open r use {Db, publish, hget-publish, sismember-publish}

  abbrev pub now : Producer r → Db
  now p = RedisPipeline.settled r p.pipe

  pub view-publish :
      (t : Table) (j g c m : Bytes) (db : Db) → view r t j g (publish c m db) ≡ view r t j g db
  unfolding view
  view-publish t j g c m db = simp (hget-publish, sismember-publish)

  -- The command of an operation has run, buffered or not.
  pub view-send :
      (t : Table) (j g : Bytes) (command : Db → Db) (p : Producer r)
      → view r t j g (now (send r command p)) ≡ view r t j g (command (now p))
  unfolding send
  view-send t j g command p =
      let pushed = see-push r (view r t j g) (view-publish t j g) command p.pipe in
      let flushed =
        see-flush r (view r t j g) (view-publish t j g) (RedisPipeline.push r command p.pipe) in
      elim (Bool-cases p.buffered) [ inl b ↦ rw b pushed | inr b ↦ rw b (flushed ∙ pushed) ]

  -- `setBuffered`, and the scripts and channels that it loads, change no view.
  pub view-set_buffered :
      (t : Table) (j g : Bytes) (buffered : Bool) (p : Producer r)
      → view r t j g (now (set_buffered r buffered p)) ≡ view r t j g (now p)
  unfolding set_buffered reload_redis_script
  view-set_buffered t j g buffered p =
      let quiet = view-publish t j g in
      let load = see-load r (view r t j g) quiet in
      load _ ∙ load _ ∙ load _ ∙ load _ ∙ (elim (Bool-cases (buffered && p.flush_pub)) [
        | inl b ↦ rw b (see-add_channel r (view r t j g) quiet _ p.pipe)
        | inr b ↦ rw b
      ])

  pub view-pend_set_all :
      (t : Table) (n : IsNamed t) (kcos : List Kco) (j g : Bytes) (db : Db)
      → view r t j g (pend_set_all r t kcos db) ≡ put_kcos kcos j g (view r t j g db)
  unfolding pend_set_all put_kcos
  view-pend_set_all t n [] j g db = refl
  view-pend_set_all t n (kco ∷ kcos) j g db =
      view-pend_set_all t n kcos j g (pend_set r t kco.key kco.fvs db)
      ∙ ap (put_kcos kcos j g) (view-pend_set r t n kco.key kco.fvs j g db)

  pub view-pend_del_all :
      (t : Table) (n : IsNamed t) (ks : List Bytes) (j g : Bytes) (db : Db)
      → view r t j g (pend_del_all r t ks db) ≡ (if contains ks j then none else view r t j g db)
  unfolding pend_del_all contains
  view-pend_del_all t n [] j g db = refl
  view-pend_del_all t n (key ∷ ks) j g db =
      ground
        (arith, view-pend_del_all t n ks j g (pend_del r t key db), view-pend_del r t n key j g db)

  module _ (p : Producer r) (n : IsNamed p.table) (direct : p.temp_view_active ≡ false) where
    view-run_set :
        (key : Bytes) (fvs : List FieldValue) (j g : Bytes)
        → key ≢ []
        → view r p.table j g
            (evalsha r (lua_set r (scripts_publish r p)) (set_args p.table p.db_id key fvs) (now p))
          ≡ (if key == j
              then or_else (last_value g fvs) (view r p.table j g (now p))
              else view r p.table j g (now p))
    view-run_set key fvs j g h =
        rw
          (
            run_set r (scripts_publish r p) p.table p.db_id key fvs (now p),
            key_name-row_name p.table key h,
          )
          (view-lua_pub r p.table _ _ _ _ j g _
            ∙ (unfold pend_set state_name in view-pend_set r p.table n key fvs j g (now p)))

    view-run_del :
        (key j g : Bytes)
        → key ≢ []
        → view r p.table j g
            (evalsha r (lua_del r (scripts_publish r p)) (del_args p.table p.db_id key) (now p))
          ≡ (if key == j then none else view r p.table j g (now p))
    view-run_del key j g h =
        rw
          (
            run_del r (scripts_publish r p) p.table p.db_id key (now p),
            key_name-row_name p.table key h,
          )
          (view-lua_pub r p.table _ _ _ _ j g _
            ∙ (unfold pend_del state_name in view-pend_del r p.table n key j g (now p)))

    -- `set` puts the fields that it is given, the last value of each, into the view of its key,
    -- and changes nothing else in the view, whether the producer is buffered or not. The key must
    -- not be empty, and no temporary view active. The table's separator must be one byte, a colon
    -- or a bar, that its name does not have.
    pub view-set :
        (key : Bytes) (fvs : List FieldValue) (j g : Bytes)
        → key ≢ []
        → view r p.table j g (now (set r key fvs p)) ≡ (
            if key == j
            then or_else (last_value g fvs) (view r p.table j g (now p))
            else view r p.table j g (now p))
    unfolding set
    view-set key fvs j g h = rw direct (view-send p.table j g _ p ∙ view-run_set key fvs j g h)

    -- `del` empties the view of its key, and changes nothing else in the view, buffered or not.
    -- The key must not be empty, and no temporary view active. The table's separator must be one
    -- byte, a colon or a bar, that its name does not have.
    pub view-del :
        (key j g : Bytes)
        → key ≢ []
        → view r p.table j g (now (del r key p))
          ≡ (if key == j then none else view r p.table j g (now p))
    unfolding del
    view-del key j g h = rw direct (view-send p.table j g _ p ∙ view-run_del key j g h)

    -- The batched `set` changes the view as one `set` for each request does, in order, an empty
    -- key included, buffered or not. No temporary view must be active. The table's separator must
    -- be one byte, a colon or a bar, that its name does not have.
    pub view-set_all :
        (kcos : List Kco) (j g : Bytes)
        → view r p.table j g (now (set_all r kcos p))
          ≡ put_kcos kcos j g (view r p.table j g (now p))
    unfolding set_all
    view-set_all kcos j g =
        let (added, e) = run_batched_set r (scripts_publish r p) p.table p.db_id kcos (now p) in
        rw direct (
          view-send p.table j g _ p
          ∙ ap (view r p.table j g) e
          ∙ view-lua_pub r p.table _ added _ _ j g _
          ∙ view-pend_set_all p.table n kcos j g (now p))

    -- The batched `del` empties the views of its keys, and changes nothing else in the view,
    -- buffered or not. No temporary view must be active. The table's separator must be one byte, a
    -- colon or a bar, that its name does not have.
    pub view-del_all :
        (ks : List Bytes) (j g : Bytes)
        → view r p.table j g (now (del_all r ks p))
          ≡ (if contains ks j then none else view r p.table j g (now p))
    unfolding del_all
    view-del_all ks j g =
        let (added, e) = run_batched_del r (scripts_publish r p) p.table p.db_id ks (now p) in
        rw direct (
          view-send p.table j g _ p
          ∙ ap (view r p.table j g) e
          ∙ view-lua_pub r p.table _ added _ _ j g _
          ∙ view-pend_del_all p.table n ks j g (now p))
