-- ===== src/StateTable/History.antt =====
-- Producers and a consumer of one table share Redis, which runs their scripts one at a time: a
-- history is the sequence in which it runs them.
use sonic_swss_common.Prelude.{
  ℕ, ◌<◌, List, [], ◌∷◌, Bytes, bytes_eq, nat_eq, ◌≡◌, refl, ap, ◌∙◌, length, All,
}
use sonic_swss_common.Redis.{Redis}
use sonic_swss_common.StateTable.Names.{Table, IsNamed, row_name}
use sonic_swss_common.StateTable.Consumer.{pops}
use sonic_swss_common.StateTable.Delivery.{Tracked, popped, drained_row}
use sonic_swss_common.StateTable.Held.{Held, held}
use sonic_swss_common.StateTable.Runs.{
  Event, meant, IsSeen, Fits, run_event, handed, run_event-Tracked, held-run_event,
}

unfoldable pub meant_all : List (Event × List Bytes) → Bytes → Bytes → Held → Held
unfolding meant
meant_all [] j g old = old
meant_all ((e, got) ∷ es) j g old = meant_all es j g (meant e got j g old)

module _ (r : Redis) where
  open r use {Db, hget}

  unfoldable pub run_history : Table → ℕ → List Event → Db → Db
  unfolding run_event
  run_history t db_id [] db = db
  run_history t db_id (e ∷ es) db = run_history t db_id es (run_event r t db_id e db)

  module _ (t : Table) (n : IsNamed t) (db_id : ℕ) where
    -- The events of a history with the keys that they hand over.
    unfoldable pub trace : List Event → Db → List (Event × List Bytes)
    unfolding run_event handed
    trace [] db = []
    trace (e ∷ es) db = (e, handed r t n db_id e db) ∷ trace es (run_event r t db_id e db)

    -- Whatever producers and consumers of a table have Redis run for it in whatever order, the keys
    -- with pending changes stay in the set that consumers pop from, if they are in it at the start:
    -- nothing pending is left behind that no pop will find. What `clear` abandons, and with it
    -- `apply_temp_view`, which begins with a clear, is gone from the pending changes and from the set.
    -- Single operations must have a key that is not empty; `apply_temp_view`, which runs with nothing
    -- in between, must be for a table with the separator colon, and its view must name keys and fields
    -- once and have no empty key. The table's separator must be one byte, a colon or a bar, that its
    -- name does not have.
    pub run_history-Tracked :
        (es : List Event) (db : Db)
        → All (Fits r t) es
        → Tracked r t db
        → Tracked r t (run_history t db_id es db)
    unfolding run_history
    run_history-Tracked [] db ks h = h
    run_history-Tracked (e ∷ es) db (k, ks) h =
        run_history-Tracked es _ ks (run_event-Tracked r t n db_id e db k h)

    -- Whatever producers and consumers of a table have Redis run for it in whatever order, what a
    -- field's row holds and what the view of it is are what the events mean when they are applied in
    -- that order: the sets of keys and the pending hashes do not show. A set, a del or a batch of
    -- them changes the view only; `clear` makes it what the row holds; `apply_temp_view`, which runs
    -- with nothing in between, makes it the temporary view; a pop makes the rows of the keys that it
    -- hands over what the view is. Single operations must have a key that is not empty.
    -- `apply_temp_view` must be for a table with the separator colon, its view must name keys and
    -- fields once and have no empty key, and the field must then not be "NULL". The table's
    -- separator must be one byte, a colon or a bar, that its name does not have.
    pub held-run_history :
        (es : List Event) (j g : Bytes) (db : Db)
        → All (Fits r t) es
        → All (IsSeen g) es
        → held r t j g (run_history t db_id es db) ≡ meant_all (trace es db) j g (held r t j g db)
    unfolding run_history meant_all trace
    held-run_history [] j g db ks seen = refl
    held-run_history (e ∷ es) j g db (k, ks) (s, seen) =
        held-run_history es j g (run_event r t db_id e db) ks seen
        ∙ ap (meant_all (trace es (run_event r t db_id e db)) j g)
            (held-run_event r t n db_id e j g db k s)

    -- Whatever producers and consumers of a table have had Redis run for it, in whatever order, a
    -- consumer that then pops fewer keys than its batch size leaves in every row of the table just
    -- what the events mean, applied in that order to what the table held and had pending at the
    -- start: sets, dels and batches of them, `clear`, which abandons what is not delivered yet,
    -- `apply_temp_view`, which replaces everything and runs with nothing in between, and pops. Single
    -- operations must have a key that is not empty, and at the start every key with something
    -- pending must be in the set that consumers pop from. `apply_temp_view` must be for a table with
    -- the separator colon, its view must name keys and fields once and have no empty key, and the
    -- field must then not be "NULL". The table's separator must be one byte, a colon or a bar, that
    -- its name does not have.
    pub history_delivered :
        (es : List Event) (batch : ℕ) (db : Db) (j g : Bytes)
        → All (Fits r t) es
        → All (IsSeen g) es
        → Tracked r t db
        → length
            (popped r (record { table = t; pop_batch_size = batch }) n (run_history t db_id es db))
          < batch
        → hget
            (row_name t j)
            g
            (pops r (record { table = t; pop_batch_size = batch }) (run_history t db_id es db)).1
          ≡ (meant_all (trace es db) j g (held r t j g db)).value
    history_delivered es batch db j g ks seen h fewer =
        drained_row r (record { table = t; pop_batch_size = batch }) n (run_history t db_id es db)
          (run_history-Tracked es db ks h) fewer j g
        ∙ (unfold held in ap (λ (x : Held). x.value) (held-run_history es j g db ks seen))
