-- ===== src/Events/Prune.antt =====
-- How many publishers a subscriber tracks.
use sonic_swss_common.Prelude.{
  ℕ, ◌+◌, ◌≤◌, Bool, true, false, ◌||◌, List, [], ◌∷◌, ◌++◌, none, some, Bytes, bytes_eq, nat_eq,
  ◌==◌, eq_refl, length, lookup, insert, erase, lookup-erase, contains, ◌≡◌, refl, arith,
  Bool-cases, Option-cases, inl, inr, if◌then◌else◌,
}
use sonic_swss_common.Events.{
  InternalEvent, EvtInfo, Track, push_group, group_track, erase_ids, prune_groups, prune_track,
  accept, take_event, str_to_seq, max_publishers_count,
}

grouped : Bytes → List (ℕ × List Bytes) → Bool
grouped id [] = false
grouped id ((t, ids) ∷ groups) = contains ids id || grouped id groups

contains-snoc :
    (ids : List Bytes) (j id : Bytes) → contains (ids ++ j ∷ []) id ≡ (contains ids id || j == id)
unfolding contains
contains-snoc [] j id = ground arith
contains-snoc (i ∷ ids) j id = ground (arith, contains-snoc ids j id)

grouped-push_group :
    (secs : ℕ) (j id : Bytes) (groups : List (ℕ × List Bytes))
    → grouped id (push_group secs j groups) ≡ (j == id || grouped id groups)
unfolding grouped push_group contains
grouped-push_group secs j id [] = ground arith
grouped-push_group secs j id ((t, ids) ∷ groups) =
    ground (arith, grouped-push_group secs j id groups, contains-snoc ids j id)

grouped-kept :
    (id : Bytes) (track : Track) (groups : List (ℕ × List Bytes))
    → grouped id groups ≡ true
    → grouped id (group_track track groups) ≡ true
unfolding group_track
grouped-kept id [] groups h = h
grouped-kept id ((j, info) ∷ track) groups h =
    grouped-kept id track (push_group info.epoch_secs j groups)
      (ground (arith, grouped-push_group info.epoch_secs j id groups))

grouped-group_track :
    (id : Bytes) (track : Track) (groups : List (ℕ × List Bytes)) (info : EvtInfo)
    → lookup id track ≡ some info
    → grouped id (group_track track groups) ≡ true
unfolding group_track lookup
grouped-group_track id [] groups info h = ground arith
grouped-group_track id ((j, other) ∷ track) groups info h = elim (Bool-cases (j == id)) [
  | inl e ↦
      grouped-kept id track (push_group other.epoch_secs j groups)
        (ground (arith, grouped-push_group other.epoch_secs j id groups))
  | inr e ↦ grouped-group_track id track (push_group other.epoch_secs j groups) info (rw e at h)
]

lookup-erase_ids :
    (ids : List Bytes) (id : Bytes) (track : Track)
    → lookup id (erase_ids ids track) ≡ (if contains ids id then none else lookup id track)
unfolding erase_ids contains
lookup-erase_ids [] id track = refl
lookup-erase_ids (j ∷ ids) id track =
    ground (arith, lookup-erase_ids ids id (erase j track), lookup-erase j id track)

-- A track in which nobody is found is empty.
length-nobody : (track : Track) → ((id : Bytes) → lookup id track ≡ none) → length track ≡ 0
unfolding lookup
length-nobody [] h = refl
length-nobody ((j, info) ∷ track) h = ground (arith, h j, eq_refl j)

prune_groups-bound :
    (groups : List (ℕ × List Bytes)) (track : Track)
    → ((id : Bytes) (info : EvtInfo) → lookup id track ≡ some info → grouped id groups ≡ true)
    → length (prune_groups groups track) ≤ max_publishers_count
unfolding prune_groups grouped
prune_groups-bound [] track h = omega (
  arith,
  length-nobody track (λ id. elim (Option-cases (lookup id track)) [
    | inl e ↦ e
    | inr (info, e) ↦ ground (arith, h id info e)
  ]),
)
prune_groups-bound ((t, ids) ∷ groups) track h =
    let rest =
      prune_groups-bound groups (erase_ids ids track)
        (λ id info e. ground (arith, lookup-erase_ids ids id track, h id info)) in
    ground arith

-- After pruning no more than `MAX_PUBLISHERS_COUNT` publishers are tracked, whatever their number and
-- their times were.
pub prune_track-bound : (track : Track) → length (prune_track track) ≤ max_publishers_count
unfolding prune_track
prune_track-bound track =
    prune_groups-bound (group_track track []) track
      (λ id info e. grouped-group_track id track [] info e)

length-erase : (id : Bytes) (track : Track) → length (erase id track) ≤ length track
unfolding erase
length-erase id [] = omega arith
length-erase id ((j, info) ∷ track) = ground (arith, length-erase id track)

length-insert :
    (id : Bytes) (info : EvtInfo) (track : Track) → length (insert id info track) ≤ length track + 1
unfolding insert
length-insert id info [] = omega arith
length-insert id info ((j, other) ∷ track) = ground (arith, length-insert id info track)

length-insert_known :
    (id : Bytes) (info old : EvtInfo) (track : Track)
    → lookup id track ≡ some old
    → length (insert id info track) ≡ length track
unfolding insert lookup
length-insert_known id info old [] h = ground arith
length-insert_known id info old ((j, other) ∷ track) h =
    ground (arith, length-insert_known id info old track)

-- The track never holds more than 11 publishers above `MAX_PUBLISHERS_COUNT`: no message, of whatever
-- kind, adds one to a track that is full.
pub take_event-bound :
    (junk now : ℕ) (e : InternalEvent) (track : Track)
    → length track ≤ max_publishers_count + 11
    → length (take_event junk now e track).1 ≤ max_publishers_count + 11
unfolding take_event accept
take_event-bound junk now e track h = elim (Option-cases (lookup e.runtime_id track)) [
  | inl new ↦ ground (
    arith,
    new,
    prune_track-bound track,
    length-insert e.runtime_id (record { epoch_secs = now; seq = str_to_seq junk e.sequence })
        track,
    length-insert e.runtime_id (record { epoch_secs = now; seq = str_to_seq junk e.sequence })
        (prune_track track),
    length-erase e.runtime_id track,
  )
  | inr (info, known) ↦ ground (
    arith,
    known,
    length-insert_known e.runtime_id (record { epoch_secs = now; seq = str_to_seq junk e.sequence })
        info track known,
    length-erase e.runtime_id track,
  )
]
