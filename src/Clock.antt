-- ===== src/Clock.antt =====
-- The clock cache below the schema: src/attribute_cache/clock_cache/cache_inner.rs. One call runs
-- with no other thread in between; what the clock, the dice and the weak exchanges do is an
-- argument. The lock words of the records are the family `oids`, which `OidArray::get_sync` indexes.
pub mod Coherent
pub mod Outcome
pub mod Evict
pub mod Probe
pub mod Place
pub mod Find
use alchemy.Base.{
  ℕ, zero, suc, ◌+◌, ◌/◌, ◌%◌, ◌^◌, Bool, true, false, not, Option, none, some, Result, ok, err,
  put, ltb, ◌==◌, if◌then◌else◌,
}
use alchemy.Rid.{Rid, sentinel}
use alchemy.Oid.{
  try_write, write_unlock, store_rid, store_index, to_rid, is_rid, is_cached, to_cache_index,
}
use alchemy.NodeMeta.{fresh, clear_if_set, set_ref}

-- `ClockNode`; the sentinel stands for an empty slot.
pub record ClockNode (F : Type 0) : Type 0 where
  pub rid : Rid
  pub meta : ℕ
  pub val : F

-- `CacheInner`, with the clock hand of the running thread.
pub record CacheInner (F : Type 0) : Type 0 where
  pub capacity : ℕ
  pub probe_len : ℕ
  pub tls_index : Option ℕ
  pub entries : ℕ → ClockNode F

-- The memory that the methods share: the cache and the lock words.
pub record Mem (F : Type 0) : Type 0 where
  pub inner : CacheInner F
  pub oids : ℕ → ℕ

-- How the exchanges of one probe turn out: whether the one that takes the lock of the entry to
-- evict fails for no reason, and whether the one on the entry's `rid` does.
pub record Chance : Type 0 where
  pub lock_spurious : Bool
  pub exchange_spurious : Bool

-- What a probe that places the new node returns: the index, and the evicted node with the record
-- whose write guard comes with it.
abbrev pub Found : Type 0 → Type 0
Found F = ℕ × Option (ClockNode F × Rid) × Mem F

module _ {F : Type 0} where
  -- `ClockNode::new`.
  abbrev pub node : F → Rid → ClockNode F
  node val rid = record { rid = rid; meta = fresh; val = val }

  -- `ClockNode::set_ref`, with the verdict of the dice.
  unfoldable pub set_ref_rng : (roll : Bool) → ClockNode F → ClockNode F
  unfolding set_ref
  set_ref_rng roll entry = if roll then record entry { meta = set_ref entry.meta } else entry

  -- `CacheInner::new_cap`: `zeroed` is a value whose bytes are zero, `none` the failed assertion.
  unfoldable pub new_cap : (cache_cnt probe_len : ℕ) (zeroed : F) → Option (CacheInner F)
  new_cap cache_cnt probe_len zeroed =
      if ltb 0 cache_cnt
      then some (record {
        capacity = cache_cnt % 2 ^ 32;
        probe_len = probe_len % 2 ^ 32;
        tls_index = none;
        entries = λ _. record { rid = sentinel; meta = 0; val = zeroed };
      })
      else none

  -- `CacheInner::new`, with the size of a node in bytes.
  unfoldable pub new : (cache_size probe_len node_size : ℕ) (zeroed : F) → Option (CacheInner F)
  unfolding new_cap
  new cache_size probe_len node_size zeroed = new_cap (cache_size / node_size) probe_len zeroed

  unfoldable pub reset : CacheInner F → CacheInner F
  reset c = record c {
    entries =
        λ i. if ltb i c.capacity then record (c.entries i) { rid = sentinel } else c.entries i;
  }

  -- `thread_init`, with the index that the dice give.
  unfoldable pub thread_init : (rng_idx : ℕ) → CacheInner F → CacheInner F
  thread_init rng_idx c = elim c.tls_index [
    | none ↦ record c { tls_index = some rng_idx }
    | some _ ↦ c
  ]

  unfoldable pub get_index : CacheInner F → ℕ
  get_index c = elim c.tls_index [ none ↦ 0 | some i ↦ i ]

  -- The new index, and the cache with the hand on it.
  unfoldable pub advance_index : CacheInner F → ℕ × CacheInner F
  unfolding get_index
  advance_index c =
      let index : ℕ = (get_index c + 1) % c.capacity in
      (index, record c { tls_index = some (index % 2 ^ 32) })

  abbrev pub set_entry : CacheInner F → ℕ → ClockNode F → CacheInner F
  set_entry c i entry = record c { entries = put c.entries i entry }

  -- A used entry whose reference bit is clear: lock its record, check that it is still there, and
  -- put the new node in its place. A guard that is dropped unlocks.
  unfoldable pub evict :
      (new_node : ClockNode F) (oid cur_index : ℕ) → Chance → Mem F → Result (Found F) (Mem F)
  evict new_node oid cur_index chance m =
      let entry = m.inner.entries cur_index in
      let word = m.oids entry.rid in
      let (verdict, locked) = try_write word word chance.lock_spurious in
      elim verdict [
        | err _ ↦ err m
        | ok _ ↦
            if chance.exchange_spurious
            then err (record m { oids = put m.oids entry.rid (write_unlock locked) })
            else let oids = put m.oids entry.rid (store_rid entry.rid locked) in
              ok (
                cur_index,
                some (entry, entry.rid),
                record {
                  inner = set_entry m.inner cur_index new_node;
                  oids = put oids oid (store_index cur_index (oids oid));
                },
              )
      ]

  -- The body of the loop of `probe_and_replace_rng`; `err` goes on with the next probe.
  unfoldable pub probe :
      (new_node : ClockNode F) (rid oid : ℕ) → Chance → Mem F → Result (Found F) (Mem F)
  unfolding advance_index
  probe new_node rid oid chance m0 =
      let (cur_index, inner) = advance_index m0.inner in
      let m = record m0 { inner = inner } in
      let entry = inner.entries cur_index in
      if entry.rid == sentinel
      then if chance.exchange_spurious
        then err m
        else ok (
          cur_index,
          none,
          record {
            inner = set_entry inner cur_index new_node;
            oids = put m.oids oid (store_index cur_index (m.oids oid));
          },
        )
      else let (was_set, meta) = clear_if_set entry.meta in
        if was_set
        then err (record m { inner = set_entry inner cur_index (record entry { meta = meta }) })
        else evict new_node oid cur_index chance m

  -- The loop, for the probes left; `none` is a miss.
  unfoldable pub probe_loop :
      ℕ
      → (new_node : ClockNode F) (rid oid : ℕ) (chance : ℕ → Chance) → Mem F
      → Option (ℕ × Option (ClockNode F × Rid)) × Mem F
  probe_loop zero new_node rid oid chance m = (none, m)
  probe_loop (suc left) new_node rid oid chance m = elim (probe new_node rid oid (chance 0) m) [
    | ok (index, evicted, m') ↦ (some (index, evicted), m')
    | err m' ↦ probe_loop left new_node rid oid (λ p. chance (suc p)) m'
  ]

  -- `probe_and_replace_rng`, with the verdict of the dice.
  unfoldable pub probe_and_replace_rng :
      (roll : Bool) (new_node : ClockNode F) (rid oid : ℕ) (chance : ℕ → Chance)
      → Mem F
      → Option (ℕ × Option (ClockNode F × Rid)) × Mem F
  probe_and_replace_rng roll new_node rid oid chance m =
      if roll then probe_loop m.inner.probe_len new_node rid oid chance m else (none, m)

  -- `CacheInner::insert`: what is evicted. The probability is 1, so the dice do not refuse. The
  -- outer `none` is the failed assertion.
  unfoldable pub insert :
      (oid : ℕ) (val : F) (chance : ℕ → Chance)
      → Mem F
      → Option (Option (ClockNode F × Rid) × Mem F)
  insert oid val chance m =
      if is_rid (m.oids oid)
      then (let rid = to_rid (m.oids oid) in
          let (placed, m') = probe_and_replace_rng true (node val rid) rid oid chance m in
          some (elim placed [ none ↦ none | some (index, evicted) ↦ evicted ], m'))
      else none

  -- `CacheInner::read`: the index of the entry, or the record id.
  unfoldable pub read : (roll : Bool) (oid : ℕ) → Mem F → Result ℕ Rid × Mem F
  unfolding set_ref_rng
  read roll oid m =
      if is_cached (m.oids oid)
      then (let i = to_cache_index (m.oids oid) in
          (ok i, record m { inner = set_entry m.inner i (set_ref_rng roll (m.inner.entries i)) }))
      else (err (to_rid (m.oids oid)), m)
