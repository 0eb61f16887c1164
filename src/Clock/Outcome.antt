-- ===== src/Clock/Outcome.antt =====
-- How one probe of cache_inner.rs may end: what placing a node changes.
use alchemy.Base.{ℕ, ◌+◌, ◌<◌, ◌≡◌, ◌≢◌, refl, Option, none, some, Result, ok, err}
use alchemy.Rid.{Rid, sentinel}
use alchemy.Oid.{lock_writer, store_rid, store_index}
use alchemy.Oid.Layout.{locks}
use alchemy.Clock.{ClockNode, Mem, Found}
use alchemy.Clock.Coherent.{Still}

module _ {F : Type 0} where
  abbrev pub Evicted : Option (ClockNode F × Rid) → ℕ → Type 0
  Evicted none r = ⊥
  Evicted (some (old, e)) r = e ≡ r

  -- What is evicted, if anything: the old entry of the slot, whose record was not locked and now
  -- holds its own id under the writer bit.
  abbrev pub Victim : Mem F → (oid index : ℕ) → Option (ClockNode F × Rid) → Mem F → Type 0
  Victim m oid index none m' = (m.inner.entries index).rid ≡ sentinel
  Victim m oid index (some (old, e)) m' =
      ((m.inner.entries index).rid ≡ e)
      × (e ≢ sentinel)
      × (old.rid ≡ e)
      × (old.val ≡ (m.inner.entries index).val)
      × (e ≢ oid)
      × (locks (m.oids e) ≡ 0)
      × (m'.oids e ≡ store_rid e (m.oids e + lock_writer))

  pub record Placed (m : Mem F) (oid : ℕ) (new_node : ClockNode F) (index : ℕ)
      (evicted : Option (ClockNode F × Rid)) (m' : Mem F) : Type 0 where
    pub below : index < m.inner.capacity
    pub capacity : m'.inner.capacity ≡ m.inner.capacity
    pub probe_len : m'.inner.probe_len ≡ m.inner.probe_len
    pub entry : m'.inner.entries index ≡ new_node
    pub rid : (i : ℕ) → index ≢ i → (m'.inner.entries i).rid ≡ (m.inner.entries i).rid
    pub val : (i : ℕ) → index ≢ i → (m'.inner.entries i).val ≡ (m.inner.entries i).val
    pub own : m'.oids oid ≡ store_index index (m.oids oid)
    pub rest : (r : ℕ) → oid ≢ r → ¬ Evicted evicted r → m'.oids r ≡ m.oids r
    pub victim : Victim m oid index evicted m'

  -- How a probe ends.
  abbrev pub Outcome : Mem F → ℕ → ClockNode F → Result (Found F) (Mem F) → Type 0
  Outcome m oid new_node (ok (index, evicted, m')) = Placed m oid new_node index evicted m'
  Outcome m oid new_node (err m') = Still m m'

  pub Still-refl : (m : Mem F) → Still m m
  Still-refl m = record {
    capacity = refl;
    probe_len = refl;
    oids = λ r. refl;
    rid = λ i. refl;
    val = λ i. refl;
  }
