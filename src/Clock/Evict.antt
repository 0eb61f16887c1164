-- ===== src/Clock/Evict.antt =====
-- A probe of a used entry evicts it, or gives the lock back.
use alchemy.Base.{
  ℕ, ◌+◌, ◌<◌, ◌≡◌, ◌≢◌, refl, arith, Bool, some, ok, err, put, inl, inr, Bool-cases, ltb,
  if◌then◌else◌,
}
use alchemy.Rid.{sentinel}
use alchemy.Oid.{lock_writer, write_unlock, store_rid, store_index}
use alchemy.Oid.Layout.{tag, locks}
use alchemy.Oid.Methods.{IsWord, try_write_lem}
use alchemy.Clock.{ClockNode, Mem, Chance, set_entry, evict}
use alchemy.Clock.Coherent.{Coherent, Still}
use alchemy.Clock.Outcome.{Placed, Outcome, Still-refl}

module _ {F : Type 0} where
  module _ {live : ℕ → Bool} (m : Mem F) (c : Coherent live m) (new_node : ClockNode F) (oid : ℕ)
      (home : tag (m.oids oid) ≡ 0) (chance : Chance) where
    -- `evict` in terms of the locks of the victim's word.
    evict_lem :
        (i : ℕ)
        → i < m.inner.capacity
        → (m.inner.entries i).rid ≢ sentinel
        → let e = (m.inner.entries i).rid in
          let taken = put m.oids e (store_rid e (m.oids e + lock_writer)) in
          evict new_node oid i chance m ≡ (
            if ltb 0 (locks (m.oids e))
            then err m
            else if chance.lock_spurious
            then err m
            else if chance.exchange_spurious
            then err (record m { oids = put m.oids e (m.oids e) })
            else ok (
              i,
              some (m.inner.entries i, e),
              record {
                inner = set_entry m.inner i new_node;
                oids = put taken oid (store_index i (taken oid));
              },
            ))
    unfolding evict write_unlock
    evict_lem i lt used =
        let e : ℕ = (m.inner.entries i).rid in
        let word : IsWord (m.oids e) = (c.words e (c.held i lt used).0).0 in
        ground (arith, try_write_lem (m.oids e) (m.oids e) chance.lock_spurious)

    Still-rewritten :
        (i : ℕ)
        → let e = (m.inner.entries i).rid in Still m (record m { oids = put m.oids e (m.oids e) })
    Still-rewritten i = record {
      capacity = refl;
      probe_len = refl;
      oids = λ r. ground arith;
      rid = λ i. refl;
      val = λ i. refl;
    }

    evict-Placed :
        (i : ℕ)
        → i < m.inner.capacity
        → (m.inner.entries i).rid ≢ sentinel
        → locks (m.oids (m.inner.entries i).rid) ≡ 0
        → let e = (m.inner.entries i).rid in
          let taken = put m.oids e (store_rid e (m.oids e + lock_writer)) in
          Placed m oid new_node i (some (m.inner.entries i, e)) (record {
            inner = set_entry m.inner i new_node;
            oids = put taken oid (store_index i (taken oid));
          })
    evict-Placed i lt used free =
        let e : ℕ = (m.inner.entries i).rid in
        let apart : e ≢ oid = λ same. (c.held i lt used).1 (rw same home) in
        record {
          below = lt;
          capacity = refl;
          probe_len = refl;
          entry = ground arith;
          rid = λ j ne. ground arith;
          val = λ j ne. ground arith;
          own = ground arith;
          rest = λ r ne ne'. ground arith;
          victim = (refl, used, refl, refl, apart, free, ground arith);
        }

    pub evict-Outcome :
        (i : ℕ)
        → i < m.inner.capacity
        → (m.inner.entries i).rid ≢ sentinel
        → Outcome m oid new_node (evict new_node oid i chance m)
    evict-Outcome i lt used =
        rw (evict_lem i lt used)
          (elim (Bool-cases (ltb 0 (locks (m.oids (m.inner.entries i).rid)))) [
            | inl busy ↦ rw busy (Still-refl m)
            | inr free ↦ rw free (elim (Bool-cases chance.lock_spurious) [
              | inl fails ↦ rw fails (Still-refl m)
              | inr works ↦ rw works (elim (Bool-cases chance.exchange_spurious) [
                | inl fails ↦ rw fails (Still-rewritten i)
                | inr done ↦ rw done (evict-Placed i lt used (ground arith))
              ])
            ])
          ])
