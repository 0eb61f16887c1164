-- ===== src/Clock/Probe.antt =====
-- One probe: it places the new node, or changes nothing but the hand and a reference bit.
use alchemy.Base.{
  ℕ, ◌<◌, ◌≡◌, ◌≢◌, refl, arith, Bool, Option, none, some, Result, ok, err, put, inl, inr,
  Bool-cases, ==_iff, ◌==◌, if◌then◌else◌,
}
use alchemy.Rid.{Rid, sentinel}
use alchemy.Oid.{store_index}
use alchemy.Oid.Layout.{tag}
use alchemy.NodeMeta.{clear_if_set}
use alchemy.Clock.{ClockNode, Mem, Chance, Found, set_entry, advance_index, evict, probe}
use native.Mathlib.Nat.{mod-lt}
use alchemy.Clock.Coherent.{Coherent, Still, Still-trans, Still-Coherent}
use alchemy.Clock.Outcome.{Victim, Placed, Outcome}
use alchemy.Clock.Evict.{evict-Outcome}

module _ {F : Type 0} where
  module _ {live : ℕ → Bool} (m : Mem F) (c : Coherent live m) where
    -- The memory once the clock hand has moved.
    abbrev moved : Mem F
    moved = record m { inner = (advance_index m.inner).1 }

    moved-Still : Still m moved
    unfolding advance_index
    moved-Still = record {
      capacity = refl;
      probe_len = refl;
      oids = λ r. refl;
      rid = λ i. refl;
      val = λ i. refl;
    }

    advance_index-below : (advance_index m.inner).0 < m.inner.capacity
    unfolding advance_index
    advance_index-below = mod-lt _ c.some_room

    Victim-moved :
        (oid index : ℕ) (evicted : Option (ClockNode F × Rid)) (m' : Mem F)
        → Victim moved oid index evicted m'
        → Victim m oid index evicted m'
    unfolding advance_index
    Victim-moved oid index none m' v = v
    Victim-moved oid index (some e) m' v = v

    Outcome-moved :
        (oid : ℕ) (new_node : ClockNode F) (out : Result (Found F) (Mem F))
        → Outcome moved oid new_node out
        → Outcome m oid new_node out
    unfolding advance_index
    Outcome-moved oid new_node (ok (index, evicted, m')) p = record {
      below = p.below;
      capacity = p.capacity;
      probe_len = p.probe_len;
      entry = p.entry;
      rid = p.rid;
      val = p.val;
      own = p.own;
      rest = p.rest;
      victim = Victim-moved oid index evicted m' p.victim;
    }
    Outcome-moved oid new_node (err m') s = Still-trans moved-Still s

    module _ (new_node : ClockNode F) (rid oid : ℕ) (home : tag (m.oids oid) ≡ 0)
        (chance : Chance) where
      abbrev hand : ℕ
      hand = (advance_index m.inner).0

      -- An entry whose reference bit has been cleared.
      abbrev cleared : Mem F
      cleared = record moved {
        inner =
            set_entry moved.inner hand (record (m.inner.entries hand) {
              meta = (clear_if_set (m.inner.entries hand).meta).1;
            });
      }

      -- An empty slot that is taken.
      abbrev claimed : Mem F
      claimed = record {
        inner = set_entry moved.inner hand new_node;
        oids = put m.oids oid (store_index hand (m.oids oid));
      }

      probe_lem : probe new_node rid oid chance m ≡ (
          if (m.inner.entries hand).rid == sentinel
          then if chance.exchange_spurious then err moved else ok (hand, none, claimed)
          else if (clear_if_set (m.inner.entries hand).meta).0
          then err cleared
          else evict new_node oid hand chance moved)
      unfolding probe
      probe_lem = ground arith

      cleared-Still : Still m cleared
      unfolding advance_index
      cleared-Still = record {
        capacity = refl;
        probe_len = refl;
        oids = λ r. refl;
        rid = λ i. ground arith;
        val = λ i. ground arith;
      }

      claimed-Placed :
          (m.inner.entries hand).rid ≡ sentinel → Placed m oid new_node hand none claimed
      unfolding advance_index
      claimed-Placed free = record {
        below = unfold advance_index in advance_index-below;
        capacity = refl;
        probe_len = refl;
        entry = ground arith;
        rid = λ j ne. ground arith;
        val = λ j ne. ground arith;
        own = ground arith;
        rest = λ r ne ne'. ground arith;
        victim = free;
      }

      used-Outcome :
          (m.inner.entries hand).rid ≢ sentinel
          → Outcome m oid new_node (
              if (clear_if_set (m.inner.entries hand).meta).0
              then err cleared
              else evict new_node oid hand chance moved)
      used-Outcome used = elim (Bool-cases (clear_if_set (m.inner.entries hand).meta).0) [
        | inl set ↦ rw set cleared-Still
        | inr clear ↦ rw clear (
            Outcome-moved oid new_node _ (
              evict-Outcome moved (Still-Coherent c moved-Still) new_node oid home chance hand
                (unfold advance_index in advance_index-below) (unfold advance_index in used)))
      ]

      -- A probe that does not place the node changes nothing but the hand and a reference bit.
      pub probe-Outcome : Outcome m oid new_node (probe new_node rid oid chance m)
      probe-Outcome = rw probe_lem (elim (Bool-cases ((m.inner.entries hand).rid == sentinel)) [
        | inl free ↦ rw free (elim (Bool-cases chance.exchange_spurious) [
          | inl fails ↦ rw fails moved-Still
          | inr works ↦ rw works (claimed-Placed ((==_iff _ sentinel).0 free))
        ])
        | inr used ↦ rw used (used-Outcome (ground arith))
      ])
