-- ===== src/Clock/Find.antt =====
-- `probe_and_replace_rng`: the loop of probes.
use alchemy.Base.{ℕ, zero, suc, ◌≡◌, arith, Bool, true, false, Option, none, some, Result, ok, err}
use alchemy.Rid.{Rid}
use alchemy.Oid.Layout.{tag}
use alchemy.Clock.{ClockNode, Mem, Chance, Found, probe, probe_loop, probe_and_replace_rng}
use alchemy.Clock.Coherent.{Coherent, Still, Still-trans, Still-Coherent}
use alchemy.Clock.Outcome.{Victim, Placed, Outcome, Still-refl}
use alchemy.Clock.Probe.{probe-Outcome}

module _ {F : Type 0} where
  abbrev pub Search :
      Mem F → ℕ → ClockNode F → Option (ℕ × Option (ClockNode F × Rid)) × Mem F → Type 0
  Search m oid new_node (none, m') = Still m m'
  Search m oid new_node (some (index, evicted), m') = Placed m oid new_node index evicted m'

  Victim-after :
      {m0 m : Mem F} (m' : Mem F) (oid index : ℕ) (evicted : Option (ClockNode F × Rid))
      → Still m0 m
      → Victim m oid index evicted m'
      → Victim m0 oid index evicted m'
  Victim-after m' oid index none s v = rw (s.rid index) at v
  Victim-after {m0} m' oid index (some (old, e)) s v =
      ground (arith, s.rid index, s.val index, s.oids e)

  Search-after :
      {m0 m : Mem F} (oid : ℕ) (new_node : ClockNode F)
      (found : Option (ℕ × Option (ClockNode F × Rid)) × Mem F)
      → Still m0 m
      → Search m oid new_node found
      → Search m0 oid new_node found
  Search-after oid new_node (none, m') s t = Still-trans s t
  Search-after {m0} {m} oid new_node (some (index, evicted), m') s p = record {
    below = rw s.capacity at p.below;
    capacity = ground (arith, s.capacity, p.capacity);
    probe_len = ground (arith, s.probe_len, p.probe_len);
    entry = p.entry;
    rid = λ i ne. ground (arith, s.rid i, p.rid i);
    val = λ i ne. ground (arith, s.val i, p.val i);
    own = rw (← s.oids oid) p.own;
    rest = λ r ne ne'. rw (← s.oids r) (p.rest r ne ne');
    victim = Victim-after m' oid index evicted s p.victim;
  }

  module _ {live : ℕ → Bool} (new_node : ClockNode F) (rid oid : ℕ) where
    pub probe_loop-Search :
        (left : ℕ) (chance : ℕ → Chance) (m : Mem F)
        → Coherent live m
        → tag (m.oids oid) ≡ 0
        → Search m oid new_node (probe_loop left new_node rid oid chance m)
    unfolding probe_loop
    probe_loop-Search zero chance m c home = Still-refl m
    probe_loop-Search (suc left) chance m c home =
        on (probe new_node rid oid (chance 0) m)
          (probe-Outcome m c new_node rid oid home (chance 0))
          (probe_loop-Search left (λ p. chance (suc p)))
      where
        next : Mem F → Option (ℕ × Option (ClockNode F × Rid)) × Mem F
        next = probe_loop left new_node rid oid (λ p. chance (suc p))

        on :
            (out : Result (Found F) (Mem F))
            → Outcome m oid new_node out
            → ((m' : Mem F)
                → Coherent live m'
                → tag (m'.oids oid) ≡ 0
                → Search m' oid new_node (next m'))
            → Search m oid new_node (elim out [
              | ok (index, evicted, m') ↦ (some (index, evicted), m')
              | err m' ↦ next m'
            ])
        on (ok (index, evicted, m')) p later = p
        on (err m') s later =
            Search-after oid new_node (next m') s
              (later m' (Still-Coherent c s) (rw (s.oids oid) home))

    pub probe_and_replace_rng-Search :
        (roll : Bool) (chance : ℕ → Chance) (m : Mem F)
        → Coherent live m
        → tag (m.oids oid) ≡ 0
        → Search m oid new_node (probe_and_replace_rng roll new_node rid oid chance m)
    unfolding probe_and_replace_rng
    probe_and_replace_rng-Search true chance m c home =
        probe_loop-Search m.inner.probe_len chance m c home
    probe_and_replace_rng-Search false chance m c home = Still-refl m
