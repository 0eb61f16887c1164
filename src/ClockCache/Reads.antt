-- ===== src/ClockCache/Reads.antt =====
-- `read` and `read_and_promote` of src/attribute_cache/clock_cache/mod.rs: what they find, and that
-- they change no record.
use alchemy.Base.{
  if_true, if_false, ℕ, ◌≡◌, ◌≢◌, refl, ap, ◌∙◌, Bool, true, false, Option, none, some, ok, err,
  ◌==◌, inl, inr, Bool-cases, ℕ_discrete, ==-refl, ==-ne,
}
use mathlib.Core.Path.{subst}
use alchemy.Rid.{Rid}
use alchemy.Oid.{to_rid}
use alchemy.Oid.Layout.{tag, ident, to_rid_lem}
use alchemy.Query.{FieldsMeta}
use alchemy.Schema.{Schema, matches}
use alchemy.Clock.{ClockNode, Mem, Chance, node, set_entry, set_ref_rng, probe_and_replace_rng}
use alchemy.Clock as Inner
use alchemy.Clock.Coherent.{Coherent, Still}
use alchemy.Clock.Outcome.{Still-refl}
use alchemy.Clock.Find.{Search, probe_and_replace_rng-Search}
use alchemy.Clock.Place.{own_fields}
use alchemy.ClockCache.{
  ClockCache, QueryValue, query_value, found_in_cache, read, after_read, after_probe, promote,
  read_and_promote, write_back_evicted,
}
use alchemy.ClockCache.View.{Serves, is_cached-home, is_cached-used, index-ident}
use alchemy.ClockCache.Kept.{Kept, Still-Kept}
use alchemy.ClockCache.Leave.{write_back_evicted-Kept, entered_word}

module _ {F : Type 0} where
  -- Rolling for the reference bit of an entry.
  pub set_ref_rng-Still :
      (roll : Bool) (i : ℕ) (m : Mem F)
      → Still m (record m { inner = set_entry m.inner i (set_ref_rng roll (m.inner.entries i)) })
  unfolding set_ref_rng
  set_ref_rng-Still roll i m = record {
    capacity = refl;
    probe_len = refl;
    oids = λ r. refl;
    rid = λ k. elim (ℕ_discrete i k) [
      | yes here ↦ rw (← here) (rw (==-refl i) (same_rid roll))
      | no apart ↦ rw (==-ne i k apart) refl
    ];
    val = λ k. elim (ℕ_discrete i k) [
      | yes here ↦ rw (← here) (rw (==-refl i) (same_val roll))
      | no apart ↦ rw (==-ne i k apart) refl
    ];
  }
    where
      same_rid :
          (roll : Bool) → (set_ref_rng roll (m.inner.entries i)).rid ≡ (m.inner.entries i).rid
      same_rid true = refl
      same_rid false = refl

      same_val :
          (roll : Bool) → (set_ref_rng roll (m.inner.entries i)).val ≡ (m.inner.entries i).val
      same_val true = refl
      same_val false = refl

module _ {S : Schema} (live : ℕ → Bool) where
  found_in_cache-Serves :
      (s : ClockCache S) (r : ℕ) (query : FieldsMeta)
      → Coherent live s.mem
      → live r ≡ true
      → tag (s.mem.oids r) ≢ 0
      → Serves s r query (found_in_cache S query (ident (s.mem.oids r)) s)
  unfolding found_in_cache
  found_in_cache-Serves s r query c l used = elim (Bool-cases (matches S query)) [
    | inl all ↦ rw all (inr (used, inl (refl, refl)))
    | inr part ↦ rw part (rw (c.in_cache r l used).1 (inr (used, inr refl)))
  ]

  -- What a call that looks a record up leaves behind.
  abbrev pub Served : ClockCache S → ℕ → FieldsMeta → QueryValue × ClockCache S → Type 0
  Served s r query (q, s') = Serves s' r query q × Kept live s s'

  Served-by :
      (s : ClockCache S) (r : ℕ) (query : FieldsMeta) {out out' : QueryValue × ClockCache S}
      → out ≡ out'
      → Served s r query out'
      → Served s r query out
  Served-by s r query e h = rw e h

  -- `CacheInner::read` on each branch.
  module _ (roll : Bool) (r : ℕ) (s : ClockCache S) (c : Coherent live s.mem)
      (l : live r ≡ true) where
    read_home : tag (s.mem.oids r) ≡ 0 → Inner.read roll r s.mem ≡ (err r, s.mem)
    unfolding Inner.read
    read_home home =
        rw (is_cached-home s r home) (rw (to_rid_lem (s.mem.oids r), c.at_home r l home) refl)

    abbrev touched : Mem S.Cached
    touched =
        let i = ident (s.mem.oids r) in
        record s.mem { inner = set_entry s.mem.inner i (set_ref_rng roll (s.mem.inner.entries i)) }

    read_used :
        tag (s.mem.oids r) ≢ 0 → Inner.read roll r s.mem ≡ (ok (ident (s.mem.oids r)), touched)
    unfolding Inner.read
    read_used used =
        rw (is_cached-used s r used) (rw (index-ident s r (c.words r l).0 (c.words r l).1) refl)

    touched-Served :
        (query : FieldsMeta)
        → tag (s.mem.oids r) ≢ 0
        → (let s' : ClockCache S = record s { mem = touched } in
            Served s r query (found_in_cache S query (ident (s.mem.oids r)) s', s'))
    touched-Served query used =
        let kept = Still-Kept s c (set_ref_rng-Still roll (ident (s.mem.oids r)) s.mem) in
        (found_in_cache-Serves _ r query kept.coherent l used, kept)

    pub read-Served : (query : FieldsMeta) → Served s r query (read roll r query s)
    unfolding read after_read
    read-Served query = elim (ℕ_discrete (tag (s.mem.oids r)) 0) [
      | yes home ↦
          Served-by s r query
            (ap (after_read query s (λ rid s'. (query_value none (some rid), s'))) (read_home home))
            (inl (home, refl), Still-Kept s c (Still-refl s.mem))
      | no used ↦
          Served-by s r query
            (ap (after_read query s (λ rid s'. (query_value none (some rid), s'))) (read_used used))
            (touched-Served query used)
    ]

  -- After a miss.
  module _ (roll ref_roll : Bool) (chance : ℕ → Chance) (r : ℕ) (query : FieldsMeta)
      (s : ClockCache S) (c : Coherent live s.mem) (l : live r ≡ true)
      (home : tag (s.mem.oids r) ≡ 0)
      (filled : S.write_back (S.to_cached (s.storage r)) (s.storage r) ≡ s.storage r) where
    abbrev new_node : ClockNode S.Cached
    new_node = node (S.to_cached (s.storage r)) r

    Search-Served :
        (found : Option (ℕ × Option (ClockNode S.Cached × Rid)) × Mem S.Cached)
        → Search s.mem r new_node found
        → Served s r query (after_probe ref_roll r query s found)
    unfolding after_probe
    Search-Served (none, m) st = (inl (rw (st.oids r) home, refl), Still-Kept s c st)
    Search-Served (some (index, evicted), m) p =
        let m' : Mem S.Cached = record m {
          inner = set_entry m.inner index (set_ref_rng ref_roll (m.inner.entries index));
        } in
        let touched : Still m m' = set_ref_rng-Still ref_roll index m in
        let kept = write_back_evicted-Kept s c l home refl filled evicted p touched in
        let word = entered_word s c l home refl filled evicted p touched in
        let (used, here) = own_fields c l home refl p in
        (
          found_at (write_back_evicted evicted (record s { mem = m' })) kept.coherent index
              (rw word used) (rw word here),
          kept,
        )
      where
        found_at :
            (s' : ClockCache S)
            → Coherent live s'.mem
            → (index : ℕ) → tag (s'.mem.oids r) ≢ 0
            → ident (s'.mem.oids r) ≡ index
            → Serves s' r query (found_in_cache S query index s')
        found_at s' c' index used here =
            subst (λ i. Serves s' r query (found_in_cache S query i s')) here
              (found_in_cache-Serves s' r query c' l used)

    abbrev probed : QueryValue × ClockCache S
    unfolding after_probe
    probed = after_probe ref_roll r query s (probe_and_replace_rng roll new_node r r chance s.mem)

    pub promote-Served : Served s r query (promote roll ref_roll chance r r query s)
    unfolding promote
    promote-Served = elim (Bool-cases (s.mem.inner.probe_len == 0)) [
      | inl idle ↦
          Served-by s r query (if_true (query_value none (some r), s) probed idle)
            (inl (home, refl), Still-Kept s c (Still-refl s.mem))
      | inr busy ↦ Served-by s r query (if_false (query_value none (some r), s) probed busy) (
          Search-Served (probe_and_replace_rng roll new_node r r chance s.mem)
            (probe_and_replace_rng-Search new_node r r roll chance s.mem c home))
    ]

  pub read_and_promote-Served :
      (roll0 roll ref_roll : Bool) (chance : ℕ → Chance) (r : ℕ) (query : FieldsMeta)
      (s : ClockCache S)
      → Coherent live s.mem
      → live r ≡ true
      → ((t : S.Tuple) → S.write_back (S.to_cached t) t ≡ t)
      → Served s r query (read_and_promote roll0 roll ref_roll chance r query s)
  unfolding read_and_promote after_read
  read_and_promote-Served roll0 roll ref_roll chance r query s c l filled =
      elim (ℕ_discrete (tag (s.mem.oids r)) 0) [
        | yes home ↦
            Served-by s r query
              (ap
                  (after_read query s
                    (λ rid s'. promote roll ref_roll chance r (to_rid (s'.mem.oids r)) query s'))
                  (read_home roll0 r s c l home)
                ∙ ap (λ x. promote roll ref_roll chance r x query s)
                    (to_rid_lem (s.mem.oids r) ∙ c.at_home r l home))
              (promote-Served roll ref_roll chance r query s c l home (filled (s.storage r)))
        | no used ↦
            Served-by s r query
              (ap
                (after_read query s
                  (λ rid s'. promote roll ref_roll chance r (to_rid (s'.mem.oids r)) query s'))
                (read_used roll0 r s c l used))
              (touched-Served roll0 r s c l query used)
      ]
