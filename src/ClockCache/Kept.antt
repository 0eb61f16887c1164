-- ===== src/ClockCache/Kept.antt =====
-- A record goes into the cache and another may leave it: src/attribute_cache/clock_cache/mod.rs
-- around `probe_and_replace_rng`. No record's tuple changes.
use alchemy.Base.{ℕ, ◌≡◌, ◌≢◌, refl, sym, ◌∙◌, arith, Bool, true, Option}
use alchemy.Rid.{Rid}
use alchemy.Oid.Layout.{tag, ident, locks}
use alchemy.Schema.{Schema}
use alchemy.Clock.{ClockNode, Mem}
use alchemy.Clock.Coherent.{Coherent, Still, Still-Coherent}
use alchemy.Clock.Outcome.{Evicted, Placed}
use alchemy.Clock.Place.{Placed-Coherent, own_word_lem, own_fields, other-index}
use alchemy.ClockCache.{ClockCache}
use alchemy.ClockCache.View.{view, view-home, view-used, view-same}

-- The words and the entries still agree, every record has the tuple it had, and the same locks.
pub record Kept {S : Schema} (live : ℕ → Bool) (s s' : ClockCache S) : Type 0 where
  pub coherent : Coherent live s'.mem
  pub views : (x : ℕ) → live x ≡ true → view s' x ≡ view s x
  pub same_locks : (x : ℕ) → live x ≡ true → locks (s'.mem.oids x) ≡ locks (s.mem.oids x)

module _ {S : Schema} {live : ℕ → Bool} where
  pub Still-Kept :
      (s : ClockCache S) {m' : Mem S.Cached}
      → Coherent live s.mem
      → Still s.mem m'
      → Kept live s (record s { mem = m' })
  Still-Kept s {m'} c st = record {
    coherent = Still-Coherent c st;
    views = λ x l.
        view-same s (record s { mem = m' }) x (c.words x l).0 (c.words x l).1
          (rw (st.oids x) (c.words x l).0) (rw (st.oids x) refl) refl
          (λ _. st.val (ident (s.mem.oids x)));
    same_locks = λ x l. rw (st.oids x) refl;
  }

  pub Kept-trans : {s s' s'' : ClockCache S} → Kept live s s' → Kept live s' s'' → Kept live s s''
  Kept-trans a b = record {
    coherent = b.coherent;
    views = λ x l. b.views x l ∙ a.views x l;
    same_locks = λ x l. b.same_locks x l ∙ a.same_locks x l;
  }

  module _ (s : ClockCache S) {r index : ℕ} {m1 m' : Mem S.Cached} {new_node : ClockNode S.Cached}
      {evicted : Option (ClockNode S.Cached × Rid)} (c : Coherent live s.mem)
      (alive : live r ≡ true) (home : tag (s.mem.oids r) ≡ 0) (named : new_node.rid ≡ r)
      (valued : S.write_back new_node.val (s.storage r) ≡ s.storage r)
      (p : Placed s.mem r new_node index evicted m1) (st : Still m1 m') where
    pub placed-Coherent : Coherent live m'
    placed-Coherent = Still-Coherent (Placed-Coherent c alive home named p) st

    -- The record that enters.
    pub entering-view :
        (s' : ClockCache S)
        → s'.mem.oids r ≡ m'.oids r
        → ((i : ℕ) → (s'.mem.inner.entries i).val ≡ (m'.inner.entries i).val)
        → s'.storage r ≡ s.storage r
        → view s' r ≡ view s r
    entering-view s' word vals stored =
        let (w, z) = placed-Coherent.words r alive in
        let (used, at) = own_fields c alive home named p in
        view-used s' r (rw word w) (rw word z) (rw (word, st.oids r) used)
        ∙ rw
            (
              stored,
              vals (ident (s'.mem.oids r)),
              st.val (ident (s'.mem.oids r)),
              word,
              st.oids r,
              at,
              p.entry,
            )
            valued
        ∙ sym (view-home s r home)

    pub entering-locks : locks (m'.oids r) ≡ locks (s.mem.oids r)
    entering-locks =
        omega
          (arith, own_word_lem c alive home named p, st.oids r, p.below, c.small, c.words r alive)

    -- A record that neither enters nor leaves.
    pub bystander-view :
        (s' : ClockCache S) (x : ℕ)
        → live x ≡ true
        → r ≢ x
        → ¬ Evicted evicted x
        → s'.mem.oids x ≡ m'.oids x
        → ((i : ℕ) → (s'.mem.inner.entries i).val ≡ (m'.inner.entries i).val)
        → s'.storage x ≡ s.storage x
        → view s' x ≡ view s x
    bystander-view s' x l ne kept word vals stored =
        let same : s'.mem.oids x ≡ s.mem.oids x = word ∙ st.oids x ∙ p.rest x ne kept in
        view-same s s' x (c.words x l).0 (c.words x l).1 (rw same (c.words x l).0) (rw same refl)
          stored
          (λ used.
            vals (ident (s.mem.oids x))
            ∙ st.val (ident (s.mem.oids x))
            ∙ p.val (ident (s.mem.oids x))
                (other-index c alive home named p evicted x p.victim kept l used))

    pub bystander-locks :
        (x : ℕ) → r ≢ x → ¬ Evicted evicted x → locks (m'.oids x) ≡ locks (s.mem.oids x)
    bystander-locks x ne kept = rw (st.oids x, p.rest x ne kept) refl
