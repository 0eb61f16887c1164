-- ===== src/Clock/Coherent.antt =====
-- The lock words and the cache entries point at each other.
use alchemy.Base.{ℕ, ◌^◌, ◌<◌, ◌≡◌, ◌≢◌, arith, Bool, true}
use alchemy.Rid.{sentinel}
use alchemy.Oid.Layout.{tag, spare, ident}
use alchemy.Oid.Methods.{IsWord}
use alchemy.Clock.{Mem}

-- `live` says which records exist. The word of a live record holds its own id, or the index of the
-- one cache entry that holds the record; an entry in use holds a live record that points back.
pub record Coherent {F : Type 0} (live : ℕ → Bool) (m : Mem F) : Type 0 where
  pub some_room : 0 < m.inner.capacity
  pub small : m.inner.capacity < 2 ^ 32
  pub rids : (r : ℕ) → live r ≡ true → r < sentinel
  pub words : (r : ℕ) → live r ≡ true → IsWord (m.oids r) × (spare (m.oids r) ≡ 0)
  pub at_home : (r : ℕ) → live r ≡ true → tag (m.oids r) ≡ 0 → ident (m.oids r) ≡ r
  pub in_cache :
      (r : ℕ)
      → live r ≡ true
      → tag (m.oids r) ≢ 0
      → (ident (m.oids r) < m.inner.capacity) × ((m.inner.entries (ident (m.oids r))).rid ≡ r)
  pub held :
      (i : ℕ)
      → i < m.inner.capacity
      → (m.inner.entries i).rid ≢ sentinel
      → (live (m.inner.entries i).rid ≡ true)
        × (tag (m.oids (m.inner.entries i).rid) ≢ 0)
        × (ident (m.oids (m.inner.entries i).rid) ≡ i)

module _ {F : Type 0} where
  -- Nothing changes but the clock hand and reference bits.
  pub record Still (m m' : Mem F) : Type 0 where
    pub capacity : m'.inner.capacity ≡ m.inner.capacity
    pub probe_len : m'.inner.probe_len ≡ m.inner.probe_len
    pub oids : (r : ℕ) → m'.oids r ≡ m.oids r
    pub rid : (i : ℕ) → (m'.inner.entries i).rid ≡ (m.inner.entries i).rid
    pub val : (i : ℕ) → (m'.inner.entries i).val ≡ (m.inner.entries i).val

  pub Still-trans : {m m' m'' : Mem F} → Still m m' → Still m' m'' → Still m m''
  Still-trans a b = record {
    capacity = ground arith;
    probe_len = ground arith;
    oids = λ r. ground (arith, a.oids r, b.oids r);
    rid = λ i. ground (arith, a.rid i, b.rid i);
    val = λ i. ground (arith, a.val i, b.val i);
  }

  pub Still-Coherent :
      {live : ℕ → Bool} {m m' : Mem F} → Coherent live m → Still m m' → Coherent live m'
  Still-Coherent {live} {m} {m'} c s = record {
    some_room = ground arith;
    small = ground arith;
    rids = c.rids;
    words = λ r l. rw (s.oids r) (c.words r l);
    at_home = λ r l t. rw (s.oids r) (c.at_home r l (rw (s.oids r) at t));
    in_cache = λ r l t.
        rw (s.oids r, s.capacity, s.rid (ident (m.oids r))) (c.in_cache r l (rw (s.oids r) at t));
    held = λ i lt u.
        rw (s.rid i, s.oids (m.inner.entries i).rid)
          (c.held i (rw s.capacity at lt) (rw (s.rid i) at u));
  }
