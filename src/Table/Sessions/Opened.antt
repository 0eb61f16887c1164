-- ===== src/Table/Sessions/Opened.antt =====
-- A new table (src/table.rs) has an empty cache, and agrees with a client that expects nothing.
use mathlib.Core.Path.{subst}
use alchemy.Base.{
  ℕ, ◌/◌, ◌%◌, ◌^◌, ◌<◌, ◌≤◌, ◌≡◌, ◌≢◌, refl, ap, arith, Bool, true, false, Option, none, some, ltb,
  if◌then◌else◌,
}
use alchemy.Rid.{sentinel}
use alchemy.Schema.{Schema}
use alchemy.Clock.{CacheInner, new, new_cap}
use alchemy.Alloc.{Memory}
use alchemy.Alloc.Heap.{HeapArray, capacity}
use alchemy.Alloc.Slots.Reached.{Reach}
use alchemy.Table.{DbIndex, DbTable, DbTableBuilder, build}
use alchemy.Table.Sessions.Agree.{Agrees}

-- A cache without entries.
abbrev pub IsEmpty : {F : Type 0} → CacheInner F → Type 0
IsEmpty c = (c.capacity < 2 ^ 32) × ((i : ℕ) → (c.entries i).rid ≡ sentinel)

if-some :
    {A : Type 0} (b : Bool) (x y : A)
    → Path (Option A) (if b then some x else none) (some y)
    → x ≡ y
if-some true x y e = cc (e)
if-some false x y e = cc (e)

new-IsEmpty :
    {F : Type 0} (cache_size probe_len node_size : ℕ) (zeroed : F) (c : CacheInner F)
    → new cache_size probe_len node_size zeroed ≡ some c
    → IsEmpty c
unfolding new new_cap
new-IsEmpty {F} cache_size probe_len node_size zeroed c e =
    subst IsEmpty
      (if-some (ltb 0 (cache_size / node_size))
        (record {
          capacity = cache_size / node_size % 2 ^ 32;
          probe_len = probe_len % 2 ^ 32;
          tls_index = none;
          entries = λ _. record { rid = sentinel; meta = 0; val = zeroed };
        })
        c e)
      (omega arith, λ i. refl)

module _ {I : DbIndex} {S : Schema} where
  -- `build` from its parts.
  unfoldable built :
      (node_size tuple_size : ℕ) (zeroed : S.Cached) (oids : ℕ → ℕ) (storage : ℕ → S.Tuple)
      → Option ℕ
      → Option ℕ
      → Option ℕ
      → Option I.Index
      → Option (Unit {0})
      → Option (DbTable I S)
  unfolding build
  built node_size tuple_size zeroed oids storage cache_size storage_size probe_len index schema =
      build node_size tuple_size zeroed oids storage (record {
        cache_size = cache_size;
        storage_size = storage_size;
        probe_len = probe_len;
        index = index;
        schema = schema;
      })

  unfoldable cached :
      (inner : Option (CacheInner S.Cached)) (oids : ℕ → ℕ) (storage : ℕ → S.Tuple)
      → I.Index
      → Option (DbTable I S)
  cached inner oids storage index = elim inner as (λ _. Option (DbTable I S)) [
    | none ↦ none
    | some inner ↦ some (record {
      cache = record { mem = record { inner = inner; oids = oids }; storage = storage };
      index = index;
    })
  ]

  cached-IsEmpty :
      (inner : Option (CacheInner S.Cached)) (oids : ℕ → ℕ) (storage : ℕ → S.Tuple)
      (index : I.Index) (t : DbTable I S)
      → ((c : CacheInner S.Cached) → inner ≡ some c → IsEmpty c)
      → cached inner oids storage index ≡ some t
      → IsEmpty t.cache.mem.inner
  unfolding cached
  cached-IsEmpty none oids storage index t empty e = cc (e)
  cached-IsEmpty (some c) oids storage index t empty e =
      subst IsEmpty (ap (λ o. inner_of c o) e) (empty c refl)
    where
      inner_of : CacheInner S.Cached → Option (DbTable I S) → CacheInner S.Cached
      inner_of c none = c
      inner_of c (some t) = t.cache.mem.inner

  built-IsEmpty :
      (node_size tuple_size : ℕ) (zeroed : S.Cached) (oids : ℕ → ℕ) (storage : ℕ → S.Tuple)
      (cache_size storage_size probe_len : Option ℕ) (index : Option I.Index)
      (schema : Option (Unit {0})) (t : DbTable I S)
      → built node_size tuple_size zeroed oids storage cache_size storage_size probe_len index
          schema
        ≡ some t
      → IsEmpty t.cache.mem.inner
  unfolding built build cached
  built-IsEmpty node_size tuple_size zeroed oids storage none ss p ix sc t e = cc (e)
  built-IsEmpty node_size tuple_size zeroed oids storage (some cs) none p ix sc t e = cc (e)
  built-IsEmpty node_size tuple_size zeroed oids storage (some cs) (some ss) p ix none t e = cc (e)
  built-IsEmpty node_size tuple_size zeroed oids storage (some cs) (some ss) p ix (some sc) t e =
      cached-IsEmpty (new cs _ node_size zeroed) oids storage _ t
        (λ c is. new-IsEmpty cs _ node_size zeroed c is) e

  -- A new table with an empty index, and a heap of which no slot is held.
  pub opened-Agrees :
      (node_size tuple_size : ℕ) (zeroed : S.Cached) (oids : ℕ → ℕ) (storage : ℕ → S.Tuple)
      (b : DbTableBuilder I S) (t : DbTable I S) (h : HeapArray) (m : Memory)
      → build node_size tuple_size zeroed oids storage b ≡ some t
      → t.cache.mem.inner.capacity ≢ 0
      → ((key : ℕ) → I.get t.index key ≡ none)
      → Reach h m (λ _. false)
      → capacity h ≤ sentinel
      → Agrees (record { table = t; heap = h; words = m }) (λ _. none)
  unfolding built
  opened-Agrees node_size tuple_size zeroed oids storage b t h m e room no_key r small =
      let (cap_small, unused) =
        built-IsEmpty node_size tuple_size zeroed oids storage b.cache_size b.storage_size
          b.probe_len b.index b.schema t e in
      record {
        live = λ _. false;
        reach = r;
        small = small;
        coherent = record {
          some_room = omega (arith, room);
          small = cap_small;
          rids = λ r l. cc (l);
          words = λ r l. cc (l);
          at_home = λ r l _. cc (l);
          in_cache = λ r l _. cc (l);
          held = λ i lt used. absurd (used (unused i));
        };
        indexed = λ key r at. cc (at, no_key key);
        apart = λ key key' r at _. cc (at, no_key key);
        found = λ key r at. cc (at, no_key key);
        missing = λ key _. refl;
      }
