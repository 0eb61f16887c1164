-- ===== src/Oid/Threads/Moves.antt =====
-- Every move of a thread keeps the invariant.
use alchemy.Base.{
  ℕ, ◌+◌, ◌*◌, ◌^◌, ◌≤◌, ◌<◌, ◌≡◌, ◌≢◌, ◌⊎◌, refl, arith, put, total, total-eq_zero, put-self,
  put-other, sym, ◌∙◌, inl, ℕ_discrete,
}
use alchemy.Oid.{read_unlock, write_unlock}
use alchemy.Oid.Layout.{locks, content}
use alchemy.Oid.Loops.{read_round-ok, read_round-err, write_round-ok, write_round-err}
use alchemy.Oid.Methods.{
  IsWord, try_read_lem, try_write_lem, upgrade_lem, store_rid_lem, store_index_lem,
}
use alchemy.Oid.Threads.Defs.{
  Pc, idle, reading, try_reading, writing, try_writing, reader, upgrading, writer, storing_rid,
  storing_index, Move, read_load, read_ok, read_again, try_read_load, try_read_ok, try_read_err,
  write_load, write_ok, write_again, try_write_load, try_write_ok, try_write_err, read_drop,
  write_drop, upgrade_load, upgrade_ok, upgrade_err, rid_load, rid_store, index_load, index_store,
  System, pick, Reach, start, later,
}
use alchemy.Oid.Threads.Counts.{reads, writes, IsFresh, Inv, Mover, mover, total-get_pair}

module _ {n m : ℕ} {pc : ℕ → Pc} (inv : Inv n m pc) (i : ℕ) (lt : i < n) where
  open inv use {few, word, counted, exclusive, fresh}

  record Counts (m' : ℕ) (pc' : ℕ → Pc) : Type 0 where
    word : IsWord m'
    counted : locks m' ≡ total reads n pc' + 128 * total writes n pc'
    exclusive : (total writes n pc' ≡ 0) ⊎ ((total writes n pc' ≡ 1) × (total reads n pc' ≡ 0))

  Move-Counts :
      {p p' : Pc} {m' : ℕ} → Move m p m' p' → Mover inv i lt p p' → Counts m' (put pc i p')
  unfolding read_unlock write_unlock
  Move-Counts read_load f = ground arith
  Move-Counts (read_ok {val} {new} spurious e) f = ground (arith, read_round-ok val m new spurious)
  Move-Counts (read_again {val} {v} spurious e) f = ground arith
  Move-Counts try_read_load f = ground arith
  Move-Counts (try_read_ok {val} spurious e) f = ground (arith, try_read_lem val m spurious)
  Move-Counts (try_read_err {val} spurious x e) f = ground (arith, try_read_lem val m spurious)
  Move-Counts write_load f = ground arith
  Move-Counts (write_ok {val} {new} spurious e) f =
      ground (arith, write_round-ok val m new spurious)
  Move-Counts (write_again {val} {v} spurious e) f = ground arith
  Move-Counts try_write_load f = ground arith
  Move-Counts (try_write_ok {val} spurious e) f = ground (arith, try_write_lem val m spurious)
  Move-Counts (try_write_err {val} spurious x e) f = ground (arith, try_write_lem val m spurious)
  Move-Counts read_drop f = ground arith
  Move-Counts write_drop f = ground arith
  Move-Counts upgrade_load f = ground arith
  Move-Counts (upgrade_ok {val} spurious e) f = ground (arith, upgrade_lem val m spurious)
  Move-Counts (upgrade_err {val} spurious e) f = ground (arith, upgrade_lem val m spurious)
  Move-Counts (rid_load rid h) f = ground arith
  Move-Counts (rid_store {rid} {val}) f = ground (arith, store_rid_lem rid val)
  Move-Counts (index_load index h) f = ground arith
  Move-Counts (index_store {index} {val}) f = ground (arith, store_index_lem index val)

  -- While another thread owns the write guard, no move changes the word.
  pub Move-still :
      {p p' : Pc} {m' : ℕ} (j : ℕ)
      → Move m p m' p'
      → Mover inv i lt p p'
      → writes (pc j) ≡ 1
      → writes p + writes (pc j) ≤ total writes n pc
      → m' ≡ m
  Move-still j read_load f h k = refl
  Move-still j (read_ok {val} {new} spurious e) f h k =
      ground (arith, read_round-ok val m new spurious)
  Move-still j (read_again spurious e) f h k = refl
  Move-still j try_read_load f h k = refl
  Move-still j (try_read_ok {val} spurious e) f h k = ground (arith, try_read_lem val m spurious)
  Move-still j (try_read_err {val} spurious x e) f h k = ground (arith, try_read_lem val m spurious)
  Move-still j write_load f h k = refl
  Move-still j (write_ok {val} {new} spurious e) f h k =
      ground (arith, write_round-ok val m new spurious)
  Move-still j (write_again spurious e) f h k = refl
  Move-still j try_write_load f h k = refl
  Move-still j (try_write_ok {val} spurious e) f h k = ground (arith, try_write_lem val m spurious)
  Move-still j (try_write_err {val} spurious x e) f h k =
      ground (arith, try_write_lem val m spurious)
  Move-still j read_drop f h k = ground arith
  Move-still j write_drop f h k = ground arith
  Move-still j upgrade_load f h k = refl
  Move-still j (upgrade_ok spurious e) f h k = ground arith
  Move-still j (upgrade_err {val} spurious e) f h k = ground arith
  Move-still j (rid_load rid h') f h k = refl
  Move-still j rid_store f h k = ground arith
  Move-still j (index_load index h') f h k = refl
  Move-still j index_store f h k = ground arith

  -- While a thread owns a read guard, no move changes the word below the locks.
  pub Move-content :
      {p p' : Pc} {m' : ℕ}
      → Move m p m' p'
      → Mover inv i lt p p'
      → 1 ≤ total reads n pc
      → content m' ≡ content m
  unfolding read_unlock write_unlock
  Move-content read_load f h = refl
  Move-content (read_ok {val} {new} spurious e) f h =
      ground (arith, read_round-ok val m new spurious)
  Move-content (read_again spurious e) f h = refl
  Move-content try_read_load f h = refl
  Move-content (try_read_ok {val} spurious e) f h = ground (arith, try_read_lem val m spurious)
  Move-content (try_read_err {val} spurious x e) f h = ground (arith, try_read_lem val m spurious)
  Move-content write_load f h = refl
  Move-content (write_ok {val} {new} spurious e) f h =
      ground (arith, write_round-ok val m new spurious)
  Move-content (write_again spurious e) f h = refl
  Move-content try_write_load f h = refl
  Move-content (try_write_ok {val} spurious e) f h = ground (arith, try_write_lem val m spurious)
  Move-content (try_write_err {val} spurious x e) f h = ground (arith, try_write_lem val m spurious)
  Move-content read_drop f h = ground arith
  Move-content write_drop f h = ground arith
  Move-content upgrade_load f h = refl
  Move-content (upgrade_ok {val} spurious e) f h = ground (arith, upgrade_lem val m spurious)
  Move-content (upgrade_err {val} spurious e) f h = ground (arith, upgrade_lem val m spurious)
  Move-content (rid_load rid h') f h = refl
  Move-content rid_store f h = ground arith
  Move-content (index_load index h') f h = refl
  Move-content index_store f h = ground arith

  -- The mover's own value is fresh after its move.
  Move-own : {p p' : Pc} {m' : ℕ} → Move m p m' p' → Mover inv i lt p p' → IsFresh m' p'
  Move-own (read_again {val} {v} spurious e) f = ground (arith, read_round-err val m v spurious)
  Move-own (write_again {val} {v} spurious e) f = ground (arith, write_round-err val m v spurious)
  Move-own read_load f = word
  Move-own (read_ok spurious e) f = tt
  Move-own try_read_load f = word
  Move-own (try_read_ok spurious e) f = tt
  Move-own (try_read_err spurious x e) f = tt
  Move-own write_load f = word
  Move-own (write_ok spurious e) f = tt
  Move-own try_write_load f = word
  Move-own (try_write_ok spurious e) f = tt
  Move-own (try_write_err spurious x e) f = tt
  Move-own read_drop f = tt
  Move-own write_drop f = tt
  Move-own upgrade_load f = word
  Move-own (upgrade_ok spurious e) f = tt
  Move-own (upgrade_err spurious e) f = tt
  Move-own (rid_load rid h) f = (h, refl)
  Move-own rid_store f = tt
  Move-own (index_load index h) f = (h, refl)
  Move-own index_store f = tt

  IsFresh-still : (m' : ℕ) (q : Pc) → IsFresh m q → (writes q ≡ 1 → m' ≡ m) → IsFresh m' q
  IsFresh-still m' idle h k = tt
  IsFresh-still m' (reading val) h k = h
  IsFresh-still m' (try_reading val) h k = h
  IsFresh-still m' (writing val) h k = h
  IsFresh-still m' (try_writing val) h k = h
  IsFresh-still m' reader h k = tt
  IsFresh-still m' (upgrading val) h k = h
  IsFresh-still m' writer h k = tt
  IsFresh-still m' (storing_rid rid val) h k = (h.0, h.1 ∙ sym (k refl))
  IsFresh-still m' (storing_index index val) h k = (h.0, h.1 ∙ sym (k refl))

  others-fresh :
      {p' : Pc} {m' : ℕ} → Move m (pc i) m' p' → (j : ℕ) → j < n → i ≢ j → IsFresh m' (pc j)
  others-fresh {p'} {m'} mv j below apart =
      IsFresh-still m' (pc j) (fresh j below)
        λ w. Move-still j mv (mover inv i lt p') w (total-get_pair n pc i j lt below apart)

  pub Move-Inv : {p' : Pc} {m' : ℕ} → Move m (pc i) m' p' → Inv n m' (put pc i p')
  Move-Inv {p'} {m'} mv = record {
    few = few;
    word = counts.word;
    counted = counts.counted;
    exclusive = counts.exclusive;
    fresh = λ j below. elim (ℕ_discrete i j) [
      | yes e ↦ rw (← e) (put-self (IsFresh m') pc i (Move-own mv (mover inv i lt p')))
      | no apart ↦ put-other (IsFresh m') pc i j p' apart (others-fresh mv j below apart)
    ];
  }
    where
      counts : Counts m' (put pc i p')
      counts = Move-Counts mv (mover inv i lt p')

pub Inv-init : (n content : ℕ) → n ≤ 127 → content < 2 ^ 56 → Inv n content (λ _. idle)
Inv-init n content few small = record {
  few = few;
  word = omega arith;
  counted = omega (
    arith,
    total-eq_zero reads n (λ _. idle) (λ _. refl),
    total-eq_zero writes n (λ _. idle) (λ _. refl),
  );
  exclusive = inl (total-eq_zero writes n (λ _. idle) (λ _. refl));
  fresh = λ i lt. tt;
}

pub Reach-Inv :
    {n content : ℕ} {s : System}
    → n ≤ 127
    → content < 2 ^ 56
    → Reach n content s
    → Inv n s.word s.pc
Reach-Inv {n} {content} few small start = Inv-init n content few small
Reach-Inv few small (later r (pick i lt mv)) = Move-Inv (Reach-Inv few small r) i lt mv
