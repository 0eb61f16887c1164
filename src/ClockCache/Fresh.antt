-- ===== src/ClockCache/Fresh.antt =====
-- `alloc_rid` of src/storage/oid_array.rs: a new record, under its write lock.
use alchemy.Base.{
  ℕ, suc, ◌+◌, ◌^◌, ◌<◌, ◌≡◌, ◌≢◌, refl, ap, ◌∙◌, arith, Bool, true, false, some, put, put-self,
  put-other, ℕ_discrete, Option-cases, inl, inr, ==-ne,
}
use alchemy.Rid.{sentinel}
use alchemy.Oid.{lock_writer, store_rid, write_loop, from_rid}
use alchemy.Oid.Layout.{spare, has_lock_lem}
use alchemy.Oid.Methods.{IsWord, store_rid_lem}
use alchemy.Oid.Loops.{write_loop-takes, write_loop-returns}
use alchemy.Schema.{Schema}
use alchemy.Clock.Coherent.{Coherent}
use alchemy.ClockCache.{ClockCache, set_word, alloc_rid}

-- On a word that is zero, `write` returns by the second round that can succeed, with the writer bit set.
write_loop-zero :
    (k : ℕ) (spurious : ℕ → Bool)
    → spurious (suc k) ≡ false
    → write_loop (suc (suc k)) (λ _. 0) spurious 0 ≡ some lock_writer
write_loop-zero k spurious fair =
    elim (Option-cases (write_loop (suc (suc k)) (λ _. 0) spurious 0)) [
      | inl out ↦ absurd (
          ground (
            arith,
            out,
            write_loop-returns k (λ _. 0) spurious 0 (has_lock_lem 0 (omega arith)) refl fair,
          ))
      | inr (new, e) ↦
          let (i, _, _, is) =
            write_loop-takes (suc (suc k)) (λ _. 0) spurious 0 (λ i. omega arith) (omega arith) e in
          e ∙ ap some (is ∙ omega arith)
    ]

module _ {S : Schema} {live : ℕ → Bool} (s : ClockCache S) (c : Coherent live s.mem) (rid : ℕ)
    (fresh : live rid ≡ false) (lt : rid < sentinel) where
  abbrev pub allocated : ClockCache S
  allocated = set_word s rid (store_rid rid lock_writer)

  pub alloc_rid_lem :
      (k : ℕ) (spurious : ℕ → Bool)
      → spurious (suc k) ≡ false
      → alloc_rid (some rid) (suc (suc k)) spurious s ≡ some (rid, allocated)
  unfolding alloc_rid from_rid
  alloc_rid_lem k spurious fair = rw (write_loop-zero k spurious fair, alloc_rid) refl

  pub own_word : allocated.mem.oids rid ≡ 2 ^ 63 + rid
  own_word =
      put-self (λ w. w ≡ 2 ^ 63 + rid) s.mem.oids rid
        (omega (arith, store_rid_lem rid lock_writer (omega arith) (omega arith)))

  pub other_word : (x : ℕ) → rid ≢ x → allocated.mem.oids x ≡ s.mem.oids x
  other_word x ne = put-other (λ w. w ≡ s.mem.oids x) s.mem.oids rid x _ ne refl

  abbrev pub live' : ℕ → Bool
  live' = put live rid true

  pub live'-rid : live' rid ≡ true
  live'-rid = put-self (λ b. b ≡ true) live rid refl

  pub live'-old : (x : ℕ) → live x ≡ true → live' x ≡ true
  live'-old x l = elim (ℕ_discrete rid x) [
    | yes here ↦ rw (← here) live'-rid
    | no ne ↦ put-other (λ b. b ≡ true) live rid x true ne l
  ]

  pub old-ne : (x : ℕ) → live x ≡ true → rid ≢ x
  old-ne x l e = ground (arith, rw (← e) at l)

  was_live : (x : ℕ) → rid ≢ x → live' x ≡ true → live x ≡ true
  was_live x ne l = rw (==-ne rid x ne) at l

  word :
      (x : ℕ) → live' x ≡ true → IsWord (allocated.mem.oids x) × (spare (allocated.mem.oids x) ≡ 0)
  word x l = elim (ℕ_discrete rid x) [
    | yes here ↦ rw (← here) (omega (arith, own_word), omega (arith, own_word))
    | no ne ↦ rw (other_word x ne) (c.words x (was_live x ne l))
  ]

  pub allocated-Coherent : Coherent live' allocated.mem
  allocated-Coherent = record {
    some_room = c.some_room;
    small = c.small;
    rids = λ x l. elim (ℕ_discrete rid x) [
      | yes here ↦ omega arith
      | no ne ↦ c.rids x (was_live x ne l)
    ];
    words = word;
    at_home = λ x l t. elim (ℕ_discrete rid x) [
      | yes here ↦ rw (← here) (omega (arith, own_word))
      | no ne ↦ rw (other_word x ne) (c.at_home x (was_live x ne l) (rw (other_word x ne) at t))
    ];
    in_cache = λ x l t. elim (ℕ_discrete rid x) [
      | yes here ↦ absurd (t (rw (← here) (omega (arith, own_word))))
      | no ne ↦ rw (other_word x ne) (c.in_cache x (was_live x ne l) (rw (other_word x ne) at t))
    ];
    held = λ i below used.
        let (l, t, at_i) = c.held i below used in
        (live'-old _ l, rw (other_word _ (old-ne _ l)) t, rw (other_word _ (old-ne _ l)) at_i);
  }
