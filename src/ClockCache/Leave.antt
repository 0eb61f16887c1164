-- ===== src/ClockCache/Leave.antt =====
-- `write_back_evicted` after a placement: the evicted item goes back to the storage, its guard is
-- dropped, and no record's tuple has changed.
use alchemy.Base.{
  ℕ, ◌≡◌, ◌≢◌, ◌+◌, ◌%◌, ◌<◌, ◌^◌, refl, sym, ◌∙◌, arith, Bool, true, Option, none, some, put-self,
  put-other, ℕ_discrete,
}
use alchemy.Rid.{Rid, sentinel}
use alchemy.Oid.{lock_writer, store_rid, write_unlock}
use alchemy.Oid.Layout.{tag, spare, ident, locks}
use alchemy.Oid.Methods.{IsWord, store_rid_lem}
use alchemy.Schema.{Schema}
use alchemy.Clock.{ClockNode, Mem}
use alchemy.Clock.Coherent.{Coherent, Still}
use alchemy.Clock.Outcome.{Placed}
use alchemy.ClockCache.{ClockCache, write_back_evicted}
use alchemy.ClockCache.View.{view, view-home, view-used, Relock-Coherent}
use alchemy.ClockCache.Kept.{
  Kept, placed-Coherent, entering-view, entering-locks, bystander-view, bystander-locks,
}

-- The word of an evicted record after its guard is dropped is its own id.
write_unlock-store_rid :
    (e w : ℕ)
    → IsWord w
    → spare w ≡ 0
    → locks w ≡ 0
    → e < sentinel
    → write_unlock (store_rid e (w + lock_writer)) ≡ e
unfolding write_unlock
write_unlock-store_rid e w h k free lt =
    omega (arith, store_rid_lem e (w + lock_writer) (omega arith) (omega arith))

module _ {S : Schema} {live : ℕ → Bool} (s : ClockCache S) {r index : ℕ} {m1 m' : Mem S.Cached}
    {new_node : ClockNode S.Cached} (c : Coherent live s.mem) (alive : live r ≡ true)
    (home : tag (s.mem.oids r) ≡ 0) (named : new_node.rid ≡ r)
    (valued : S.write_back new_node.val (s.storage r) ≡ s.storage r) where
  module _ (old : ClockNode S.Cached) (e : Rid)
      (p : Placed s.mem r new_node index (some (old, e)) m1) (st : Still m1 m') where
    abbrev left : ClockCache S
    left = write_back_evicted (some (old, e)) (record s { mem = m' })

    e_live : live e ≡ true
    e_live =
        let (was, used, _, _, _, _, _) = p.victim in
        rw (← was) (c.held index p.below (rw was used)).0

    e_used : (tag (s.mem.oids e) ≢ 0) × (ident (s.mem.oids e) ≡ index)
    e_used =
        let (was, used, _, _, _, _, _) = p.victim in
        let (_, t, i) = c.held index p.below (rw was used) in rw (← was) (t, i)

    e_word : left.mem.oids e ≡ e
    unfolding write_back_evicted
    e_word =
        let (_, _, _, _, _, free, now) = p.victim in
        let (w, z) = c.words e e_live in
        put-self (λ a. a ≡ e) m'.oids e
          (rw (st.oids e, now) (write_unlock-store_rid e (s.mem.oids e) w z free (c.rids e e_live)))

    other_word : (x : ℕ) → e ≢ x → left.mem.oids x ≡ m'.oids x
    unfolding write_back_evicted
    other_word x ne = put-other (λ a. a ≡ m'.oids x) m'.oids e x _ ne refl

    e_storage : left.storage e ≡ S.write_back (s.mem.inner.entries index).val (s.storage e)
    unfolding write_back_evicted
    e_storage =
        let (_, _, own, val, _, _, _) = p.victim in
        rw (own, val)
          (put-self (λ t. t ≡ S.write_back (s.mem.inner.entries index).val (s.storage e)) s.storage
            e refl)

    other_storage : (x : ℕ) → e ≢ x → left.storage x ≡ s.storage x
    unfolding write_back_evicted
    other_storage x ne =
        let (_, _, own, _, _, _, _) = p.victim in
        put-other (λ t. t ≡ s.storage x) s.storage old.rid x _ (rw own ne) refl

    e_placed : (m'.oids e % 2 ^ 56 ≡ e)
    e_placed =
        let (_, _, _, _, _, free, now) = p.victim in
        let (w, z) = c.words e e_live in
        omega (
          arith,
          st.oids e,
          now,
          w,
          z,
          free,
          c.rids e e_live,
          store_rid_lem e (s.mem.oids e + lock_writer) (omega arith)
              (omega (arith, c.rids e e_live)),
        )

    left-Coherent : Coherent live left.mem
    unfolding write_back_evicted
    left-Coherent =
        let before = placed-Coherent s c alive home named valued p st in
        Relock-Coherent left.mem.oids before (λ x l. elim (ℕ_discrete e x) [
          | yes here ↦ rw (← here) (
            omega (arith, e_word, c.rids e e_live),
            omega (arith, e_word, e_placed, c.rids e e_live),
          )
          | no apart ↦ rw (other_word x apart) ((before.words x l).0, refl)
        ])

    e_view : view left e ≡ view s e
    e_view =
        let (w, z) = c.words e e_live in
        view-home left e (omega (arith, e_word, c.rids e e_live))
        ∙ e_storage
        ∙ sym (view-used s e w z e_used.0 ∙ rw (e_used.1) refl)

    left-Kept : Kept live s left
    unfolding write_back_evicted
    left-Kept = record {
      coherent = left-Coherent;
      views = λ x l. elim (ℕ_discrete e x) [
        | yes here ↦ rw (← here) e_view
        | no apart ↦ elim (ℕ_discrete r x) [
          | yes own ↦ rw (← own) (
              entering-view s c alive home named valued p st left
                (other_word r (rw (← own) at apart)) (λ i. refl)
                (other_storage r (rw (← own) at apart)))
          | no ne ↦
              bystander-view s c alive home named valued p st left x l ne apart (other_word x apart)
                (λ i. refl) (other_storage x apart)
        ]
      ];
      same_locks = λ x l. elim (ℕ_discrete e x) [
        | yes here ↦
            let (_, _, _, _, _, free, _) = p.victim in
            rw (← here) (omega (arith, e_word, free, c.rids e e_live))
        | no apart ↦ elim (ℕ_discrete r x) [
          | yes own ↦ rw (← own) (
              rw (other_word r (rw (← own) at apart))
                (entering-locks s c alive home named valued p st))
          | no ne ↦
              rw (other_word x apart) (bystander-locks s c alive home named valued p st x ne apart)
        ]
      ];
    }

  -- A record whose tuple is unchanged by writing its new item back enters the cache.
  pub write_back_evicted-Kept :
      (evicted : Option (ClockNode S.Cached × Rid))
      → Placed s.mem r new_node index evicted m1
      → Still m1 m'
      → Kept live s (write_back_evicted evicted (record s { mem = m' }))
  unfolding write_back_evicted
  write_back_evicted-Kept none p st =
      let s' : ClockCache S = record s { mem = m' } in
      record {
        coherent = placed-Coherent s c alive home named valued p st;
        views = λ x l. elim (ℕ_discrete r x) [
          | yes own ↦
              rw (← own) (entering-view s c alive home named valued p st s' refl (λ i. refl) refl)
          | no ne ↦
              bystander-view s c alive home named valued p st s' x l ne (λ h. h) refl (λ i. refl)
                refl
        ];
        same_locks = λ x l. elim (ℕ_discrete r x) [
          | yes own ↦ rw (← own) (entering-locks s c alive home named valued p st)
          | no ne ↦ bystander-locks s c alive home named valued p st x ne (λ h. h)
        ];
      }
  write_back_evicted-Kept (some (old, e)) p st = left-Kept old e p st

  -- The word of the record that enters is as the placement left it.
  pub entered_word :
      (evicted : Option (ClockNode S.Cached × Rid))
      → Placed s.mem r new_node index evicted m1
      → Still m1 m'
      → (write_back_evicted evicted (record s { mem = m' })).mem.oids r ≡ m1.oids r
  unfolding write_back_evicted
  entered_word none p st = st.oids r
  entered_word (some (old, e)) p st =
      let (_, _, _, _, ne, _, _) = p.victim in other_word old e p st r ne ∙ st.oids r
