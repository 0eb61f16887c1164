-- ===== src/Clock/Place.antt =====
-- Placing a node keeps the words and the entries pointing at each other.
use alchemy.Base.{
  ℕ, ◌+◌, ◌*◌, ◌^◌, ◌<◌, ◌≡◌, ◌≢◌, ◌⊎◌, refl, arith, Bool, true, Option, none, some, inl, inr,
  ℕ_discrete, sym, ◌∙◌,
}
use alchemy.Rid.{Rid, sentinel}
use alchemy.Oid.{lock_writer, store_rid}
use alchemy.Oid.Layout.{tag, spare, ident, locks}
use alchemy.Oid.Methods.{IsWord, store_rid_lem, store_index_lem}
use alchemy.Clock.{ClockNode, Mem}
use alchemy.Clock.Coherent.{Coherent}
use alchemy.Clock.Outcome.{Evicted, Victim, Placed}

dec_Evicted : {F : Type 0} (evicted : Option (ClockNode F × Rid)) (r : ℕ) → Dec (Evicted evicted r)
dec_Evicted none r = no (λ e. e)
dec_Evicted (some (old, e)) r = ℕ_discrete e r

module _ {F : Type 0} {live : ℕ → Bool} {m m' : Mem F} {oid index : ℕ} {new_node : ClockNode F}
    {evicted : Option (ClockNode F × Rid)} (c : Coherent live m) (alive : live oid ≡ true)
    (home : tag (m.oids oid) ≡ 0) (named : new_node.rid ≡ oid)
    (p : Placed m oid new_node index evicted m') where
  Victim-live :
      (ev : Option (ClockNode F × Rid)) (r : ℕ)
      → Victim m oid index ev m'
      → Evicted ev r
      → (live r ≡ true)
        × (locks (m.oids r) ≡ 0)
        × (m'.oids r ≡ store_rid r (m.oids r + lock_writer))
  Victim-live none r v h = absurd h
  Victim-live (some (old, e)) r v h = ground (arith, c.held index p.below)

  -- An entry that a record other than the victim points at is not the one replaced.
  pub other-index :
      (ev : Option (ClockNode F × Rid)) (r : ℕ)
      → Victim m oid index ev m'
      → ¬ Evicted ev r
      → live r ≡ true
      → tag (m.oids r) ≢ 0
      → index ≢ ident (m.oids r)
  other-index none r v h l t = ground (arith, c.rids r l, c.in_cache r l t)
  other-index (some (old, e)) r v h l t = ground (arith, c.in_cache r l t)

  -- The word of a live record after the step: the owner's, the victim's, or as it was.
  abbrev NewWord : ℕ → Type 0
  NewWord r =
      ((oid ≡ r) × (tag (m'.oids r) ≢ 0) × (ident (m'.oids r) ≡ index))
      ⊎ ((Evicted evicted r × (tag (m'.oids r) ≡ 0) × (ident (m'.oids r) ≡ r))
          ⊎ ((oid ≢ r) × (m'.oids r ≡ m.oids r) × (tag (m.oids r) ≢ 0 → index ≢ ident (m.oids r))))

  pub own_word_lem :
      m'.oids oid ≡ locks (m.oids oid) * 2 ^ 56 + 255 * 2 ^ 48 + spare (m.oids oid) * 2 ^ 32 + index
  own_word_lem =
      p.own
      ∙ store_index_lem index (m.oids oid) (c.words oid alive).0 (omega (arith, p.below, c.small))

  pub own_fields : (tag (m'.oids oid) ≢ 0) × (ident (m'.oids oid) ≡ index)
  own_fields = omega (arith, own_word_lem, p.below, c.small, c.words oid alive)

  own_word : IsWord (m'.oids oid) × (spare (m'.oids oid) ≡ 0) × NewWord oid
  own_word = (
    omega (arith, own_word_lem, p.below, c.small, c.words oid alive),
    omega (arith, own_word_lem, p.below, c.small, c.words oid alive),
    inl (refl, own_fields.0, own_fields.1),
  )

  victim_word :
      (r : ℕ)
      → live r ≡ true
      → Evicted evicted r
      → IsWord (m'.oids r) × (spare (m'.oids r) ≡ 0) × NewWord r
  victim_word r l gone =
      let (_, free, now) = Victim-live evicted r p.victim gone in
      let (word, clear) = c.words r l in
      let stored =
        store_rid_lem r (m.oids r + lock_writer) (omega arith) (omega (arith, c.rids r l)) in
      (
        omega (arith, now, stored, c.rids r l),
        omega (arith, now, stored, c.rids r l),
        inr (
            inl (
              gone,
              omega (arith, now, stored, c.rids r l),
              omega (arith, now, stored, c.rids r l),
            )),
      )

  new_word : (r : ℕ) → live r ≡ true → IsWord (m'.oids r) × (spare (m'.oids r) ≡ 0) × NewWord r
  new_word r l = elim (ℕ_discrete oid r) [
    | yes own ↦ rw (← own) (own_word)
    | no apart ↦ elim (dec_Evicted evicted r) [
      | yes gone ↦ victim_word r l gone
      | no kept ↦
          let same = p.rest r apart kept in
          let (word, clear) = c.words r l in
          (
            rw same word,
            rw same clear,
            inr (inr (apart, same, other-index evicted r p.victim kept l)),
          )
    ]
  ]

  pub Victim-index :
      (ev : Option (ClockNode F × Rid)) (r : ℕ)
      → Victim m oid index ev m'
      → Evicted ev r
      → ident (m.oids r) ≡ index
  Victim-index none r v h = absurd h
  Victim-index (some (old, e)) r v h = ground (arith, c.held index p.below)

  Placed-at_home : (r : ℕ) → live r ≡ true → tag (m'.oids r) ≡ 0 → ident (m'.oids r) ≡ r
  Placed-at_home r l t = elim (new_word r l).2 [
    | inl (_, used, _) ↦ absurd (used t)
    | inr (inl (_, _, named)) ↦ named
    | inr (inr (_, same, _)) ↦ rw same (c.at_home r l (rw same at t))
  ]

  Placed-in_cache :
      (r : ℕ)
      → live r ≡ true
      → tag (m'.oids r) ≢ 0
      → (ident (m'.oids r) < m'.inner.capacity) × ((m'.inner.entries (ident (m'.oids r))).rid ≡ r)
  Placed-in_cache r l t = elim (new_word r l).2 [
    | inl (own, _, at) ↦ (omega (arith, p.below, p.capacity), rw (at, p.entry) (named ∙ own))
    | inr (inl (_, free, _)) ↦ absurd (t free)
    | inr (inr (_, same, apart)) ↦
        let before = c.in_cache r l (rw same at t) in
        (
          omega (arith, before.0, same, p.capacity),
          rw (same, p.rid (ident (m.oids r)) (apart (rw same at t))) before.1,
        )
  ]

  held_same :
      (i : ℕ)
      → i < m.inner.capacity
      → index ≢ i
      → (m.inner.entries i).rid ≢ sentinel
      → m'.oids (m.inner.entries i).rid ≡ m.oids (m.inner.entries i).rid
  held_same i lt ne used =
      let (l, t, at) = c.held i lt used in
      elim (new_word (m.inner.entries i).rid l).2 [
        | inl (own, _, _) ↦ absurd (t (rw (← own) home))
        | inr (inl (gone, _, _)) ↦ absurd (ne (sym (Victim-index evicted _ p.victim gone) ∙ at))
        | inr (inr (_, same, _)) ↦ same
      ]

  Placed-held :
      (i : ℕ)
      → i < m'.inner.capacity
      → (m'.inner.entries i).rid ≢ sentinel
      → (live (m'.inner.entries i).rid ≡ true)
        × (tag (m'.oids (m'.inner.entries i).rid) ≢ 0)
        × (ident (m'.oids (m'.inner.entries i).rid) ≡ i)
  Placed-held i lt used = elim (ℕ_discrete index i) [
    | yes here ↦ rw (← here, p.entry, named) (alive, own_fields.0, own_fields.1)
    | no ne ↦
        let before = rw (p.rid i ne) at used in
        rw (p.rid i ne, held_same i (rw p.capacity at lt) ne before)
          (c.held i (rw p.capacity at lt) before)
  ]

  pub Placed-Coherent : Coherent live m'
  Placed-Coherent = record {
    some_room = rw p.capacity c.some_room;
    small = rw p.capacity c.small;
    rids = c.rids;
    words = λ r l. ((new_word r l).0, (new_word r l).1);
    at_home = Placed-at_home;
    in_cache = Placed-in_cache;
    held = Placed-held;
  }
