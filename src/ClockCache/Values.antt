-- ===== src/ClockCache/Values.antt =====
-- Reading and writing through a query value: `get_value` and `get_value_mut` of
-- src/attribute_cache/mod.rs.
use alchemy.Base.{
  ℕ, ◌≡◌, ◌≢◌, refl, Bool, true, none, some, put, put-self, put-other, inl, inr, get_elem?,
  Option-cases, sym, ap, ok, err, ◌⊎◌, ℕ_discrete, ◌∙◌, ==-refl, ==-ne,
}
use alchemy.Oid.Layout.{tag, ident}
use alchemy.Query.{Field, FieldsMeta}
use alchemy.Schema.{Schema, matches}
use alchemy.Schema.Laws.{SchemaLaws, matches-to_cached_field}
use alchemy.Clock.{set_entry}
use alchemy.Clock.Coherent.{Coherent}
use alchemy.ClockCache.{ClockCache, QueryValue, query_value, address, get_value, get_value_mut}
use alchemy.ClockCache.View.{view, view-home, view-used, view-same, Serves}

module _ {S : Schema} {proper : Field → Type 0} (laws : SchemaLaws S proper) {live : ℕ → Bool}
    (s : ClockCache S) (r : ℕ) (c : Coherent live s.mem) (alive : live r ≡ true)
    (query : FieldsMeta) (f : Field) (i : ℕ) (asked : get_elem? query i ≡ some f)
    (ok_f : proper f) where
  own_view :
      tag (s.mem.oids r) ≢ 0
      → view s r ≡ S.write_back (s.mem.inner.entries (ident (s.mem.oids r))).val (s.storage r)
  own_view used = view-used s r (c.words r alive).0 (c.words r alive).1 used

  address-tuple :
      (q : QueryValue)
      → q.tuple ≡ some r
      → (S.to_cached_field f ≡ none) ⊎ (q.field ≡ none)
      → address S q f ≡ some (err (r, f))
  unfolding address
  address-tuple q t (inl miss) = rw (miss, address) (rw (t, address) refl)
  address-tuple q t (inr home) = elim (Option-cases (S.to_cached_field f)) [
    | inl miss ↦ rw (miss, address) (rw (t, address) refl)
    | inr (g, hit) ↦ rw (hit, address) (rw (home, address) (rw (t, address) refl))
  ]

  address-entry :
      (q : QueryValue) (k : ℕ) (g : Field)
      → q.field ≡ some k
      → S.to_cached_field f ≡ some g
      → address S q f ≡ some (ok (k, g))
  unfolding address
  address-entry q k g e hit = rw (hit, address) (rw (e, address) refl)

  -- The three places that a query value may lead to.
  abbrev Place : QueryValue → Type 0
  Place q =
      ((tag (s.mem.oids r) ≡ 0) × (address S q f ≡ some (err (r, f))))
      ⊎ (((tag (s.mem.oids r) ≢ 0)
            × (S.to_cached_field f ≡ none)
            × (address S q f ≡ some (err (r, f))))
          ⊎ ((tag (s.mem.oids r) ≢ 0)
              × ((g : Field) × (S.to_cached_field f ≡ some g)
                  × (address S q f ≡ some (ok (ident (s.mem.oids r), g))))))

  Serves-Place : (q : QueryValue) → Serves s r query q → Place q
  Serves-Place q (inl (home, e)) = inl (home, address-tuple q (rw e refl) (inr (rw e refl)))
  Serves-Place q (inr (used, way)) = elim (Option-cases (S.to_cached_field f)) [
    | inr (g, hit) ↦ inr (inr (used, (g, hit, address-entry q _ g (field_of way) hit)))
    | inl miss ↦ inr (inl (used, miss, address-tuple q (tuple_of way miss) (inl miss)))
  ]
    where
      field_of :
          ((matches S query ≡ true) × (q ≡ query_value (some (ident (s.mem.oids r))) none))
            ⊎ (q ≡ query_value (some (ident (s.mem.oids r))) (some r))
          → q.field ≡ some (ident (s.mem.oids r))
      field_of (inl (_, e)) = rw e refl
      field_of (inr e) = rw e refl

      tuple_of :
          ((matches S query ≡ true) × (q ≡ query_value (some (ident (s.mem.oids r))) none))
            ⊎ (q ≡ query_value (some (ident (s.mem.oids r))) (some r))
          → S.to_cached_field f ≡ none
          → q.tuple ≡ some r
      tuple_of (inl (all, _)) miss = absurd (matches-to_cached_field S query i f all asked miss)
      tuple_of (inr e) miss = rw e refl

  pub get_value-Serves :
      (q : QueryValue) → Serves s r query q → get_value s q f ≡ some (S.load_tuple (view s r) f)
  unfolding get_value
  get_value-Serves q v = elim (Serves-Place q v) [
    | inl (home, at) ↦ rw (at, get_value) (rw (view-home s r home) refl)
    | inr (inl (used, miss, at)) ↦
        rw (at, get_value) (rw (own_view used) (ap some (laws.load_miss _ _ f ok_f miss)))
    | inr (inr (used, (g, hit, at))) ↦
        rw (at, get_value) (rw (own_view used) (ap some (laws.load_hit _ _ f g ok_f hit)))
  ]

  -- A write through the query value: it changes the view of this record, at that field, and nothing
  -- else.
  abbrev pub Written : QueryValue → S.Value → Type 0
  Written q v =
      (s' : ClockCache S) × (get_value_mut s q f v ≡ some s')
      × (view s' r ≡ S.store_tuple (view s r) f v)
      × ((x : ℕ) → live x ≡ true → r ≢ x → view s' x ≡ view s x)
      × Coherent live s'.mem

  module _ (v : S.Value) where
    abbrev in_tuple : ClockCache S
    in_tuple = record s { storage = put s.storage r (S.store_tuple (s.storage r) f v) }

    in_tuple_own : in_tuple.storage r ≡ S.store_tuple (s.storage r) f v
    in_tuple_own = put-self (λ t. t ≡ S.store_tuple (s.storage r) f v) s.storage r refl

    in_tuple_rest : (x : ℕ) → live x ≡ true → r ≢ x → view in_tuple x ≡ view s x
    in_tuple_rest x l ne =
        view-same s in_tuple x (c.words x l).0 (c.words x l).1 (c.words x l).0 refl
          (put-other (λ t. t ≡ s.storage x) s.storage r x _ ne refl) (λ _. refl)

    abbrev in_entry : Field → ClockCache S
    in_entry g =
        let k = ident (s.mem.oids r) in
        let entry = s.mem.inner.entries k in
        let entry' = record entry { val = S.store_cached entry.val g v } in
        record s { mem = record s.mem { inner = set_entry s.mem.inner k entry' } }

    in_entry_val :
        (g : Field)
        → ((in_entry g).mem.inner.entries (ident (s.mem.oids r))).val
          ≡ S.store_cached (s.mem.inner.entries (ident (s.mem.oids r))).val g v
    in_entry_val g = rw (==-refl (ident (s.mem.oids r))) refl

    in_entry_other :
        (g : Field) (k : ℕ)
        → ident (s.mem.oids r) ≢ k
        → ((in_entry g).mem.inner.entries k).val ≡ (s.mem.inner.entries k).val
    in_entry_other g k ne = rw (==-ne (ident (s.mem.oids r)) k ne) refl

    in_entry_rid :
        (g : Field) (k : ℕ) → ((in_entry g).mem.inner.entries k).rid ≡ (s.mem.inner.entries k).rid
    in_entry_rid g k = elim (ℕ_discrete (ident (s.mem.oids r)) k) [
      | yes here ↦ rw (← here) (rw (==-refl (ident (s.mem.oids r))) refl)
      | no apart ↦ rw (==-ne (ident (s.mem.oids r)) k apart) refl
    ]

    in_entry_rest :
        (g : Field) (x : ℕ)
        → tag (s.mem.oids r) ≢ 0
        → live x ≡ true
        → r ≢ x
        → view (in_entry g) x ≡ view s x
    in_entry_rest g x used l ne =
        view-same s (in_entry g) x (c.words x l).0 (c.words x l).1 (c.words x l).0 refl refl (λ t.
          in_entry_other g _
            (λ e. ne (sym (c.in_cache r alive used).1 ∙ (rw e (c.in_cache x l t).1))))

    in_entry-Coherent : (g : Field) → Coherent live (in_entry g).mem
    in_entry-Coherent g = record {
      some_room = c.some_room;
      small = c.small;
      rids = c.rids;
      words = c.words;
      at_home = c.at_home;
      in_cache = λ x l t. rw (in_entry_rid g (ident (s.mem.oids x))) (c.in_cache x l t);
      held = λ k lt u. rw (in_entry_rid g k) (c.held k lt (rw (in_entry_rid g k) at u));
    }

  pub get_value_mut-Serves : (q : QueryValue) (v : S.Value) → Serves s r query q → Written q v
  unfolding get_value_mut
  get_value_mut-Serves q v sv = elim (Serves-Place q sv) [
    | inl (home, at) ↦ (
      in_tuple v,
      rw (at, get_value_mut) refl,
      view-home (in_tuple v) r home ∙ in_tuple_own v ∙ rw (view-home s r home) refl,
      in_tuple_rest v,
      c,
    )
    | inr (inl (used, miss, at)) ↦ (
      in_tuple v,
      rw (at, get_value_mut) refl,
      view-used (in_tuple v) r (c.words r alive).0 (c.words r alive).1 used
          ∙ rw (in_tuple_own v, own_view used) (laws.store_miss _ _ f v ok_f miss),
      in_tuple_rest v,
      c,
    )
    | inr (inr (used, (g, hit, at))) ↦ (
      in_entry v g,
      rw (at, get_value_mut) refl,
      view-used (in_entry v g) r (c.words r alive).0 (c.words r alive).1 used
          ∙ rw (in_entry_val v g, own_view used) (laws.store_hit _ _ f g v ok_f hit),
      (λ x. in_entry_rest v g x used),
      in_entry-Coherent v g,
    )
  ]
