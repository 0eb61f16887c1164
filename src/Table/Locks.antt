-- ===== src/Table/Locks.antt =====
-- What an error of `read_oid` and `write_oid` (src/table.rs) says, and that it changes nothing.
use mathlib.Core.Path.{fun_ext}
use alchemy.Base.{
  ℕ, ◌≡◌, ◌≢◌, refl, Bool, true, false, Option, none, some, Option-cases, Result, ok, err, ◌⊎◌, inl,
  inr, ap, sym, ◌∙◌, put, if_true, if_false, ==_iff, ==-ne, ℕ_discrete, ◌==◌, arith,
}
use alchemy.Rid.{Rid, TransactionError, read_lock_busy, write_lock_busy, index_not_found, lock_busy}
use alchemy.Oid.{write_locked, has_lock, try_read, try_write}
use alchemy.Schema.{Schema}
use alchemy.ClockCache.{read_lock, write_lock, set_word}
use alchemy.Table.{DbIndex, DbTable, guard_of, read_oid, write_oid}

-- A weak exchange of a word that was loaded as `val` fails: the word is another one by now, or for no reason.
abbrev pub Fails : (val cur : ℕ) (spurious : Bool) → Type 0
Fails val cur spurious = (cur ≢ val) ⊎ (spurious ≡ true)

try_read-err :
    (val cur : ℕ) (spurious : Bool) (e : TransactionError)
    → (try_read val cur spurious).0 ≡ err e
    → ((try_read val cur spurious).1 ≡ cur)
      × (((e ≡ read_lock_busy) × (write_locked val ≡ true))
          ⊎ ((e ≡ lock_busy) × (write_locked val ≡ false) × Fails val cur spurious))
unfolding try_read
try_read-err val cur spurious e h = ground arith

try_write-err :
    (val cur : ℕ) (spurious : Bool) (e : TransactionError)
    → (try_write val cur spurious).0 ≡ err e
    → ((try_write val cur spurious).1 ≡ cur)
      × (((e ≡ write_lock_busy) × (has_lock val ≡ true))
          ⊎ ((e ≡ lock_busy) × (has_lock val ≡ false) × Fails val cur spurious))
unfolding try_write
try_write-err val cur spurious e h = ground arith

put-same : {A : Type 0} (f : ℕ → A) (i : ℕ) (a : A) → a ≡ f i → put f i a ≡ f
put-same f i a e = fun_ext (λ j. elim (ℕ_discrete i j) [
  | yes p ↦ if_true {b = i == j} _ _ ((==_iff i j).1 p) ∙ e ∙ ap f p
  | no ne ↦ if_false {b = i == j} _ _ (==-ne i j ne)
])

-- The causes of an error: no record has the key, or its word is locked, as `busy` says of the word that
-- was loaded, or it is not and the exchange of the word failed.
abbrev pub Causes :
    (get : Option Rid) (oids : Rid → ℕ) (val : ℕ) (spurious busy : Bool)
    (locked error : TransactionError)
    → Type 0
Causes get oids val spurious busy locked error =
    ((error ≡ index_not_found) × (get ≡ none))
    ⊎ ((rid : Rid) × (get ≡ some rid)
        × (((error ≡ locked) × (busy ≡ true))
            ⊎ ((error ≡ lock_busy) × (busy ≡ false) × Fails val (oids rid) spurious)))

guard_of-err :
    (r : Result (Unit {0}) TransactionError) (rid : Rid) (e : TransactionError)
    → guard_of r rid ≡ err e
    → r ≡ err e
guard_of-err (ok _) rid e h = cc
guard_of-err (err x) rid e h = cc

module _ {I : DbIndex} {S : Schema} where
  abbrev with_word : DbTable I S → Rid → ℕ → DbTable I S
  with_word t rid word = record t { cache = set_word t.cache rid word }

  with_word-same :
      (t : DbTable I S) (rid : Rid) (word : ℕ)
      → word ≡ t.cache.mem.oids rid
      → with_word t rid word ≡ t
  with_word-same t rid word e =
      ap (λ oids. record t { cache = record t.cache { mem = record t.cache.mem { oids = oids } } })
        (put-same t.cache.mem.oids rid word e)

  -- An error of `read_oid` leaves the table as it was, and says why: no record has the key, or its
  -- word was loaded with the writer bit set, or it was loaded without and the exchange failed: the
  -- word is no longer the one that was loaded, or the weak exchange failed for no reason.
  pub read_oid-err :
      (key val : ℕ) (spurious : Bool) (t t' : DbTable I S) (e : TransactionError)
      → read_oid key val spurious t ≡ (err e, t')
      → (t' ≡ t)
        × Causes
            (I.get t.index key)
            t.cache.mem.oids
            val
            spurious
            (write_locked val)
            read_lock_busy
            e
  unfolding read_oid read_lock
  read_oid-err key val spurious t t' e h = elim (Option-cases (I.get t.index key)) [
    | inl missing ↦
        let both : Path (Result Rid TransactionError × DbTable I S) (err index_not_found, t)
            (err e, t') =
          sym (rw (missing, read_oid) refl) ∙ h in
        (ap (λ x. x.1) (sym both), inl (cc (ap (λ x. x.0) both), missing))
    | inr (rid, there) ↦
        let tried = try_read val (t.cache.mem.oids rid) spurious in
        let both : Path (Result Rid TransactionError × DbTable I S)
            (guard_of tried.0 rid, with_word t rid tried.1) (err e, t') =
          sym (rw (there, read_oid) refl) ∙ h in
        let (same, why) =
          try_read-err val (t.cache.mem.oids rid) spurious e
            (guard_of-err tried.0 rid e (ap (λ x. x.0) both)) in
        (ap (λ x. x.1) (sym both) ∙ with_word-same t rid tried.1 same, inr (rid, there, why))
  ]

  -- An error of `write_oid` leaves the table as it was, and says why: no record has the key, or its
  -- word was loaded with a lock held, or it was loaded without and the exchange failed: the word is
  -- no longer the one that was loaded, or the weak exchange failed for no reason.
  pub write_oid-err :
      (key val : ℕ) (spurious : Bool) (t t' : DbTable I S) (e : TransactionError)
      → write_oid key val spurious t ≡ (err e, t')
      → (t' ≡ t)
        × Causes (I.get t.index key) t.cache.mem.oids val spurious (has_lock val) write_lock_busy e
  unfolding write_oid write_lock
  write_oid-err key val spurious t t' e h = elim (Option-cases (I.get t.index key)) [
    | inl missing ↦
        let both : Path (Result Rid TransactionError × DbTable I S) (err index_not_found, t)
            (err e, t') =
          sym (rw (missing, write_oid) refl) ∙ h in
        (ap (λ x. x.1) (sym both), inl (cc (ap (λ x. x.0) both), missing))
    | inr (rid, there) ↦
        let tried = try_write val (t.cache.mem.oids rid) spurious in
        let both : Path (Result Rid TransactionError × DbTable I S)
            (guard_of tried.0 rid, with_word t rid tried.1) (err e, t') =
          sym (rw (there, write_oid) refl) ∙ h in
        let (same, why) =
          try_write-err val (t.cache.mem.oids rid) spurious e
            (guard_of-err tried.0 rid e (ap (λ x. x.0) both)) in
        (ap (λ x. x.1) (sym both) ∙ with_word-same t rid tried.1 same, inr (rid, there, why))
  ]
