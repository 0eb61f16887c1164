-- ===== src/Mmap/Laws.antt =====
-- What the mapping of a pool (src/utils/mmap.rs) returns, and when it fails.
use alchemy.Base.{
  ℕ, ◌≡◌, ◌≢◌, refl, Option, none, some, Bool-cases, Result, ok, err, ◌⊎◌, inl, inr, ◌==◌, if_true,
  if_false, ap, sym, ◌∙◌, ==_iff,
}
use alchemy.Rid.{SystemError}
use alchemy.Mmap.{
  Call, Os, MemoryMapper, new_mapper, set_addr, set_flags, huge_page, nvm_file, disk_file,
  with_addr, with_file, map_nvm_builder, map_dram_builder, call_of, check_addr, check, map, or_else,
  map_disk, map_file, with_created, create_and_allocate_file, create_and_map_pool,
}

abbrev or_first : {A : Type 0} → A → Option A → A
or_first a none = a
or_first a (some b) = b

module _ (os : Os) where
  -- `p` is what the system returned for a mapping of `size` bytes, it is no failure, and it is the
  -- address that was asked for, if one was.
  abbrev pub IsMapped : ℕ → Option ℕ → ℕ → os.State → Type 0
  IsMapped size addr p s' =
      (p ≢ os.map_failed)
      × ((a : ℕ) → addr ≡ some a → p ≡ a)
      × ((call : Call) × (before : os.State) × (call.len ≡ size) × (os.mmap call before ≡ (p, s')))

  check_addr-ok :
      (addr : Option ℕ) (mapped p : ℕ)
      → check_addr os addr mapped ≡ ok p
      → (mapped ≡ p) × ((a : ℕ) → addr ≡ some a → p ≡ a)
  check_addr-ok none mapped p e = (cc, λ a h. cc)
  check_addr-ok (some a) mapped p e = elim (Bool-cases (mapped == a)) [
    | inl same ↦ (
      cc (if_true {b = mapped == a} _ _ same),
      λ b h. cc (if_true {b = mapped == a} _ _ same, (==_iff mapped a).0 same),
    )
    | inr other ↦ cc (if_false {b = mapped == a} _ _ other)
  ]

  check-ok :
      (m : MemoryMapper) (mapped p : ℕ)
      → check os m mapped ≡ ok p
      → (mapped ≡ p) × (p ≢ os.map_failed) × ((a : ℕ) → m.addr ≡ some a → p ≡ a)
  check-ok m mapped p e = elim (Bool-cases (mapped == os.map_failed)) [
    | inl failed ↦ cc (if_true {b = mapped == os.map_failed} _ _ failed)
    | inr not_failed ↦
        let (same, asked) = check_addr-ok m.addr mapped p (sym (if_false _ _ not_failed) ∙ e) in
        (same, λ h. cc (not_failed, (==_iff mapped os.map_failed).1 (same ∙ h)), asked)
  ]

  map-ok :
      (size : ℕ) (addr : Option ℕ) (m : MemoryMapper) (s s' : os.State) (p : ℕ)
      → m.heap_size ≡ size
      → m.addr ≡ addr
      → map os m s ≡ (ok p, s')
      → IsMapped size addr p s'
  unfolding map
  map-ok size addr m s s' p len same e =
      let answer = os.mmap (call_of os m) s in
      let (mapped, not_failed, asked) = check-ok m answer.0 p (ap (λ x. x.0) e) in
      (
        not_failed,
        λ a h. asked a (same ∙ h),
        (call_of os m, s, len, ap (λ x. (x, answer.1)) mapped ∙ ap (λ x. (p, x.1)) e),
      )

  nvm_lem :
      (size : ℕ) (addr : Option ℕ) (fd : ℕ)
      → let m = map_nvm_builder os size addr fd in (m.heap_size ≡ size) × (m.addr ≡ addr)
  unfolding map_nvm_builder with_addr nvm_file new_mapper set_addr
  nvm_lem size none fd = (refl, refl)
  nvm_lem size (some a) fd = (refl, refl)

  dram_lem :
      (size : ℕ) (addr fd : Option ℕ)
      → let m = map_dram_builder os size addr fd in (m.heap_size ≡ size) × (m.addr ≡ addr)
  unfolding map_dram_builder with_addr with_file disk_file new_mapper set_addr set_flags
  dram_lem size none none = (refl, refl)
  dram_lem size none (some fd) = (refl, refl)
  dram_lem size (some a) none = (refl, refl)
  dram_lem size (some a) (some fd) = (refl, refl)

  huge_lem :
      (size : ℕ) (addr fd : Option ℕ)
      → let m = huge_page os (map_dram_builder os size addr fd) in
        (m.heap_size ≡ size) × (m.addr ≡ addr)
  unfolding huge_page
  huge_lem size addr fd = dram_lem size addr fd

  or_else-ok :
      (r : Result ℕ SystemError × os.State) (next : os.State → Result ℕ SystemError × os.State)
      (s' : os.State) (p : ℕ)
      → or_else os r next ≡ (ok p, s')
      → (r ≡ (ok p, s')) ⊎ ((t : os.State) × (next t ≡ (ok p, s')))
  or_else-ok (ok q, t) next s' p e = inl e
  or_else-ok (err x, t) next s' p e = inr (t, e)

  or_else-err :
      (r : Result ℕ SystemError × os.State) (next : os.State → Result ℕ SystemError × os.State)
      (s' : os.State) (e : SystemError)
      → or_else os r next ≡ (err e, s')
      → (x : SystemError) × (t : os.State) × (r ≡ (err x, t)) × (next t ≡ (err e, s'))
  or_else-err (ok q, t) next s' e h = cc (ap (λ x. x.0) h)
  or_else-err (err x, t) next s' e h = (x, t, refl, h)

  map_disk-ok :
      (size : ℕ) (addr : Option ℕ) (fd : ℕ) (s s' : os.State) (p : ℕ)
      → map_disk os size addr fd s ≡ (ok p, s')
      → IsMapped size addr p s'
  unfolding map_disk
  map_disk-ok size addr fd s s' p e =
      let builder = map_dram_builder os size addr (some fd) in
      elim (or_else-ok (map os (huge_page os builder) s) (map os builder) s' p e) [
        | inl huge ↦
            let (len, same) = huge_lem size addr (some fd) in
            map-ok size addr (huge_page os builder) s s' p len same huge
        | inr (t, small) ↦
            let (len, same) = dram_lem size addr (some fd) in
            map-ok size addr builder t s' p len same small
      ]

  map_file-ok :
      (size : ℕ) (addr : Option ℕ) (fd : ℕ) (s s' : os.State) (p : ℕ)
      → map_file os size addr fd s ≡ (ok p, s')
      → IsMapped size addr p s'
  unfolding map_file
  map_file-ok size addr fd s s' p e =
      let builder = map_nvm_builder os size addr fd in
      elim (or_else-ok (map os builder s) (map_disk os size addr fd) s' p e) [
        | inl first ↦
            let (len, same) = nvm_lem size addr fd in map-ok size addr builder s s' p len same first
        | inr (t, rest) ↦ map_disk-ok size addr fd t s' p rest
      ]

  some_pair :
      {r : Result ℕ SystemError} {t s' : os.State} {x : Result ℕ SystemError}
      → Path (Option (Result ℕ SystemError) × os.State) (some r, t) (some x, s')
      → Path (Result ℕ SystemError × os.State) (r, t) (x, s')
  some_pair {r} e = ap (λ o. (or_first r o.0, o.1)) e

  created-ok :
      (size : ℕ) (addr : Option ℕ) (c : Option (Result ℕ SystemError) × os.State) (s' : os.State)
      (p : ℕ)
      → with_created os size addr c ≡ (some (ok p), s')
      → IsMapped size addr p s'
  created-ok size addr (none, t) s' p e = cc (ap (λ x. x.0) e)
  created-ok size addr (some (err x), t) s' p e = cc (ap (λ x. x.0) e)
  created-ok size addr (some (ok fd), t) s' p e = map_file-ok size addr fd t s' p (some_pair e)

  -- When a pool is created and mapped, the address returned is not the mark of a failed mapping, it
  -- is the address that was asked for if one was, and it is what the system answered, last of
  -- all, to a request for `size` bytes.
  pub create_and_map_pool-ok :
      (path size : ℕ) (addr : Option ℕ) (s s' : os.State) (p : ℕ)
      → create_and_map_pool os path size addr s ≡ (some (ok p), s')
      → IsMapped size addr p s'
  unfolding create_and_map_pool
  create_and_map_pool-ok path size addr s s' p e =
      created-ok size addr (create_and_allocate_file os path size s) s' p e

  -- The three attempts at a mapping of a file, one after another, each of which fails.
  abbrev pub AllFail : ℕ → Option ℕ → ℕ → os.State → SystemError → os.State → Type 0
  AllFail size addr fd s e s' =
      let builder = map_dram_builder os size addr (some fd) in
      (x : SystemError) × (y : SystemError) × (t : os.State) × (u : os.State) × (map os
          (map_nvm_builder os size addr fd) s
        ≡ (err x, t))
      × (map os (huge_page os builder) t ≡ (err y, u))
      × (map os builder u ≡ (err e, s'))

  map_file-err :
      (size : ℕ) (addr : Option ℕ) (fd : ℕ) (s s' : os.State) (e : SystemError)
      → map_file os size addr fd s ≡ (err e, s')
      → AllFail size addr fd s e s'
  unfolding map_file map_disk
  map_file-err size addr fd s s' e h =
      let builder = map_dram_builder os size addr (some fd) in
      let (x, t, first, rest) =
        or_else-err (map os (map_nvm_builder os size addr fd) s) (map_disk os size addr fd) s' e
          h in
      let (y, u, second, third) =
        or_else-err (map os (huge_page os builder) t) (map os builder) s' e rest in
      (x, y, t, u, first, second, third)

  created-err :
      (size : ℕ) (addr : Option ℕ) (c : Option (Result ℕ SystemError) × os.State) (s' : os.State)
      (e : SystemError)
      → with_created os size addr c ≡ (some (err e), s')
      → (c ≡ (some (err e), s'))
        ⊎ ((fd : ℕ) × (t : os.State) × (c ≡ (some (ok fd), t)) × AllFail size addr fd t e s')
  created-err size addr (none, t) s' e h = cc (ap (λ x. x.0) h)
  created-err size addr (some (err x), t) s' e h = inl h
  created-err size addr (some (ok fd), t) s' e h =
      inr (fd, t, refl, map_file-err size addr fd t s' e (some_pair h))

  -- An error of `create_and_map_pool` has one of two causes: the file was not created, and the error
  -- is that one, or the file was created and the attempts to map it as a file on persistent memory,
  -- on huge pages and on small pages all fail, in this order; then the error is the last one's.
  pub create_and_map_pool-err :
      (path size : ℕ) (addr : Option ℕ) (s s' : os.State) (e : SystemError)
      → create_and_map_pool os path size addr s ≡ (some (err e), s')
      → (create_and_allocate_file os path size s ≡ (some (err e), s'))
        ⊎ ((fd : ℕ) × (t : os.State) × (create_and_allocate_file os path size s ≡ (some (ok fd), t))
            × AllFail size addr fd t e s')
  unfolding create_and_map_pool
  create_and_map_pool-err path size addr s s' e h =
      created-err size addr (create_and_allocate_file os path size s) s' e h
