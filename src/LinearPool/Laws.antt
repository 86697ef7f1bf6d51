-- ===== src/LinearPool/Laws.antt =====
-- The locks of the entries, and the search for a free entry.
use mathlib.Core.Option.{some-injective}
use mach_ipc.Base.{
  subst, ap, lt→ltb, ℕ, zero, suc, ◌+◌, ◌<◌, ◌≡◌, refl, ◌⊎◌, inl, inr, Bool, true, false, Option,
  none, some, List, [], ◌∷◌, length, get_or, set, get_or-set_self, ℤ, pos, negsuc, minus_one, ltb,
  arith, Bool-cases, ◌∙◌, sym,
}
use mach_ipc.LinearPool.{
  LinearPool, first_unused, in_range, is_active_at, set_at, linear_ts_pool_find_free,
  linear_ts_pool_is_active, linear_ts_pool_set, lock, check_again, take_lock, lock_at, trylock_at,
  linear_ts_pool_lock_entry, linear_ts_pool_trylock_entry,
}

set-false : (bs : List Bool) (i : ℕ) → get_or (set bs i false) i false ≡ false
set-false [] i = refl
set-false (b ∷ bs) zero = refl
set-false (b ∷ bs) (suc i) = set-false bs i

module _ {ℓ} {A : Type ℓ} where
  -- What a call that locks comes to: the index is bad or the entry is not active, and nothing has
  -- changed; or the lock is held by another thread, for a call that does not wait; or the entry was
  -- removed meanwhile, and its lock is free again; or the entry is active and its lock is held.
  pub data Locks (p q : LinearPool A) (index : ℤ) (waits : Bool) (result : Bool × LinearPool A)
      : Type ℓ where
    refused : result ≡ (false, p) → Locks p q index waits result
    busy :
        (i : ℕ)
        → index ≡ pos i
        → waits ≡ false
        → get_or q.locks i false ≡ true
        → result ≡ (false, q)
        → Locks p q index waits result
    removed :
        (i : ℕ)
        → index ≡ pos i
        → result.0 ≡ false
        → get_or result.1.used i false ≡ false
        → get_or result.1.locks i false ≡ false
        → Locks p q index waits result
    held :
        (i : ℕ)
        → index ≡ pos i
        → result.0 ≡ true
        → get_or result.1.used i false ≡ true
        → get_or result.1.locks i false ≡ true
        → Locks p q index waits result

  found : (p : LinearPool A) (j i : ℕ) → in_range p (pos j) ≡ some i → (i ≡ j) × (i < p.capacity)
  found p j i e = elim (Bool-cases (ltb j p.capacity)) [
    | inl good ↦
        let same = some-injective _ _ (rw good at e) in (sym same, ground (arith, good, same))
    | inr bad ↦ let never : ◌≡◌ {A = Option ℕ} none (some i) = rw bad at e in cc
  ]

  -- A call that waits for the lock: it still waits, since another thread holds the lock, or it has
  -- returned.
  abbrev pub Takes :
      (p q : LinearPool A) (index : ℤ) (result : Option (Bool × LinearPool A)) → Type ℓ
  Takes p q index result =
      ((i : ℕ) × (index ≡ pos i) × (get_or q.locks i false ≡ true) × (result ≡ none))
      ⊎ ((r : Bool × LinearPool A) × (result ≡ some r) × Locks p q index true r)

  module _ (waiting holding : LinearPool A → LinearPool A) (p : LinearPool A)
      (sized : length (waiting p).locks ≡ p.capacity)
      (kept : (i : ℕ)
        → get_or (lock (waiting p) i).locks i false ≡ true
        → get_or (holding (lock (waiting p) i)).locks i false ≡ true) where
    checked :
        (i : ℕ) (waits : Bool)
        → i < p.capacity
        → Locks p (waiting p) (pos i) waits (check_again (holding (lock (waiting p) i)) i)
    unfolding check_again
    checked i waits lt =
        let q = holding (lock (waiting p) i) in
        let owned =
          kept i (get_or-set_self (waiting p).locks i true false (omega (arith, sized, lt))) in
        elim (Bool-cases (get_or q.used i false)) [
          | inl active ↦ rw active (held i refl refl active owned)
          | inr gone ↦ rw gone (removed i refl refl gone (set-false q.locks i))
        ]

    lock_at-Locks :
        (index : ℤ) (o : Option ℕ)
        → in_range p index ≡ o
        → Takes p (waiting p) index (lock_at waiting holding p o)
    unfolding lock_at take_lock
    lock_at-Locks index none e = inr ((false, p), refl, refused refl)
    lock_at-Locks (negsuc n) (some i) e = cc
    lock_at-Locks (pos j) (some i) e =
        let (same, lt) = found p j i e in
        subst (λ (k : ℕ). Takes p (waiting p) (pos k) (lock_at waiting holding p (some i))) same
          (elim (Bool-cases (get_or p.used i false)) [
            | inr free ↦ rw free (inr ((false, p), refl, refused refl))
            | inl active ↦ rw active (elim (Bool-cases (get_or (waiting p).locks i false)) [
              | inl taken ↦ rw taken (inl (i, refl, taken, refl))
              | inr open_lock ↦
                  rw open_lock
                    (inr (check_again (holding (lock (waiting p) i)) i, refl, checked i true lt))
            ])
          ])

    trylock_at-Locks :
        (index : ℤ) (o : Option ℕ)
        → in_range p index ≡ o
        → Locks p (waiting p) index false (trylock_at waiting holding p o)
    unfolding trylock_at
    trylock_at-Locks index none e = refused refl
    trylock_at-Locks (negsuc n) (some i) e = cc
    trylock_at-Locks (pos j) (some i) e =
        let (same, lt) = found p j i e in
        subst (λ (k : ℕ). Locks p (waiting p) (pos k) false (trylock_at waiting holding p (some i)))
          same
          (elim (Bool-cases (get_or p.used i false)) [
            | inr free ↦ rw free (refused refl)
            | inl active ↦ rw active (elim (Bool-cases (get_or (waiting p).locks i false)) [
              | inl taken ↦ rw taken (busy i refl refl taken refl)
              | inr open_lock ↦ rw open_lock (checked i false lt)
            ])
          ])

    -- Locking an entry, for any index, while other threads change the pool, but keep its locks as many and
    -- do not release the lock that this thread has just taken: either the call still waits, for a lock
    -- that another thread holds; or nothing has changed, or the call reports failure and the lock of the
    -- entry is free again, or it reports success, the entry is active and its lock is held.
    -- `linear_ts_pool_trylock_entry` does the same, but that it fails, with nothing done, at a lock that
    -- is held, and never waits.
    pub linear_ts_pool_lock_entry_lem :
        (index : ℤ)
        → Takes p (waiting p) index (linear_ts_pool_lock_entry waiting holding p index)
          × Locks p (waiting p) index false (linear_ts_pool_trylock_entry waiting holding p index)
    unfolding linear_ts_pool_lock_entry linear_ts_pool_trylock_entry
    linear_ts_pool_lock_entry_lem index = (
      lock_at-Locks index (in_range p index) refl,
      trylock_at-Locks index (in_range p index) refl,
    )

first_unused_lem :
    (i : ℕ) (bs : List Bool)
    → ((first_unused i bs ≡ minus_one) × ((j : ℕ) → j < length bs → get_or bs j false ≡ true))
      ⊎ ((k : ℕ) × (first_unused i bs ≡ pos (i + k))
          × (k < length bs)
          × (get_or bs k false ≡ false)
          × ((j : ℕ) → j < k → get_or bs j false ≡ true))
unfolding first_unused
first_unused_lem i [] = inl (refl, λ j h. absurd (omega arith))
first_unused_lem i (false ∷ bs) =
    inr (0, ap pos (omega arith), omega arith, refl, λ j h. absurd (omega arith))
first_unused_lem i (true ∷ bs) = elim (first_unused_lem (suc i) bs) [
  | inl (e, all) ↦ inl (e, one_more (length bs) bs all)
  | inr (k, e, lt, free, before) ↦
      inr (suc k, e ∙ ap pos (omega arith), omega arith, free, one_more k bs before)
]
  where
    one_more :
        (n : ℕ) (bs : List Bool)
        → ((j : ℕ) → j < n → get_or bs j false ≡ true)
        → (j : ℕ) → j < suc n
        → get_or (true ∷ bs) j false ≡ true
    one_more n bs h zero lt = refl
    one_more n bs h (suc j) lt = h j (omega arith)

module _ {ℓ} {A : Type ℓ} where
  set_active :
      (p : LinearPool A) (k : ℕ) (value : Option A)
      → ltb k p.capacity ≡ true
      → k < length p.used
      → ((linear_ts_pool_set p (pos k) value).0 ≡ true)
        × (linear_ts_pool_is_active (linear_ts_pool_set p (pos k) value).1 (pos k) ≡ true)
  unfolding linear_ts_pool_is_active linear_ts_pool_set is_active_at set_at
  set_active p k none good lt =
      (rw good refl, rw good (rw good (get_or-set_self p.used k true false lt)))
  set_active p k (some v) good lt =
      (rw good refl, rw good (rw good (get_or-set_self p.used k true false lt)))

  -- On a pool whose flags have its capacity: `linear_ts_pool_find_free` returns -1 and every entry is
  -- active, or it returns the first entry that is not active, and setting that entry makes it active.
  pub linear_ts_pool_find_free_lem :
      (p : LinearPool A) (value : Option A)
      → length p.used ≡ p.capacity
      → ((linear_ts_pool_find_free p ≡ minus_one)
          × ((j : ℕ) → j < p.capacity → linear_ts_pool_is_active p (pos j) ≡ true))
        ⊎ ((k : ℕ) × (linear_ts_pool_find_free p ≡ pos k)
            × (k < p.capacity)
            × (linear_ts_pool_is_active p (pos k) ≡ false)
            × ((j : ℕ) → j < k → linear_ts_pool_is_active p (pos j) ≡ true)
            × ((linear_ts_pool_set p (pos k) value).0 ≡ true)
            × (linear_ts_pool_is_active (linear_ts_pool_set p (pos k) value).1 (pos k) ≡ true))
  unfolding linear_ts_pool_find_free linear_ts_pool_is_active linear_ts_pool_set is_active_at set_at
  linear_ts_pool_find_free_lem p value sized = elim (first_unused_lem 0 p.used) [
    | inl (e, all) ↦ inl (e, λ j lt. rw (lt→ltb j p.capacity lt) (all j (omega arith)))
    | inr (k, e, lt, free, before) ↦
        let inside : k < p.capacity = omega arith in
        let good = lt→ltb k p.capacity inside in
        inr (
          k,
          e ∙ ap pos (omega arith),
          inside,
          rw good free,
          λ j h. rw (lt→ltb j p.capacity (omega (arith, h, inside))) (before j h),
          (set_active p k value good lt).0,
          (set_active p k value good lt).1,
        )
  ]
