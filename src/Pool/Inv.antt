-- ===== src/Pool/Inv.antt =====
-- The invariant of a pool with a given free list, and that every operation keeps it.
use mach_ipc.Base.{
  ℕ, ◌<◌, ◌≡◌, refl, true, false, not, Option, none, some, List, [], ◌∷◌, get_or, length,
  get_or-default, get_or-set_self, get_or-set_ne, get_elem?-eq-get_or, length-set, store-eq-some,
  ==_refl, ◌∙◌, set, ℤ, pos, minus_one, contains, arith,
}
use mach_ipc.Pool.{Pool, pool_push}

-- The free list read off `next` from its head: the indices `free`, then -1.
abbrev pub Chain : List ℤ → ℤ → List ℕ → Type 0
Chain next head [] = head ≡ minus_one
Chain next head (i ∷ free) = (head ≡ pos i) × Chain next (get_or next i minus_one) free

abbrev pub Distinct : List ℕ → Type 0
Distinct [] = Unit
Distinct (i ∷ free) = (contains free i ≡ false) × Distinct free

pub record Inv {ℓ} {A : Type ℓ} (p : Pool A) (free : List ℕ) : Type 0 where
  pub slots_size : length p.slots ≡ p.capacity
  pub next_size : length p.next ≡ p.capacity
  pub used_size : length p.used ≡ p.capacity
  pub chain : Chain p.next p.free_head free
  pub distinct : Distinct free
  -- In bounds, the slots not in use are those of the free list.
  pub unused : (i : ℕ) → get_or p.used i true ≡ not (contains free i)

Chain-set :
    (next : List ℤ) (head : ℤ) (free : List ℕ) (i : ℕ) (v : ℤ)
    → contains free i ≡ false
    → Chain next head free
    → Chain (set next i v) head free
Chain-set next head [] i v h c = c
Chain-set next head (j ∷ free) i v h c =
    ground
      (arith, get_or-set_ne next i j v minus_one, Chain-set next (get_or next j minus_one) free i v)

module _ {ℓ} {A : Type ℓ} where
  abbrev pub write_slot : List A → ℕ → Option A → List A
  write_slot slots i none = slots
  write_slot slots i (some v) = set slots i v

  length-write_slot :
      (slots : List A) (i : ℕ) (value : Option A) → length (write_slot slots i value) ≡ length slots
  length-write_slot slots i none = refl
  length-write_slot slots i (some v) = length-set slots i v

  -- The pool after `pool_push` has taken slot `i`.
  abbrev pub taken : Pool A → Option A → ℕ → Pool A
  taken p value i = record p {
    free_head = get_or p.next i minus_one;
    slots = write_slot p.slots i value;
    used = set p.used i true;
  }

  -- The pool after `pool_pop` has freed slot `i`.
  abbrev pub freed : Pool A → ℕ → Pool A
  freed p i = record p {
    used = set p.used i false;
    next = set p.next i p.free_head;
    free_head = pos i;
  }

  module _ {p : Pool A} where
    pub free-lt : (i : ℕ) {free : List ℕ} → Inv p free → contains free i ≡ true → i < p.capacity
    free-lt i v h = ground (arith, v.unused i, get_or-default p.used i true)

    pub head-lt : (i : ℕ) {free : List ℕ} → Inv p (i ∷ free) → i < p.capacity
    head-lt i v = free-lt i v (ground (arith, ==_refl i))

    slots_lt : (i : ℕ) {free : List ℕ} → Inv p (i ∷ free) → i < length p.slots
    slots_lt i v = omega (arith, head-lt i v)

    next_lt : (i : ℕ) {free : List ℕ} → Inv p (i ∷ free) → i < length p.next
    next_lt i v = omega (arith, head-lt i v)

    used_lt : (i : ℕ) {free : List ℕ} → Inv p (i ∷ free) → i < length p.used
    used_lt i v = omega (arith, head-lt i v)

    pub push_full : (value : Option A) → Inv p [] → pool_push p value ≡ some (minus_one, p)
    unfolding pool_push
    push_full value v = ground arith

    pub push_taken :
        (value : Option A) (i : ℕ) {free : List ℕ}
        → Inv p (i ∷ free)
        → pool_push p value ≡ some (pos i, taken p value i)
    unfolding pool_push
    push_taken none i v = rw (
      v.chain.0,
      get_elem?-eq-get_or p.next i minus_one (next_lt i v),
      store-eq-some p.used i true (used_lt i v),
    )
    push_taken (some a) i v = rw (
      v.chain.0,
      get_elem?-eq-get_or p.next i minus_one (next_lt i v),
      store-eq-some p.slots i a (slots_lt i v),
      store-eq-some p.used i true (used_lt i v),
    )

    pub taken-Inv :
        (value : Option A) (i : ℕ) {free : List ℕ} → Inv p (i ∷ free) → Inv (taken p value i) free
    taken-Inv value i v = record {
      slots_size = length-write_slot p.slots i value ∙ v.slots_size;
      next_size = v.next_size;
      used_size = length-set p.used i true ∙ v.used_size;
      chain = v.chain.1;
      distinct = v.distinct.1;
      unused = λ j. ground (
        arith,
        v.unused j,
        head-lt i v,
        get_or-set_self p.used i true true,
        get_or-set_ne p.used i j true true,
      );
    }

    pub freed-Inv :
        (i : ℕ) {free : List ℕ}
        → i < p.capacity
        → contains free i ≡ false
        → Inv p free
        → Inv (freed p i) (i ∷ free)
    freed-Inv i h c v = record {
      slots_size = v.slots_size;
      next_size = length-set p.next i p.free_head ∙ v.next_size;
      used_size = length-set p.used i false ∙ v.used_size;
      chain = (
        refl,
        rw (get_or-set_self p.next i p.free_head minus_one (omega (arith, v.next_size)))
            (Chain-set p.next p.free_head _ i p.free_head c v.chain),
      );
      distinct = (c, v.distinct);
      unused = λ j. ground (
        arith,
        v.unused j,
        get_or-set_self p.used i false true,
        get_or-set_ne p.used i j false true,
      );
    }
