-- ===== src/Pool/Init.antt =====
-- `pool_init` links all slots into the free list, lowest first.
use mach_ipc.Base.{
  ℕ, zero, suc, ◌+◌, ◌<◌, ◌≤◌, ◌≡◌, refl, ◌∙◌, true, false, not, ◌&&◌, some, List, [], ◌∷◌, length,
  get_or, get_or-default, get_or-replicate, get_or-set_self, get_or-set_ne, length-set,
  length-replicate, set, ℤ, pos, minus_one, contains, ltb, leb, arith, replicate,
}
use native.Mathlib.Decide.{dec_lt}
use mach_ipc.Pool.{Pool, pool_init, link}
use mach_ipc.Pool.Inv.{Inv, Chain, Distinct}

-- `n` numbers from `a` on.
abbrev pub count_up : ℕ → ℕ → List ℕ
count_up a zero = []
count_up a (suc n) = a ∷ count_up (suc a) n

pub contains-count_up : (a n i : ℕ) → contains (count_up a n) i ≡ (leb a i && ltb i (a + n))
contains-count_up a zero i = ground arith
contains-count_up a (suc n) i = ground (arith, contains-count_up (suc a) n i)

Distinct-count_up : (a n : ℕ) → Distinct (count_up a n)
Distinct-count_up a zero = tt
Distinct-count_up a (suc n) =
    (ground (arith, contains-count_up (suc a) n a), Distinct-count_up (suc a) n)

length-link : (left i : ℕ) (next : List ℤ) → length (link left i next) ≡ length next
unfolding link
length-link zero i next = refl
length-link (suc left) i next =
    omega
      (arith, length-link left (i + 1) (set next i (pos (i + 1))), length-set next i (pos (i + 1)))

link_below :
    (left i : ℕ) (next : List ℤ) (j : ℕ)
    → j < i
    → get_or (link left i next) j minus_one ≡ get_or next j minus_one
unfolding link
link_below zero i next j h = refl
link_below (suc left) i next j h = ground (
  arith,
  link_below left (i + 1) (set next i (pos (i + 1))) j,
  get_or-set_ne next i j (pos (i + 1)) minus_one,
)

link_linked :
    (left i : ℕ) (next : List ℤ) (j : ℕ)
    → i + left ≤ length next
    → i ≤ j
    → j < i + left
    → get_or (link left i next) j minus_one ≡ pos (suc j)
unfolding link
link_linked zero i next j fits lo hi = absurd (omega arith)
link_linked (suc left) i next j fits lo hi = elim (dec_lt i j) [
  | yes above ↦
      link_linked left (i + 1) (set next i (pos (i + 1))) j
        (omega (arith, length-set next i (pos (i + 1)))) (omega arith) (omega arith)
  | no here ↦ ground (
    arith,
    link_below left (i + 1) (set next i (pos (i + 1))) j,
    get_or-set_self next i (pos (i + 1)) minus_one,
  )
]

Chain-count_up :
    (n a : ℕ) (next : List ℤ)
    → ((j : ℕ) → a ≤ j → j < a + n → get_or next j minus_one ≡ pos (suc j))
    → get_or next (a + n) minus_one ≡ minus_one
    → Chain next (pos a) (count_up a (suc n))
Chain-count_up zero a next linked last = (refl, ground arith)
Chain-count_up (suc n) a next linked last = (
  refl,
  rw (linked a (omega arith) (omega arith)) (
      Chain-count_up n (suc a) next (λ j p q. linked j (omega arith) (omega arith)) (ground arith)),
)

get_or-used : (n i : ℕ) → get_or (replicate n false) i true ≡ not (contains (count_up 0 n) i)
get_or-used n i = ground (
  arith,
  contains-count_up 0 n i,
  get_or-default (replicate n false) i true,
  length-replicate n false,
  get_or-replicate n i false true,
)

module _ {ℓ} {A : Type ℓ} where
  abbrev pub fresh : ℕ → List A → List ℤ → Pool A
  fresh last slots next = record {
    slots = slots;
    next = set (link last 0 next) last minus_one;
    capacity = suc last;
    free_head = pos 0;
    used = replicate (suc last) false;
  }

  -- With room for `capacity` elements in both arrays and a positive capacity every slot is free,
  -- the lowest first.
  pub fresh-Inv :
      (last : ℕ) (slots : List A) (next : List ℤ)
      → length slots ≡ suc last
      → length next ≡ suc last
      → Inv (fresh last slots next) (count_up 0 (suc last))
  fresh-Inv last slots next hs hn = record {
    slots_size = hs;
    next_size = length-set (link last 0 next) last minus_one ∙ (length-link last 0 next ∙ hn);
    used_size = length-replicate (suc last) false;
    chain =
        Chain-count_up last 0 _
          (λ j lo hi. ground (
            arith,
            get_or-set_ne (link last 0 next) last j minus_one minus_one,
            link_linked last 0 next j,
          ))
          (ground (
            arith,
            get_or-set_self (link last 0 next) last minus_one minus_one,
            length-link last 0 next,
          ));
    distinct = Distinct-count_up 0 (suc last);
    unused = get_or-used (suc last);
  }

  pub pool_init_lem :
      (last : ℕ) (slots : List A) (next : List ℤ)
      → pool_init (suc last) slots next ≡ some (fresh last slots next)
  unfolding pool_init
  pool_init_lem last slots next = refl
