-- ===== src/Protocol/Ack/Waiters.antt =====
-- One waiter: which acknowledgments it takes, and what a sequence of them leaves in it.
use mach_ipc.Base.{
  ℕ, ◌≡◌, refl, sym, subst, ap, ◌∙◌, Bool, true, false, not, ◌&&◌, Option, none, some, List, [],
  ◌∷◌, pos, eq_ℤ, ◌==◌, if◌then◌else◌, arith, Bool-cases, inl, inr,
}
use mathlib.Core.Option.{some-injective}
use mach_ipc.Protocol.Ack.{Incoming, Waiter, accept}

-- An acknowledgment for slot `i`, as far as `handle_ack_message` looks at the slot.
abbrev pub addresses : Incoming → ℕ → Bool
addresses ack i = not (ack.content.correlation_id == 0) && eq_ℤ ack.content.correlation_slot (pos i)

-- An acknowledgment for the waiter of correlation id `cid` in slot `i`.
abbrev pub matches : (cid i : ℕ) → Incoming → Bool
matches cid i ack = addresses ack i && cid == ack.content.correlation_id

abbrev pub or_else : Option Incoming → Option Incoming → Option Incoming
or_else none b = b
or_else (some a) b = some a

-- The last acknowledgment of the list that is for this waiter.
unfoldable pub last_match : (cid i : ℕ) → List Incoming → Option Incoming
last_match cid i [] = none
last_match cid i (ack ∷ acks) =
    or_else (last_match cid i acks) (if matches cid i ack then some ack else none)

-- What an acknowledgment does to the waiter in slot `i`.
abbrev pub deliver : ℕ → Waiter → Incoming → Waiter
deliver i w ack = if addresses ack i then (accept w ack).1 else w

unfoldable pub deliver_all : ℕ → Waiter → List Incoming → Waiter
deliver_all i w [] = w
deliver_all i w (ack ∷ acks) = deliver_all i (deliver i w ack) acks

-- The waiter with the reply `r`, if there is one.
abbrev pub with_reply : Waiter → Option Incoming → Waiter
with_reply w none = w
with_reply w (some r) = record w { reply = some r; received = true; event = true }

deliver_lem :
    (i : ℕ) (w : Waiter) (ack : Incoming)
    → w.cancelled ≡ false
    → deliver i w ack ≡ (if matches w.correlation_id i ack then with_reply w (some ack) else w)
unfolding accept
deliver_lem i w ack h = ground arith

with_reply_twice :
    (w : Waiter) (a : Incoming) (o : Option Incoming)
    → with_reply (with_reply w (some a)) o ≡ with_reply w (or_else o (some a))
with_reply_twice w a none = refl
with_reply_twice w a (some r) = refl

with_reply_once :
    (w : Waiter) (o : Option Incoming) → with_reply w o ≡ with_reply w (or_else o none)
with_reply_once w none = refl
with_reply_once w (some r) = refl

abbrev chosen : Waiter → Incoming → Bool → Waiter
chosen w ack b = if b then with_reply w (some ack) else w

abbrev combined : Waiter → Incoming → Option Incoming → Bool → Waiter
combined w ack rest b = with_reply w (or_else rest (if b then some ack else none))

pub deliver_all_lem :
    (i : ℕ) (w : Waiter) (acks : List Incoming)
    → w.cancelled ≡ false
    → deliver_all i w acks ≡ with_reply w (last_match w.correlation_id i acks)
unfolding deliver_all last_match
deliver_all_lem i w [] h = refl
deliver_all_lem i w (ack ∷ acks) h =
    let rest = last_match w.correlation_id i acks in
    elim (Bool-cases (matches w.correlation_id i ack)) [
      | inl m ↦
          ap (λ (x : Waiter). deliver_all i x acks) (deliver_lem i w ack h ∙ ap (chosen w ack) m)
          ∙ (deliver_all_lem i (with_reply w (some ack)) acks h
              ∙ (with_reply_twice w ack rest ∙ ap (combined w ack rest) (sym m)))
      | inr m ↦
          ap (λ (x : Waiter). deliver_all i x acks) (deliver_lem i w ack h ∙ ap (chosen w ack) m)
          ∙ (deliver_all_lem i w acks h
              ∙ (with_reply_once w rest ∙ ap (combined w ack rest) (sym m)))
    ]

deliver_cancelled : (i : ℕ) (w : Waiter) (ack : Incoming) → w.cancelled ≡ true → deliver i w ack ≡ w
unfolding accept
deliver_cancelled i w ack h = ground arith

-- A cancelled waiter takes nothing.
pub deliver_all_cancelled :
    (i : ℕ) (w : Waiter) (acks : List Incoming) → w.cancelled ≡ true → deliver_all i w acks ≡ w
unfolding deliver_all accept
deliver_all_cancelled i w [] h = refl
deliver_all_cancelled i w (ack ∷ acks) h =
    ap (λ (x : Waiter). deliver_all i x acks) (deliver_cancelled i w ack h)
    ∙ deliver_all_cancelled i w acks h

pub last_match-matches :
    (cid i : ℕ) (acks : List Incoming) (r : Incoming)
    → last_match cid i acks ≡ some r
    → matches cid i r ≡ true
unfolding last_match
last_match-matches cid i [] r e = cc
last_match-matches cid i (ack ∷ acks) r e =
    by_rest (last_match cid i acks) (last_match-matches cid i acks r) e
  where
    chosen_ack : Bool → Option Incoming
    chosen_ack b = if b then some ack else none

    by_rest :
        (o : Option Incoming)
        → (o ≡ some r → matches cid i r ≡ true)
        → or_else o (if matches cid i ack then some ack else none) ≡ some r
        → matches cid i r ≡ true
    by_rest (some a) later e = later e
    by_rest none later e = elim (Bool-cases (matches cid i ack)) [
      | inl m ↦
          subst (λ (x : Incoming). matches cid i x ≡ true)
            (some-injective ack r (sym (ap chosen_ack m) ∙ e)) m
      | inr n ↦ later (sym (ap chosen_ack n) ∙ e)
    ]
