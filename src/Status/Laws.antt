-- ===== src/Status/Laws.antt =====
-- Which status a text stands for.
use Prim.Native.String.{String}
use mathlib.Core.Option.{some-injective}
use text.Mathlib.Text.{◌==◌}
use mach_ipc.Base.{
  ℕ, zero, suc, ◌≡◌, refl, Bool, true, Option, none, some, ℤ, pos, negsuc, leb, arith, ap, sym, ◌∙◌,
  ◌≤◌, if◌then◌else◌,
}
use mach_ipc.Status.{ipc_status_string, own_string, user_string, or_unknown}

-- The codes of `ipc_status_t`.
abbrev pub is_own : ℤ → Bool
is_own (pos n) = leb n 0
is_own (negsuc n) = leb n 6

-- The code that a text of the library stands for.
abbrev pub code_of : String → Option ℤ
code_of s =
    if s == "Success"
    then some (pos 0)
    else if s == "Invalid parameter"
    then some (negsuc 0)
    else if s == "Out of memory"
    then some (negsuc 1)
    else if s == "Not connected"
    then some (negsuc 2)
    else if s == "Timeout"
    then some (negsuc 3)
    else if s == "Send failed"
    then some (negsuc 4)
    else if s == "Internal error"
    then some (negsuc 5)
    else if s == "Client list full"
    then some (negsuc 6)
    else none

-- What the user function says, if there is one.
abbrev pub asked : Option (ℤ → Option String) → ℤ → Option String
asked none status = none
asked (some f) status = f status

user_text :
    (user : Option (ℤ → Option String)) (n : ℕ)
    → 1000 ≤ n
    → ipc_status_string user (pos n)
      ≡ elim (asked user (pos n)) [ none ↦ "Unknown user error" | some text ↦ text ]
unfolding ipc_status_string user_string or_unknown
user_text none n h = ground arith
user_text (some f) n h = ground arith

module _ (user : Option (ℤ → Option String)) where
  code_of-string :
      (status : ℤ) → is_own status ≡ true → code_of (ipc_status_string user status) ≡ some status
  unfolding ipc_status_string own_string
  code_of-string (pos zero) h = refl
  code_of-string (pos (suc n)) h = absurd (ground arith)
  code_of-string (negsuc zero) h = refl
  code_of-string (negsuc (suc zero)) h = refl
  code_of-string (negsuc (suc (suc zero))) h = refl
  code_of-string (negsuc (suc (suc (suc zero)))) h = refl
  code_of-string (negsuc (suc (suc (suc (suc zero))))) h = refl
  code_of-string (negsuc (suc (suc (suc (suc (suc zero)))))) h = refl
  code_of-string (negsuc (suc (suc (suc (suc (suc (suc zero))))))) h = refl
  code_of-string (negsuc (suc (suc (suc (suc (suc (suc (suc n)))))))) h = absurd (ground arith)

  -- No two codes of the library have the same text, whatever the user function is, and a code from 1000
  -- on has the text that the user function has for it, or "Unknown user error".
  pub ipc_status_string_lem :
      ((s t : ℤ)
        → is_own s ≡ true
        → is_own t ≡ true
        → ipc_status_string user s ≡ ipc_status_string user t
        → s ≡ t)
      × ((n : ℕ)
          → 1000 ≤ n
          → ipc_status_string user (pos n)
            ≡ elim (asked user (pos n)) [ none ↦ "Unknown user error" | some text ↦ text ])
  unfolding ipc_status_string user_string or_unknown
  ipc_status_string_lem = (
    λ s t hs ht e.
        some-injective s t (sym (code_of-string s hs) ∙ (ap code_of e ∙ code_of-string t ht)),
    user_text user,
  )
