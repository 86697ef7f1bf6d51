-- ===== src/Stress/Server/Laws.antt =====
-- What a request is answered with, and how it is counted.
use mach_ipc.Base.{
  ℕ, ◌≡◌, refl, Bool, true, false, Option, none, some, ℤ, ◌==◌, if◌then◌else◌, arith, subst, sym,
}
use native.Mathlib.Decide.{ℕ_discrete}
use mach_ipc.Protocol.Types.{ipc_success, ipc_error_invalid_param}
use mach_ipc.Status.{stress_status_ping_ok, stress_status_burst_ok, stress_status_timeout_ok}
use mach_ipc.Stress.{
  msg_type_ping, msg_type_heavy_payload, msg_type_burst, msg_type_timeout_test,
  msg_type_share_memory, msg_type_stats_req,
}
use mach_ipc.Stress.Server.{
  ServerStats, Request, Reply, Replied, add32, on_message_with_reply, answer_request, answer_ping,
  count_silence, silent, with_reply, count_message,
}

-- The requests that are answered with data, and with which status and size.
abbrev pub kind_of : ℕ → Option (ℤ × ℕ)
kind_of t =
    if t == msg_type_ping
    then some (stress_status_ping_ok, 24)
    else if t == msg_type_burst
    then some (stress_status_burst_ok, 4)
    else if t == msg_type_timeout_test
    then some (stress_status_timeout_ok, 4)
    else if t == msg_type_stats_req
    then some (ipc_success, 20)
    else none

abbrev pub has_reply : Replied → Bool
has_reply a = elim a.reply [ none ↦ false | some r ↦ true ]

-- A reply of this kind, or none.
abbrev pub Fits : Option (ℤ × ℕ) → Replied → Type 0
Fits (some (status, length)) a =
    (has_reply a ≡ true) × (a.reply_status ≡ status) × (a.reply_size ≡ length)
Fits none a = (has_reply a ≡ false) × (a.reply_size ≡ 0)

-- What the request did to the statistics, and what came back.
pub record Answered (allocated : Bool) (s : ServerStats) (msg_type size : ℕ) (a : Replied)
    : Type 0 where
  pub messages : a.stats.total_messages ≡ add32 s.total_messages 1
  pub bytes : a.stats.total_bytes ≡ add32 s.total_bytes size
  pub timeouts :
      a.stats.timeouts
      ≡ (if msg_type == msg_type_timeout_test then add32 s.timeouts 1 else s.timeouts)
  pub errors : a.stats.errors ≡ (if has_reply a then s.errors else add32 s.errors 1)
  pub others : (a.stats.broadcasts ≡ s.broadcasts) × (a.stats.active_clients ≡ s.active_clients)
  pub answered : Fits (if allocated then kind_of msg_type else none) a

module _ (allocated : Bool) (s : ServerStats) (msg_type size : ℕ) where
  -- The message is counted, and perhaps a timeout.
  abbrev counted : ServerStats
  counted = record (count_message s size) {
    timeouts = if msg_type == msg_type_timeout_test then add32 s.timeouts 1 else s.timeouts;
  }

  unanswered :
      (status : ℤ)
      → (if allocated then kind_of msg_type else none) ≡ none
      → Answered allocated s msg_type size (count_silence (silent counted status))
  unfolding count_silence
  unanswered status e = record {
    messages = refl;
    bytes = refl;
    timeouts = refl;
    errors = refl;
    others = (refl, refl);
    answered = rw e (refl, refl);
  }

  given :
      (reply : Reply) (status : ℤ) (length : ℕ)
      → (if allocated then kind_of msg_type else none) ≡ some (status, length)
      → Answered allocated s msg_type size
          (count_silence (with_reply true counted reply length status))
  unfolding count_silence
  given reply status length e = record {
    messages = refl;
    bytes = refl;
    timeouts = refl;
    errors = refl;
    others = (refl, refl);
    answered = rw e (refl, refl, refl);
  }

module _ (now : ℕ) (s : ServerStats) (size : ℕ) (d : Request) where
  abbrev Goal : Bool → ℕ → Type 0
  Goal allocated t =
      (a : Replied) × (on_message_with_reply allocated now s t size (some d) ≡ some a)
      × Answered allocated s t size a

  known : (t : ℕ) {k : ℕ} (allocated : Bool) → Goal allocated k → t ≡ k → Goal allocated t
  known t allocated g e = subst (Goal allocated) (sym e) g

  ping-Goal : (allocated : Bool) → Goal allocated msg_type_ping
  unfolding on_message_with_reply answer_request answer_ping
  ping-Goal true = (_, refl, given true s msg_type_ping size _ stress_status_ping_ok 24 refl)
  ping-Goal false = (_, refl, unanswered false s msg_type_ping size ipc_success refl)

  heavy-Goal : (allocated : Bool) → Goal allocated msg_type_heavy_payload
  unfolding on_message_with_reply answer_request
  heavy-Goal true = (_, refl, unanswered true s msg_type_heavy_payload size ipc_success refl)
  heavy-Goal false = (_, refl, unanswered false s msg_type_heavy_payload size ipc_success refl)

  burst-Goal : (allocated : Bool) → Goal allocated msg_type_burst
  unfolding on_message_with_reply answer_request
  burst-Goal true = (_, refl, given true s msg_type_burst size _ stress_status_burst_ok 4 refl)
  burst-Goal false = (_, refl, unanswered false s msg_type_burst size ipc_success refl)

  timeout-Goal : (allocated : Bool) → Goal allocated msg_type_timeout_test
  unfolding on_message_with_reply answer_request
  timeout-Goal true =
      (_, refl, given true s msg_type_timeout_test size _ stress_status_timeout_ok 4 refl)
  timeout-Goal false = (_, refl, unanswered false s msg_type_timeout_test size ipc_success refl)

  share-Goal : (allocated : Bool) → Goal allocated msg_type_share_memory
  unfolding on_message_with_reply answer_request
  share-Goal true = (_, refl, unanswered true s msg_type_share_memory size ipc_success refl)
  share-Goal false = (_, refl, unanswered false s msg_type_share_memory size ipc_success refl)

  stats-Goal : (allocated : Bool) → Goal allocated msg_type_stats_req
  unfolding on_message_with_reply answer_request
  stats-Goal true = (_, refl, given true s msg_type_stats_req size _ ipc_success 20 refl)
  stats-Goal false = (_, refl, unanswered false s msg_type_stats_req size ipc_success refl)

  unknown-Goal :
      (t : ℕ) (allocated : Bool)
      → (t == msg_type_ping) ≡ false
      → (t == msg_type_heavy_payload) ≡ false
      → (t == msg_type_burst) ≡ false
      → (t == msg_type_timeout_test) ≡ false
      → (t == msg_type_share_memory) ≡ false
      → (t == msg_type_stats_req) ≡ false
      → Goal allocated t
  unfolding on_message_with_reply answer_request
  unknown-Goal t allocated a b c e f g = (
    count_silence (silent (counted allocated s t size) ipc_error_invalid_param),
    rw (a, b, c, e, f, g),
    unanswered allocated s t size ipc_error_invalid_param (ground arith),
  )

-- A request whose data is there returns. It is counted as one message of its size; it has a reply exactly
-- if it is one of the four that are answered with data and memory for the reply could be had, and then
-- the status and the size are those of its kind; otherwise it counts as one error.
pub on_message_with_reply_lem :
    (allocated : Bool) (now : ℕ) (s : ServerStats) (msg_type size : ℕ) (d : Request)
    → (a : Replied) × (on_message_with_reply allocated now s msg_type size (some d) ≡ some a)
      × Answered allocated s msg_type size a
on_message_with_reply_lem allocated now s t size d = elim (ℕ_discrete t msg_type_ping) [
  | yes e ↦ known now s size d t allocated (ping-Goal now s size d allocated) e
  | no a ↦ elim (ℕ_discrete t msg_type_heavy_payload) [
    | yes e ↦ known now s size d t allocated (heavy-Goal now s size d allocated) e
    | no b ↦ elim (ℕ_discrete t msg_type_burst) [
      | yes e ↦ known now s size d t allocated (burst-Goal now s size d allocated) e
      | no c ↦ elim (ℕ_discrete t msg_type_timeout_test) [
        | yes e ↦ known now s size d t allocated (timeout-Goal now s size d allocated) e
        | no f ↦ elim (ℕ_discrete t msg_type_share_memory) [
          | yes e ↦ known now s size d t allocated (share-Goal now s size d allocated) e
          | no g ↦ elim (ℕ_discrete t msg_type_stats_req) [
            | yes e ↦ known now s size d t allocated (stats-Goal now s size d allocated) e
            | no h ↦
                unknown-Goal now s size d t allocated (ground arith) (ground arith) (ground arith)
                  (ground arith) (ground arith) (ground arith)
          ]
        ]
      ]
    ]
  ]
]
