-- ===== src/Protocol/Receive.antt =====
-- src/protocol.c, `protocol_receive_loop`. What `mach_msg` delivers, and the value of `*running` before
-- each receive, is the input; the handler is a parameter; the output is what the loop deallocates.
-- Whether a deallocation succeeds is only logged.
pub mod Laws
use mach_ipc.Base.{
  ℕ, Bool, true, false, not, ◌&&◌, ◌||◌, Option, none, some, ◌>>=◌, List, [], ◌∷◌, ◌++◌, ltb, ◌==◌,
  if◌then◌else◌,
}
use mach_ipc.MsgId.{feature_iack, has_feature, is_this_protocol_msg}
use mach_ipc.Pool.{Pool}
use mach_ipc.Protocol.Types.{KernReturn, is_success, Payload, sizeof_payload, Buffer, port_null}
use mach_ipc.Protocol.Ack.{Incoming, Waiter, handle_ack_message}

-- One answer of `mach_msg`. `is_ool` is whether the first descriptor has type
-- MACH_MSG_OOL_DESCRIPTOR; `content` is what lies at the payload's address, if it is not null;
-- `not_port` is the port that the message names if it is a dead-name notification.
pub record Received : Type 0 where
  pub result : KernReturn
  pub id : ℕ
  pub remote_port : ℕ
  pub descriptor_count : ℕ
  pub is_ool : Bool
  pub payload : Buffer
  pub content : Payload
  pub user : Buffer
  pub not_port : ℕ

-- The acknowledgment in a message.
abbrev pub ack_of : Received → Incoming
ack_of m = record {
  address = m.payload.address;
  content = m.content;
  size = m.payload.size;
  user = m.user;
}

pub data Dealloc : Type 0 where
  port : ℕ → Dealloc
  memory : Buffer → Dealloc

-- What a `message_handler_t` leaves: whether the loop is to clean up, the remote port that the
-- header now names, and the new context.
pub record Reply (S : Type 0) : Type 0 where
  pub clean_up : Bool
  pub remote_port : ℕ
  pub context : S

-- A message that the loop passes on: of this protocol, with its descriptors and a full payload.
unfoldable pub is_well_formed : Received → Bool
is_well_formed m =
    not (ltb m.descriptor_count 2)
    && m.is_ool
    && not (m.payload.address == 0 || ltb m.payload.size sizeof_payload)

abbrev dealloc_port : ℕ → List Dealloc
dealloc_port p = if p == port_null then [] else port p ∷ []

abbrev dealloc_user : Buffer → List Dealloc
dealloc_user b = if b.address == 0 || b.size == 0 then [] else memory b ∷ []

-- The end of the loop's body.
pub clean : (remote_port : ℕ) → Received → List Dealloc
clean remote_port m = dealloc_port remote_port ++ ((memory m.payload ∷ []) ++ dealloc_user m.user)

module _ {S : Type 0} (handler : S → Received → (is_native : Bool) → Reply S) where
  abbrev pub State : Type 0
  State = S × Pool Waiter

  receive_ack : State → Received → Option (List Dealloc × State)
  receive_ack (s, p) m = do
    (taken, q) ← handle_ack_message p (ack_of m)
    some ((if taken then [] else clean m.remote_port m), (s, q))

  receive_regular : State → Received → List Dealloc × State
  receive_regular (s, p) m =
      let r = handler s m false in
      ((if r.clean_up then clean r.remote_port m else []), (r.context, p))

  receive_native : State → Received → List Dealloc × State
  receive_native (s, p) m = ([], ((handler s m true).context, p))

  -- One round of the loop.
  pub receive : State → Received → Option (List Dealloc × State)
  unfolding receive_ack receive_regular receive_native is_well_formed
  receive st m =
      if not (is_success m.result)
      then some ([], st)
      else if not (is_this_protocol_msg m.id)
      then some (receive_native st m)
      else if not (is_well_formed m)
      then some ([], st)
      else if has_feature feature_iack m.id
      then receive_ack st m
      else some (receive_regular st m)

  -- The loop, for the given values of `*running` and answers of `mach_msg`.
  pub protocol_receive_loop : State → List (Bool × Received) → Option (List Dealloc × State)
  protocol_receive_loop st [] = some ([], st)
  protocol_receive_loop st ((running, m) ∷ ms) = elim running [
    | false ↦ some ([], st)
    | true ↦ do
      (ds, st') ← receive st m
      (es, st'') ← protocol_receive_loop st' ms
      some (ds ++ es, st'')
  ]
