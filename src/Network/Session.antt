-- ===== src/Network/Session.antt =====
-- The life of one TCP socket of source/kernel/networking.c: the polls of the sending task and the
-- segments that arrive, in any order.
use kernel_on_qemu.Prelude.{
  if◌then◌else◌, sym, ℕ, ◌+◌, ◌<◌, ◌^◌, ◌≡◌, ◌≢◌, refl, ◌∙◌, ap, Bool, true, Option, none, some,
  List, [], ◌∷◌, ◌++◌, arith,
}
use mathlib.Core.List.{append_assoc, append-nil}
use mathlib.Core.Path.{subst}
use kernel_on_qemu.Words.{u32}
use kernel_on_qemu.Bytes.{Bytes}
use kernel_on_qemu.Packet.{NetworkInterface, NetworkMessage, NetworkMessageDesc, protocol_tcp}
use kernel_on_qemu.Socket.{s_ack, s_open, Socket, socket_protocol_tcp, is_syn}
use kernel_on_qemu.Network.Receive.{rx_tcp_socket, enqueue, is_some, tcp_syn, tcp_psh, tcp_ack}
use kernel_on_qemu.Network.Transmit.{
  Wire, tx_socket, tx_tcp, tx_write, drain_queue, send_tcp, empty_packet,
}
use kernel_on_qemu.Network.Invariant.{HasQueues, Kept, rx_tcp_socket-HasQueues}

pub data Event : Type 0 where
  poll : Event
  segment : NetworkMessage → NetworkMessageDesc → Event

-- A message is queued only if it is next in the stream and acknowledges all that was sent; the
-- acknowledgement moves on by its length, and it is the last message of the queue.
pub rx_tcp_in_order :
    (msg : NetworkMessage) (desc : NetworkMessageDesc) (s s' : Socket)
    → rx_tcp_socket msg desc s ≡ some (s', true)
    → (desc.seq ≡ s.ack)
      × (desc.ack ≡ s.seq)
      × (s'.ack ≡ u32 (s.ack + msg.len))
      × (s'.status ≡ s_ack)
      × (s'.message_queue_in ≡ enqueue msg s.message_queue_in)
unfolding rx_tcp_socket
rx_tcp_in_order msg desc s s' e = ground arith

-- A segment that was queued is not queued a second time: not by any socket state with the
-- acknowledgement that it led to. It has at least one byte and less than 2 ^ 32.
pub rx_tcp_once :
    (msg : NetworkMessage) (desc : NetworkMessageDesc) (s s' again after : Socket)
    → rx_tcp_socket msg desc s ≡ some (s', true)
    → again.ack ≡ s'.ack
    → 0 < msg.len
    → msg.len < 2 ^ 32
    → s.ack < 2 ^ 32
    → rx_tcp_socket msg desc again ≢ some (after, true)
rx_tcp_once msg desc s s' again after e same pos lt small e' =
    let first = rx_tcp_in_order msg desc s s' e in
    let second = rx_tcp_in_order msg desc again after e' in omega arith

module _ (intfs : ℕ → NetworkInterface) (pages : ℕ → Bytes) where
  abbrev received : Option (Socket × Bool) → Wire → Option (Socket × Wire)
  received none w = none
  received (some (s, b)) w = some (s, w)

  abbrev and_then :
      Option (Socket × Wire) → (Socket → Wire → Option (Socket × Wire)) → Option (Socket × Wire)
  and_then none rest = none
  and_then (some (s, w)) rest = rest s w

  -- What an event does to the socket and to the wire.
  unfoldable pub step : Event → Socket → Wire → Option (Socket × Wire)
  step poll s w = tx_socket intfs pages s w
  step (segment msg desc) s w = received (rx_tcp_socket msg desc s) w

  unfoldable pub run : List Event → Socket → Wire → Option (Socket × Wire)
  unfolding step
  run [] s w = some (s, w)
  run (e ∷ es) s w = and_then (step e s w) (run es)

  pub tx_socket-HasQueues : (s : Socket) (w : Wire) → HasQueues s → Kept (tx_socket intfs pages s w)
  unfolding tx_socket tx_tcp tx_write drain_queue
  tx_socket-HasQueues s w v = ground arith

  step-HasQueues : (e : Event) (s : Socket) (w : Wire) → HasQueues s → Kept (step e s w)
  unfolding step
  step-HasQueues poll s w v = tx_socket-HasQueues s w v
  step-HasQueues (segment msg desc) s w v = ground (arith, rx_tcp_socket-HasQueues msg desc s v)

  Kept-and_then :
      (r : Option (Socket × Wire)) (rest : Socket → Wire → Option (Socket × Wire))
      → Kept r
      → ((s : Socket) (w : Wire) → HasQueues s → Kept (rest s w))
      → Kept (and_then r rest)
  Kept-and_then none rest k h = k
  Kept-and_then (some (s, w)) rest k h = h s w k

  -- Whatever segments arrive and whenever a socket that has its queues is polled, the run does not fault: no queue is
  -- missing where one is used, and the socket that is left has its queues.
  pub run-HasQueues : (es : List Event) (s : Socket) (w : Wire) → HasQueues s → Kept (run es s w)
  unfolding run
  run-HasQueues [] s w v = v
  run-HasQueues (e ∷ es) s w v =
      Kept-and_then (step e s w) (run es) (step-HasQueues e s w v) (run-HasQueues es)

-- The segment that answers a SYN: it acknowledges sequence number 0.
abbrev pub syn_ack : (desc : NetworkMessageDesc) (server_seq : ℕ) → NetworkMessageDesc
syn_ack desc server_seq = record desc {
  protocol = protocol_tcp;
  flags = tcp_syn + tcp_ack;
  seq = server_seq;
  ack = 1;
}

-- A segment with data, for the sequence numbers that the socket expects.
abbrev pub psh_ack : (desc : NetworkMessageDesc) (seq ack : ℕ) → NetworkMessageDesc
psh_ack desc seq ack = record desc {
  protocol = protocol_tcp;
  flags = tcp_psh + tcp_ack;
  seq = seq;
  ack = ack;
}

-- The socket after the handshake with a server that starts at `server_seq`.
abbrev pub established : Socket → (server_seq : ℕ) → Socket
established s server_seq = record s {
  seq = 1;
  ack = u32 (server_seq + 1);
  status = s_open;
  connect_status = s_open;
}

-- The segments that carry the messages in order, the first one at sequence number `seq`, and the
-- polls between them that acknowledge them.
unfoldable pub stream : NetworkMessageDesc → (seq ack : ℕ) → List NetworkMessage → List Event
stream desc seq ack [] = []
stream desc seq ack (m ∷ ms) =
    segment m (psh_ack desc seq ack) ∷ poll ∷ stream desc (u32 (seq + m.len)) ack ms

unfoldable pub seq_after : ℕ → List NetworkMessage → ℕ
seq_after seq [] = seq
seq_after seq (m ∷ ms) = seq_after (u32 (seq + m.len)) ms

module _ (intfs : ℕ → NetworkInterface) (pages : ℕ → Bytes) where
  -- The socket once a segment has been queued and acknowledged.
  abbrev taken : Socket → NetworkMessage → Socket
  taken s m = record s {
    ack = u32 (s.ack + m.len);
    status = s_open;
    connect_status = if is_syn s.connect_status then s_open else s.connect_status;
    message_queue_in = enqueue m s.message_queue_in;
  }

  take_segment :
      (desc : NetworkMessageDesc) (m : NetworkMessage) (es : List Event) (s : Socket) (w : Wire)
      → s.protocol ≡ socket_protocol_tcp
      → s.status ≡ s_open
      → is_some s.message_queue_in ≡ true
      → (w' : Wire) × (run intfs pages (segment m (psh_ack desc s.ack s.seq) ∷ poll ∷ es) s w
          ≡ run intfs pages es (taken s m) w')
  unfolding run tx_socket tx_tcp rx_tcp_socket
  take_segment desc m es s w p o q = (
    send_tcp intfs pages (record (taken s m) { status = s_ack }) tcp_ack
        (empty_packet intfs pages w) w,
    ground arith,
  )

  -- The stream arrived: the queue, the acknowledgement and the status.
  abbrev pub Arrived : List NetworkMessage → ℕ → Option (Socket × Wire) → Type 0
  Arrived q ack none = ⊥
  Arrived q ack (some (s, w)) = (s.message_queue_in ≡ some q) × (s.ack ≡ ack) × (s.status ≡ s_open)

  -- At an open TCP socket with a queue, messages that arrive in order, each acknowledged before the
  -- next, are queued in that order behind
  -- what was queued, all of them and nothing else, and are acknowledged up to the last byte.
  pub stream_arrives :
      (desc : NetworkMessageDesc) (ms q : List NetworkMessage) (s : Socket) (w : Wire)
      → s.protocol ≡ socket_protocol_tcp
      → s.status ≡ s_open
      → s.message_queue_in ≡ some q
      → Arrived (q ++ ms) (seq_after s.ack ms) (run intfs pages (stream desc s.ack s.seq ms) s w)
  unfolding stream seq_after run
  stream_arrives desc [] q s w p o e = (e ∙ ap some (sym (append-nil q)), refl, o)
  stream_arrives desc (m ∷ ms) q s w p o e =
      let (w', step) =
        take_segment desc m (stream desc (u32 (s.ack + m.len)) s.seq ms) s w p o (ground arith) in
      subst (Arrived (q ++ (m ∷ ms)) (seq_after (u32 (s.ack + m.len)) ms)) (sym step) (
        subst
          (λ l.
            Arrived l (seq_after (u32 (s.ack + m.len)) ms)
              (run intfs pages (stream desc (u32 (s.ack + m.len)) s.seq ms) (taken s m) w'))
          (append_assoc q (m ∷ []) ms)
          (stream_arrives desc ms (q ++ (m ∷ [])) (taken s m) w' p refl (ground arith)))
