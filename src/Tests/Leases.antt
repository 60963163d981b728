-- ===== src/Tests/Leases.antt =====
-- The DHCP client of source/kernel/dhcp_client.c at concrete answers.
use kernel_on_qemu.Prelude.{ℕ, ◌≡◌, refl, List, [], ◌∷◌, none, some, arith, ◌==◌, if◌then◌else◌}
use kernel_on_qemu.Words.{netswap32}
use kernel_on_qemu.Bytes.{Bytes, write8, read32, memcpy}
use kernel_on_qemu.Bytes.Range.{memcpy-IsBytes}
use kernel_on_qemu.Packet.{NetworkInterface, NetworkMessage}
use kernel_on_qemu.Socket.State.{Socket}
use kernel_on_qemu.Socket.Done.{received}
use kernel_on_qemu.Dhcp.Client.{Setting, dhcp_client}
use kernel_on_qemu.Dhcp.Protocol.{outcome, after_offer, after_ack, dhcp_client_lem}
use kernel_on_qemu.Dhcp.Failure.{Keeps, dhcp_client-Keeps}
use kernel_on_qemu.Dhcp.Options.{DhcpOption}
use kernel_on_qemu.Dhcp.Lease.{IsAnswer}

-- An answer with one option, the message type.
abbrev answer : (kind : ℕ) → Bytes
answer kind x =
    if x == 0
    then 2
    else if x == 236
    then 0x63
    else if x == 237
    then 0x82
    else if x == 238
    then 0x53
    else if x == 239
    then 0x63
    else if x == 240
    then 53
    else if x == 241
    then 1
    else if x == 242
    then kind
    else if x == 243
    then 255
    else 0

abbrev message_type : ℕ → List DhcpOption
message_type kind = record { code = 53; bytes = kind ∷ [] } ∷ []

abbrev no_address : NetworkInterface
no_address = record {
  ether_addr = λ x. 0x52;
  ip_addr = 0;
  ip_addr_dhcp = 0;
  ip_addr_dns = 0;
  subnet_mask = 0;
}

-- A message with an answer.
abbrev message : (kind : ℕ) → NetworkMessage
message kind = record { buf = answer kind; len = 244 }

abbrev empty_page : Bytes
empty_page x = 0

first_IsAnswer : IsAnswer (received empty_page (message 2)) (message_type 2)
unfolding memcpy write8 read32 netswap32
first_IsAnswer = record {
  in_range = memcpy-IsBytes empty_page 0 (answer 2) 0 244 (λ x. omega arith) (λ x. ground arith);
  reply = refl;
  magic = refl;
  options = (refl, omega arith, refl, omega arith, (refl, tt), refl);
}

second_IsAnswer : IsAnswer (received (received empty_page (message 2)) (message 5)) (message_type 5)
unfolding memcpy write8 read32 netswap32
second_IsAnswer = record {
  in_range =
      memcpy-IsBytes (received empty_page (message 2)) 0 (answer 5) 0 244 (first_IsAnswer.in_range)
        (λ x. ground arith);
  reply = refl;
  magic = refl;
  options = (refl, omega arith, refl, omega arith, (refl, tt), refl);
}

abbrev setting : Setting
setting = record {
  intf_name = 1;
  intf = no_address;
  process = record { sockets = some []; arp_sck = none };
  table = none;
  xid = 0;
  send_buf = empty_page;
  recv_buf = empty_page;
  copy = empty_page;
}

-- The polling tasks send what is queued and leave an answer.
abbrev answered : (kind : ℕ) → Socket → Socket
answered kind sck = record sck {
  message_queue_in = some (message kind ∷ []);
  message_queue_out = some [];
}

dhcp_client_lem_example :
    dhcp_client 2 setting (answered 2) (answered 5)
    ≡ outcome setting
        (message 2)
        (message_type 2)
        (message_type 5)
        (after_offer 2 setting
          (answered 2)
          (answered 5)
          []
          (message 2)
          (message 5)
          []
          []
          []
          (message_type 2)
          (message_type 5))
        (after_ack 2 setting
          (answered 2)
          (answered 5)
          []
          (message 2)
          (message 5)
          []
          []
          []
          (message_type 2)
          (message_type 5))
dhcp_client_lem_example =
    dhcp_client_lem 2 setting (answered 2) (answered 5) [] (message 2) (message 5) [] [] []
      (message_type 2) (message_type 5) refl refl refl refl first_IsAnswer second_IsAnswer
      (omega arith) (omega arith) (omega arith) (omega arith)

dhcp_client-Keeps_example : Keeps no_address (dhcp_client 2 setting (answered 2) (answered 5))
dhcp_client-Keeps_example =
    dhcp_client-Keeps 2 setting (answered 2) (answered 5) (λ t both. (refl, refl))
      (λ t both. (refl, refl)) [] refl
