-- ===== src/Packet.antt =====
-- The structures of source/kernel/networking.h, packet.h and err.h.
use kernel_on_qemu.Prelude.{ℕ}
use kernel_on_qemu.Bytes.{Bytes}

pub data ErrCode : Type 0 where
  e_ok e_fail : ErrCode

-- NETWORK_PACKET: the packet is the bytes of `page` from offset `start` up to `end`.
pub record NetworkPacket : Type 0 where
  pub page : Bytes
  pub start : ℕ
  pub end : ℕ

-- NETWORK_INTERFACE. The device and its `tx_send` are the driver's.
pub record NetworkInterface : Type 0 where
  pub ether_addr : Bytes
  pub ip_addr : ℕ
  pub ip_addr_dhcp : ℕ
  pub ip_addr_dns : ℕ
  pub subnet_mask : ℕ

-- NETWORK_MESSAGE, which owns its buffer.
pub record NetworkMessage : Type 0 where
  pub buf : Bytes
  pub len : ℕ

-- NETWORK_MESSAGE_DESC
pub record NetworkMessageDesc : Type 0 where
  pub protocol : ℕ
  pub src_port : ℕ
  pub dest_port : ℕ
  pub flags : ℕ
  pub seq : ℕ
  pub ack : ℕ

abbrev pub protocol_udp : ℕ
protocol_udp = 0

abbrev pub protocol_tcp : ℕ
protocol_tcp = 1

abbrev pub protocol_arp : ℕ
protocol_arp = 2

-- The result of a decoder: its code, the message and its description.
abbrev pub Decoded : Type 0
Decoded = ErrCode × NetworkMessage × NetworkMessageDesc
