-- ===== src/Tests/Drivers.antt =====
-- The drivers of source/kernel/ahci.c and intel_8254xx.c at concrete inputs.
use kernel_on_qemu.Prelude.{
  ℕ, ◌+◌, ◌*◌, ◌%◌, ◌^◌, ◌<◌, ◌≡◌, refl, true, [], ◌∷◌, some, arith, ◌==◌, if◌then◌else◌, Yields,
}
use kernel_on_qemu.Bytes.{Bytes}
use kernel_on_qemu.Interrupt.{Cpu}
use kernel_on_qemu.Pci.{Space, Token}
use kernel_on_qemu.Packet.{NetworkPacket}
use kernel_on_qemu.Ahci.{CommandHeader, Port, Hba, Device, find_device}
use kernel_on_qemu.Ahci.Transfer.{
  ahci_write, ahci_read, ata_command_write_dma_ext, ata_command_read_dma_ext,
}
use kernel_on_qemu.Ahci.Identify.{PortPages, ahci_init}
use kernel_on_qemu.Ahci.Commands.{Transferred, ahci_transfer_lem}
use kernel_on_qemu.Ahci.Ready.{AllReady, ahci_init-AllReady}
use kernel_on_qemu.Intel.{IntelDevice, rx_desc_count, tx_desc_count, intel_8254xx_tx_send}
use kernel_on_qemu.Intel.Init.{Card, rx_desc, tx_desc}
use kernel_on_qemu.Intel.Poll.{Receiver, RxPages, intel_8254xx_rx_poll}
use kernel_on_qemu.Intel.Ring.{send_all, IsSent, tx_send_lem}
use kernel_on_qemu.Ethernet.{ether_decode}
use kernel_on_qemu.Arp.{arp_decode}
use kernel_on_qemu.Words.{netswap16}
use kernel_on_qemu.Bytes.{read16}
use kernel_on_qemu.Intel.Received.{HasRoom, IsSafeReceiver, rx_poll_lem}

abbrev zeros : Bytes
zeros x = 0

-- A disk of sectors of 512 bytes at port 1, whose first slot is taken.
abbrev disk : Device
disk = record {
  lba_size = 0x200;
  lba_count_low = 0x1000;
  lba_count_high = 0;
  port = 1;
  model_number = zeros;
}

abbrev no_command : CommandHeader
no_command = record { desc_info = 0; prdbc = 0; ctba = 0; ctbau = 0; table = zeros }

abbrev busy_port : Port
busy_port = record {
  clb = 0;
  fb = 0;
  is = 0;
  ie = 0;
  cmd = 0;
  ssts = 3;
  ci = 1;
  command_list = λ i. no_command;
}

abbrev controller : Hba
controller = record { ghc = 0; is = 0; pi = 2; cap2 = 0; ports = λ i. busy_port }

disk_found : find_device 1 (disk ∷ []) ≡ some disk
unfolding find_device
disk_found = refl

-- 40 sectors, which take three regions, from the buffer at 0x100000.
ahci_transfer_lem_example :
    Yields
      (Transferred ata_command_write_dma_ext 0x5000 1 0x100000
        (0x12345 + 0 * 2 ^ 32)
        40
        (40 * 0x200)
        1
        controller)
      (ahci_write 4 0x5000 zeros 1 0x100000 0x12345 0 40 (disk ∷ []) controller)
    × Yields
        (Transferred ata_command_read_dma_ext 0x5000 1 0x100000
          (0x12345 + 0 * 2 ^ 32)
          40
          (40 * 0x200)
          1
          controller)
        (ahci_read 4 0x5000 zeros 1 0x100000 0x12345 0 40 (disk ∷ []) controller)
ahci_transfer_lem_example =
    ahci_transfer_lem 4 0x5000 zeros 1 0x100000 0x12345 0 40 1 (disk ∷ []) disk controller
      disk_found (omega arith) (omega arith) (omega arith) (omega arith) (omega arith) (omega arith)
      (omega arith) (omega arith) refl (λ k lt. ground arith)

abbrev cpu : Cpu
cpu = record {
  disable_counter = 0;
  interrupt_flag = true;
  idtr = (0, 0);
  command_writes = [];
  idt = λ i. record { offset_1 = 0; segment_selector = 0; reserved = 0; type = 0; offset_2 = 0 };
  masks = λ p. 0xFF;
}

abbrev token : Token
token = record { bus = 0; device = 3; function = 0 }

abbrev space : Space
space address = if address == 0x8000183C then 11 else 0

-- The answer of a disk with addresses of 48 bits.
abbrev port_pages : PortPages
port_pages = record {
  command_list = 0x6000;
  received_fis = 0x7000;
  command_table = 0x8000;
  table = zeros;
  identify_buf = 0x9000;
  entry = zeros;
  answer = λ x. if x == 167 then 4 else 0;
}

ahci_init-AllReady_example :
    AllReady (ahci_init 0x10A000 space token (λ i. port_pages) (λ h. h) cpu ([], controller)).1
ahci_init-AllReady_example =
    ahci_init-AllReady 0x10A000 space token (λ i. port_pages) (λ h. h) cpu controller

-- A card whose ring for sending is at its last descriptor.
abbrev card : IntelDevice
card = record {
  rxdl = λ i. record (rx_desc (0x200000 + i * 0x1000)) { status = if i == 2 then 1 else 0 };
  txdl = λ i. tx_desc;
  tx_tail = 255;
  reg_base_addr = 0xFEBC0000;
  rar_count = 1;
  writes = [];
}

abbrev packet : NetworkPacket
packet = record { page = zeros; start = 0xE00; end = 0x1000 }

tx_send_lem_example :
    IsSent 0x300000 packet
      ((send_all ((0x400000, packet) ∷ []) (intel_8254xx_tx_send 0x300000 packet card)).txdl 255)
    × ((send_all ((0x400000, packet) ∷ []) (intel_8254xx_tx_send 0x300000 packet card)).tx_tail
        ≡ (255 + 1 + 1) % tx_desc_count)
tx_send_lem_example =
    tx_send_lem 0x300000 packet ((0x400000, packet) ∷ []) card (omega arith) (omega arith)

-- No process, and an ARP table without an entry; the descriptor 2 holds a frame of ARP.
abbrev receiver : Receiver
receiver = record { device = card; table = some []; processes = [] }

abbrev rx_pages : RxPages
rx_pages = record {
  buffer = λ x. if x == 12 then 8 else if x == 13 then 6 else 0;
  message = record { buf = zeros; len = 0 };
  entry = zeros;
}

has_room : HasRoom rx_pages
unfolding ether_decode arp_decode netswap16 read16
has_room = omega arith

rx_poll_lem_example :
    Yields
      (λ s. IsSafeReceiver s × ((j : ℕ) → j < rx_desc_count → (s.device.rxdl j).status % 2 ≡ 0))
      (intel_8254xx_rx_poll (λ i. rx_pages) receiver)
rx_poll_lem_example = rx_poll_lem (λ i. rx_pages) receiver (λ j. has_room) (tt, refl)

abbrev new_card : Card
new_card = record {
  ctrl_reset = 0;
  ctrl_link = 0;
  eerd = λ i. (0x5452 + i) * 2 ^ 16 + 16;
  rx_address = 0x500000;
  rx_before = λ i. rx_desc 0;
  rx_buffers = λ i. 0x600000 + i * 0x1000;
  tx_address = 0x502000;
  tx_before = λ i. tx_desc;
  interface = record {
    ether_addr = zeros;
    ip_addr = 1;
    ip_addr_dhcp = 1;
    ip_addr_dns = 1;
    subnet_mask = 1;
  };
  device = card;
}
