-- ===== src/Tests/Clients.antt =====
-- The client of a web server of source/kernel/kernel.c at concrete inputs.
use kernel_on_qemu.Prelude.{
  ℕ, ◌+◌, ◌<◌, ◌≡◌, refl, ap, false, some, none, [], ◌∷◌, map, codes, arith,
}
use kernel_on_qemu.Bytes.{Bytes, write8, memset, memcpy}
use kernel_on_qemu.Packet.{NetworkInterface, NetworkMessage}
use kernel_on_qemu.Socket.State.{Socket, s_open}
use kernel_on_qemu.Socket.Calls.{zeroed, kclose}
use kernel_on_qemu.Output.Screen.{print_text}
use kernel_on_qemu.Kernel.Web.{WebSetting, shown, crashed, object, is_end, get_page, web_client}
use kernel_on_qemu.Kernel.Page.{blank}
use kernel_on_qemu.Kernel.Visit.{asked, answer_page, get_page_lem, web_client_unconfigured}

abbrev empty_page : Bytes
empty_page x = 0

abbrev no_address : NetworkInterface
no_address = record {
  ether_addr = empty_page;
  ip_addr = 0;
  ip_addr_dhcp = 0;
  ip_addr_dns = 0;
  subnet_mask = 0;
}

abbrev setting : WebSetting
setting = record {
  intf_name = 1;
  intf = no_address;
  process = record { sockets = some []; arp_sck = none };
  table = none;
  http_get_buf = empty_page;
  http_response = λ x. 7;
  copy = empty_page;
  screen = record { cells = empty_page; console_index = 0; console_row = 0 };
}

web_client_unconfigured_example : web_client 9 setting (λ t. t) (λ sck. sck) (λ sck. sck) ≡ crashed
web_client_unconfigured_example =
    web_client_unconfigured 9 setting (λ t. t) (λ sck. sck) (λ sck. sck) [] refl refl

-- A header, its end, and a line feed.
abbrev answer : NetworkMessage
answer = record { buf = object (codes "OK\r\n\r\n\n"); len = 7 }

abbrev connected : Socket
connected = record zeroed {
  status = s_open;
  connect_status = s_open;
  message_queue_in = some [];
  message_queue_out = some [];
}

-- The polling tasks send the request and leave the answer.
abbrev polls : Socket → Socket
polls sck = record sck {
  status = s_open;
  message_queue_in = some (answer ∷ []);
  message_queue_out = some [];
}

last_end : (k : ℕ) → 2 < k → k + 3 < 7 → is_end (answer_page setting answer) k ≡ false
unfolding memset memcpy write8
last_end k lo hi = let at : k ≡ 3 = omega arith in ap (is_end (answer_page setting answer)) at

get_page_lem_example :
    get_page 9 setting polls connected
    ≡ shown
        (print_text (map blank (0xA ∷ [])) setting.screen)
        (kclose (record (polls (asked setting [] connected)) { message_queue_in = some [] }))
unfolding memset memcpy write8
get_page_lem_example =
    get_page_lem 9 setting polls connected [] [] answer 2 (0xA ∷ []) refl refl (omega arith)
      (omega arith) (omega arith) refl last_end (refl, omega arith, refl) (omega arith)
