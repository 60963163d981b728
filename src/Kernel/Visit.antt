-- ===== src/Kernel/Visit.antt =====
-- The whole client of a web server in source/kernel/kernel.c.
use kernel_on_qemu.Prelude.{
  ℕ, ◌+◌, ◌≤◌, ◌<◌, ◌^◌, ◌≡◌, refl, ◌∙◌, ap, true, false, Option, some, List, [], ◌∷◌, ◌++◌, map,
  length, arith, ◌==◌,
}
use kernel_on_qemu.Bytes.{Bytes, memset, memcpy}
use kernel_on_qemu.Packet.{e_fail, NetworkMessage, NetworkInterface}
use kernel_on_qemu.Arp.{ArpTable}
use kernel_on_qemu.Socket.State.{Socket, Process, s_write, s_null, socket_protocol_tcp}
use kernel_on_qemu.Socket.Calls.{zeroed, Connect, kconnect, kwrite, kread, kclose}
use kernel_on_qemu.Socket.Done.{ksocket_done, kread_done, kwrite_done, received}
use kernel_on_qemu.Output.Screen.{print_text}
use kernel_on_qemu.Output.Shown.{IsString}
use kernel_on_qemu.Kernel.Web.{
  WebSetting, Visit, shown, crashed, then_visit, web_client, finish_connect, get_page, read_page,
  http_get, is_end, webserver_ip,
}
use kernel_on_qemu.Kernel.Page.{blank, show_page_lem}

-- The socket that the client makes.
abbrev web_socket : WebSetting → Socket
web_socket s = record zeroed {
  port_in = 80;
  intf = s.intf_name;
  status = s_null;
  connect_status = s_null;
}

kconnect_unconfigured :
    (copy buf : Bytes) (intf : NetworkInterface) (arp_sck : Option Socket) (sck : Socket)
    (ip port : ℕ) (table : ArpTable)
    → intf.ip_addr ≡ 0
    → kconnect copy buf intf arp_sck sck ip port socket_protocol_tcp table
      ≡ Connect.returned e_fail sck
unfolding kconnect
kconnect_unconfigured copy buf intf arp_sck sck ip port table z =
    let e : (intf.ip_addr == 0) ≡ true = ground arith in rw (e, kconnect) refl

-- Where the interface has no address, as after a failed DHCP client, the web client faults: the code
-- of kconnect is not looked at, and the socket has no queue for the request. The task has a list of
-- sockets.
pub web_client_unconfigured :
    (fuel : ℕ) (s : WebSetting) (learns : ArpTable → ArpTable) (opens polls : Socket → Socket)
    (sockets : List Socket)
    → s.process.sockets ≡ some sockets
    → s.intf.ip_addr ≡ 0
    → web_client fuel s learns opens polls ≡ crashed
unfolding web_client get_page finish_connect kwrite
web_client_unconfigured fuel s learns opens polls sockets e z =
    let (p', made) = ksocket_done s.intf_name 80 s.process sockets e in
    let go : Connect → Visit =
      λ c. then_visit (finish_connect learns opens (web_socket s) c) (get_page fuel s polls) in
    let rest : Socket × Process → Visit = λ r.
      then_visit
        (finish_connect learns opens r.0 (
          kconnect s.copy s.http_get_buf s.intf r.1.arp_sck r.0 webserver_ip 4800
            socket_protocol_tcp s.table))
        (get_page fuel s polls) in
    ap (λ o. then_visit o rest) made
    ∙ ap go (
        kconnect_unconfigured s.copy s.http_get_buf s.intf p'.arp_sck (web_socket s) webserver_ip
          4800 s.table z)

-- The request has been queued behind `out`.
abbrev pub asked : WebSetting → (out : List NetworkMessage) → Socket → Socket
asked s out web_sck =
    let (m, len) = http_get s.http_get_buf in
    record web_sck {
      message_queue_out =
          some (out ++ (record { buf = memcpy s.copy 0 m 0 0x1000; len = len } ∷ []));
      status = s_write;
    }

-- The page that the answer is read to.
abbrev pub answer_page : WebSetting → NetworkMessage → Bytes
answer_page s msg = received (memset s.http_response 0 0 0x1000) msg

-- On a connected socket with `out` in its queue, where the polls leave the answer `msg` in the
-- other queue: the request goes out behind `out`, and the string behind the last end of a header
-- in the answer is shown, with tabs and line feeds made blank; then the socket is closed.
-- The answer is of at least three bytes, its length is a word, and the fuel is more than the length of the string.
pub get_page_lem :
    (fuel : ℕ) (s : WebSetting) (polls : Socket → Socket) (web_sck : Socket)
    (out q : List NetworkMessage) (msg : NetworkMessage) (j : ℕ) (l : List ℕ)
    → web_sck.message_queue_out ≡ some out
    → (polls (asked s out web_sck)).message_queue_in ≡ some (msg ∷ q)
    → 3 ≤ msg.len
    → msg.len < 2 ^ 32
    → j + 3 < msg.len
    → is_end (answer_page s msg) j ≡ true
    → ((k : ℕ) → j < k → k + 3 < msg.len → is_end (answer_page s msg) k ≡ false)
    → IsString (answer_page s msg) (j + 4) l
    → length l < fuel
    → get_page fuel s polls web_sck
      ≡ shown
          (print_text (map blank l) s.screen)
          (kclose (record (polls (asked s out web_sck)) { message_queue_in = some q }))
unfolding get_page read_page
get_page_lem fuel s polls web_sck out q msg j l queued answered enough word inside found last string
      fuelled =
    let (m, len) = http_get s.http_get_buf in
    let web_sck' : Socket = record (polls (asked s out web_sck)) { message_queue_in = some q } in
    let buf = memset s.http_response 0 0 0x1000 in
    ap (λ o. then_visit o (λ w. then_visit (kread (polls w.1) buf) (read_page fuel s)))
      (kwrite_done s.copy web_sck m len out queued)
    ∙ ap (λ o. then_visit o (read_page fuel s))
        (kread_done (polls (asked s out web_sck)) buf msg q answered)
    ∙ rw
        (
          show_page_lem fuel msg.len j (answer_page s msg) l s.screen enough word inside found last
              string fuelled,
          read_page,
        )
        refl
