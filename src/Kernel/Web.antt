-- ===== src/Kernel/Web.antt =====
-- The client of a web server in `kernel_main` of source/kernel/kernel.c.
use kernel_on_qemu.Prelude.{
  ℕ, zero, suc, ◌+◌, Bool, ◌&&◌, ◌||◌, Option, none, some, ◌>>=◌, List, [], ◌∷◌, String, codes,
  length, ◌==◌, if◌then◌else◌,
}
use kernel_on_qemu.Words.{sub32}
use kernel_on_qemu.Bytes.{Bytes, write8, memset, memcpy}
use kernel_on_qemu.Packet.{NetworkInterface}
use kernel_on_qemu.Arp.{ArpTable}
use kernel_on_qemu.Socket.State.{Socket, Process, Outcome, done, waits, fault, socket_protocol_tcp}
use kernel_on_qemu.Socket.Calls.{
  Connect, ksocket, kconnect, kwrite, kread, kclose, await_address, await_open,
}
use kernel_on_qemu.Output.Screen.{Screen, print_string}

abbrev pub webserver_ip : ℕ
webserver_ip = 0xC0A8016F

-- The object that holds a list, with zeros behind it.
abbrev pub object : List ℕ → Bytes
object [] x = 0
object (c ∷ l) zero = c
object (c ∷ l) (suc x) = object l x

-- `memcpy(http_cpy_ptr, text, strlen(text)); http_cpy_ptr += strlen(text);`
unfoldable pub append_text : String → Bytes × ℕ → Bytes × ℕ
append_text text (m, p) = let l = codes text in (memcpy m p (object l) 0 (length l), p + length l)

-- The request, and its length, in a page that held `http_get_buf`.
unfoldable pub http_get : Bytes → Bytes × ℕ
http_get http_get_buf = append_text "Accept: */*\r\n\r\n" (
    append_text "User-Agent: kernel\r\n"
      (append_text "Host: 192.168.1.111\r\n" (append_text "GET / HTTP/1.1\r\n" (http_get_buf, 0))))

-- The end of the header stands at `i`.
abbrev pub is_end : Bytes → (i : ℕ) → Bool
is_end m i = m i == 0xD && m (i + 1) == 0xA && m (i + 2) == 0xD && m (i + 3) == 0xA

-- The loop over `n` offsets from `i` on; `none` is NULL.
unfoldable pub find_body : (n i : ℕ) → Bytes → (http_response_body : Option ℕ) → Option ℕ
find_body zero i m body = body
find_body (suc n) i m body = find_body n (i + 1) m (if is_end m i then some (i + 4) else body)

-- The body of the loop below.
unfoldable pub blank_at : Bytes → (p : ℕ) → Bytes
blank_at m p = if m p == 0x9 || m p == 0xA then write8 m p 0x20 else m

-- The loop that makes tabs and line feeds blank. `none`: no zero within the fuel.
unfoldable pub blank_lines : (fuel : ℕ) → Bytes → (p : ℕ) → Option Bytes
blank_lines zero m p = none
blank_lines (suc fuel) m p =
    let rest = blank_lines fuel (blank_at m p) (p + 1) in if m p == 0 then some m else rest

-- What is made of an answer of `http_response_len` bytes. A read through NULL is a fault.
unfoldable pub show_page : (fuel : ℕ) → Bytes → (http_response_len : ℕ) → Screen → Option Screen
show_page fuel m http_response_len screen =
    find_body (sub32 http_response_len 3) 0 m none >>= λ body.
    blank_lines fuel m body >>= λ m'. print_string fuel m' body screen

-- How far the client comes: the answer is on the screen and the socket is closed or waits to be, it
-- waits for the network, or it has faulted or found no end.
pub data Visit : Type 0 where
  shown : Screen → Outcome Socket → Visit
  pending : Visit
  crashed : Visit

abbrev pub then_visit : {A : Type 0} → Outcome A → (A → Visit) → Visit
then_visit (done a) f = f a
then_visit waits f = pending
then_visit fault f = crashed

-- The pages that the client and the calls allocate, with what they held; the interface and its name,
-- the task's sockets and the ARP table.
pub record WebSetting : Type 0 where
  pub intf_name : ℕ
  pub intf : NetworkInterface
  pub process : Process
  pub table : ArpTable
  pub http_get_buf : Bytes
  pub http_response : Bytes
  pub copy : Bytes
  pub screen : Screen

-- From the answer on.
unfoldable pub read_page : (fuel : ℕ) → WebSetting → (ℕ × Bytes × Socket) → Visit
read_page fuel s (http_response_len, http_response, web_sck) =
    elim (show_page fuel http_response http_response_len s.screen) [
      | none ↦ crashed
      | some screen ↦ shown screen (kclose web_sck)
    ]

-- From the connection on: `polls` is what the polling tasks make of the socket until the answer.
unfoldable pub get_page : (fuel : ℕ) → WebSetting → (polls : Socket → Socket) → Socket → Visit
get_page fuel s polls web_sck =
    let (m, len) = http_get s.http_get_buf in
    then_visit (kwrite s.copy web_sck m len)
      λ w. then_visit (kread (polls w.1) (memset s.http_response 0 0 0x1000)) (read_page fuel s)

-- The waits of `kconnect`, for the address (`learns` is what becomes of the table) and for the
-- handshake (`opens` is what becomes of the socket). Its code is not looked at.
unfoldable pub finish_connect :
    (learns : ArpTable → ArpTable)
    → (opens : Socket → Socket) → (sck : Socket) → Connect
    → Outcome Socket
finish_connect learns opens sck (Connect.returned code web_sck) = done web_sck
finish_connect learns opens sck (Connect.opening web_sck table) =
    elim (await_open (opens web_sck)) [
      | done code ↦ done (opens web_sck)
      | waits ↦ waits
      | fault ↦ fault
    ]
finish_connect learns opens sck (Connect.resolving arp_sck table) =
    elim (await_address sck webserver_ip 4800 (learns table)) [
      | done (web_sck, table') ↦ elim (await_open (opens web_sck)) [
        | done code ↦ done (opens web_sck)
        | waits ↦ waits
        | fault ↦ fault
      ]
      | waits ↦ waits
      | fault ↦ fault
    ]
finish_connect learns opens sck Connect.faulted = fault

unfoldable pub web_client :
    (fuel : ℕ)
    → WebSetting
    → (learns : ArpTable → ArpTable) → (opens polls : Socket → Socket) → Visit
web_client fuel s learns opens polls = then_visit (ksocket s.intf_name 80 s.process) λ r.
    then_visit
      (finish_connect learns opens r.0 (
        kconnect s.copy s.http_get_buf s.intf r.1.arp_sck r.0 webserver_ip 4800 socket_protocol_tcp
          s.table))
      (get_page fuel s polls)
