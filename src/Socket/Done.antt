-- ===== src/Socket/Done.antt =====
-- What ksocket, kread and kwrite of source/kernel/socket.c give when they are done.
use kernel_on_qemu.Prelude.{ℕ, ◌≡◌, refl, ap, Option, none, some, List, [], ◌∷◌, ◌++◌}
use kernel_on_qemu.Bytes.{Bytes, memcpy}
use kernel_on_qemu.Packet.{e_ok, NetworkMessage}
use kernel_on_qemu.Socket.State.{Socket, Process, Outcome, done, fault, s_write, s_null}
use kernel_on_qemu.Socket.Calls.{zeroed, with_arp_sck, ksocket, kwrite, kread}

-- The copy of a message that `kread` leaves in `buf`.
abbrev pub received : Bytes → NetworkMessage → Bytes
received buf msg = memcpy buf 0 msg.buf 0 msg.len

pub kread_done :
    (sck : Socket) (buf : Bytes) (msg : NetworkMessage) (q : List NetworkMessage)
    → sck.message_queue_in ≡ some (msg ∷ q)
    → kread sck buf ≡ done (msg.len, received buf msg, record sck { message_queue_in = some q })
unfolding kread
kread_done sck buf msg q e = rw (e, kread) refl

pub kwrite_done :
    (copy : Bytes) (sck : Socket) (m : Bytes) (len : ℕ) (q : List NetworkMessage)
    → sck.message_queue_out ≡ some q
    → kwrite copy sck m len
      ≡ done (
        e_ok,
        record sck {
          message_queue_out =
              some (q ++ (record { buf = memcpy copy 0 m 0 0x1000; len = len } ∷ []));
          status = s_write;
        },
      )
unfolding kwrite
kwrite_done copy sck m len q e = rw (e, kwrite) refl

pub ksocket_done :
    (intf port : ℕ) (p : Process) (l : List Socket)
    → p.sockets ≡ some l
    → (p' : Process) × (ksocket intf port p
        ≡ done (
          record zeroed { port_in = port; intf = intf; status = s_null; connect_status = s_null },
          p',
        ))
unfolding ksocket
ksocket_done intf port p l e =
    let sck : Socket = record zeroed {
      port_in = port;
      intf = intf;
      status = s_null;
      connect_status = s_null;
    } in
    let added : List Socket → Process =
      λ l'. record (with_arp_sck intf p) { sockets = some (sck ∷ l') } in
    let made : Option (List Socket) → Outcome (Socket × Process) =
      λ o. elim o [ none ↦ fault | some l' ↦ done (sck, added l') ] in
    (added l, ap made e)
