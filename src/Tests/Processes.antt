-- ===== src/Tests/Processes.antt =====
-- The network of source/kernel/networking.c with concrete processes.
use kernel_on_qemu.Prelude.{suc, ◌≡◌, refl, none, some, List, [], ◌∷◌}
use kernel_on_qemu.Socket.{Process, done}
use kernel_on_qemu.Socket.Calls.{ksocket, with_arp_sck, connect_tcp}
use kernel_on_qemu.Network.Receive.{networking_rx_sort}
use kernel_on_qemu.Network.Transmit.{networking_tx_poll}
use kernel_on_qemu.Network.Invariant.{HasQueues}
use kernel_on_qemu.Network.Safety.{
  SocketsSafe, KeptAll, SortedSafe, networking_rx_sort-SortedSafe, networking_tx_poll-KeptAll,
}
use kernel_on_qemu.Network.Life.{unchanged, after, connecting_tcp, ksocket-HasQueues}
use kernel_on_qemu.Tests.Connection.{
  interfaces, pages, wire, fresh_socket, fresh_socket-HasQueues, hello, plain,
}

-- One process with a socket, one without.
abbrev processes : List Process
processes =
    record { sockets = some (fresh_socket ∷ []); arp_sck = none }
    ∷ record { sockets = none; arp_sck = none }
    ∷ []

networking_rx_sort-SortedSafe_example :
    SortedSafe (networking_rx_sort (λ d eth. suc d) (λ x. 0) hello plain 5 (some []) processes)
networking_rx_sort-SortedSafe_example =
    networking_rx_sort-SortedSafe (λ d eth. suc d) (λ x. 0) hello plain 5 [] processes
      ((fresh_socket-HasQueues, tt), (tt, tt))

networking_tx_poll-KeptAll_example :
    KeptAll (λ p. SocketsSafe p.sockets) (networking_tx_poll interfaces pages processes wire)
networking_tx_poll-KeptAll_example =
    networking_tx_poll-KeptAll interfaces pages processes wire
      ((fresh_socket-HasQueues, tt), (tt, tt))

abbrev no_socket : Process
no_socket = record { sockets = some []; arp_sck = none }

-- The task after its first socket.
abbrev with_socket : Process
with_socket = record (with_arp_sck 0 no_socket) { sockets = some (fresh_socket ∷ []) }

fresh_socket_made : ksocket 0 1024 no_socket ≡ done (fresh_socket, with_socket)
unfolding ksocket
fresh_socket_made = refl

ksocket-HasQueues_example : HasQueues (connect_tcp fresh_socket 0xC0A80105 80)
ksocket-HasQueues_example =
    ksocket-HasQueues interfaces pages 0 1024 no_socket with_socket fresh_socket
      (connect_tcp fresh_socket 0xC0A80105 80) fresh_socket_made
      (after unchanged (connecting_tcp fresh_socket 0xC0A80105 80))
