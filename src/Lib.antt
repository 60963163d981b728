-- ===== src/Lib.antt =====
-- The kernel of this repository: a single processor kernel for QEMU with preemptive tasks, a page
-- allocator, drivers for AHCI disks and an Intel network card, and a TCP/IP stack of its own.
--
-- The parts and how they interact. The timer interrupt (source/kernel/time.c, time.s) counts the
-- time slice of the running task and the ticks of the sleeping ones, and calls the scheduler
-- (source/kernel/scheduler.c) at the end of a slice; `sleep` raises interrupt 0x80, which calls it
-- too. Tasks open sockets (source/kernel/socket.c), which pass messages through queues
-- (source/kernel/queue.c) to and from two tasks of the network (source/kernel/networking.c): one
-- polls the sockets and builds the packets to send, one decodes what the card received and hands it
-- to the sockets, called by the polling task of the card's driver (source/kernel/intel_8254xx.c).
-- Packets go through tcp.c, udp.c, ipv4.c, arp.c and ethernet.c of source/kernel.
--
-- The files:
--   Words, Bytes, Text, Checksum: netswap.h, `memset` and `memcpy` of memory.c, string.c, checksum.c
--     of source/kernel.
--   Tasks, Delta, Scheduler, Time: scheduler.c, scheduler.h, time.c, time.h and time.s. Delta is the
--     delta queue of time.c. Scheduler.Invariant states what a state of the scheduler keeps;
--     Scheduler.Created and Time.Kept say what the operations keep,
--     Time.Steps is the system as a relation between such states; Time.Start is `time_init`.
--   Queue: queue.c, with its entries on a heap.
--   Interrupt: interrupt.c.
--   Output: print.c, serial.c, keyboard.c and vga.c. Output.Screen and Output.Serial are the functions,
--     Output.Hex, Shown, Sent and Clear say what they write. Reports: the functions of ahci.c,
--     networking.c, memory.c and scheduler.c that print their state, and mtrr.c and msr.c.
--   Kernel: kernel.c. Kernel.Start is the start up to the scheduler, Kernel.Web the client of a web
--     server, Kernel.Rounds the loops that do not end.
--   Memory: memory.c. Memory.Layout is `memory_init`; Memory.Lists, Memory.Alloc and Memory.Free are the
--     free lists, `kalloc` and `kfree`. Memory.Tree is the tree of blocks that the nodes hold;
--     Memory.Steps, Split, Choose and Supply compare `kalloc` to it, Memory.Joins, Merge, Coalesce,
--     Root and Release `kfree`; Memory.Pages, Freed, Taking and RoundTrip are about the pages that a
--     tree has in use, and Memory.Heap is about the heap as a whole. Memory.Levels, Kept and Links
--     are about the links that `kalloc` changes, and Memory.Chain and First about the list of
--     the largest blocks.
--   Ahci: ahci.c. Ahci.Transfer is `AHCI_write` and `AHCI_read`, Ahci.Identify is `AHCI_init`.
--   Intel: intel_8254xx.c. Intel.Init is the start of the card, with list.c and the start of
--     networking.c; Intel.Poll is the task that receives.
--   Pci: pci.c.
--   Dhcp: dhcp.c and dhcp_client.c. Dhcp.Client is the whole client with its calls of the sockets, and
--     Dhcp.Protocol and Dhcp.Failure say how it ends.
--   Packet: the structures of networking.h, packet.h and err.h.
--   Arp, Ethernet, Ipv4: arp.c, ethernet.c, and ipv4.c with udp.c and tcp.c.
--   Socket: socket.h and socket.c.
--   Network: networking.c but for its start. Network.Receive is `networking_rx_sort`, Network.Transmit is
--     `networking_tx_poll`, Network.Session is the life of one TCP socket,
--     Network.Handshake the packets that open it, Network.Life the life of any socket with the calls of
--     its task, and Network.Safety is about all sockets together.
--   Tests: the theorems at concrete inputs.
-- Types, functions and fields keep the names of the C code, in lower case where C has upper case.
--
-- How the code is modelled:
--   An unsigned integer is a natural number; where C wraps around, a definition reduces modulo the
--   power of two. An `|` of values with disjoint bits is a sum.
--   A page or buffer is a function from offsets to bytes, `Bytes`, and a pointer into it is an
--   offset. Elsewhere than in Memory the pages that kalloc returns, with whatever they hold, are
--   parameters.
--   A linked list that only its owner walks is a list: the task queue, the delta queue, the lists of
--   processes and of sockets, the ARP table. The entries of queue.c are on a heap of addresses,
--   where an address that is not allocated holds `none`; the queues of a socket are lists, for
--   which Queue.Fifo compares the two.
--   A dereference of NULL or of freed memory gives `none`, or `fault` for the calls of a socket.
--   A loop that waits with `sleep` is one try, which says whether it waits on.
--   `disable_interrupts` around a critical section makes the section one step. `sleep` is two steps,
--   since interrupts are on before it raises its own, and so is `task_create`, since they are on
--   between the list of processes and the task queue.
--   `Bytes` has no end: that a write stays in its page is a test where the code can leave it, in the
--   table of a transfer (Ahci.Transfer) and the message of a frame (Intel.Poll), which give `none`.
--   Node addresses of the allocator are a store of their own: the nodes do not overlap. A write
--   through NULL goes to the node 0, which is on no list; a loop that ends at NULL only is `none`.
--   Registers of a device are fields of a state, or a log of writes; what the device answers is a
--   parameter.
--   What the polling tasks do to a socket while a task waits in a call is a parameter of the clients.
--   The log that a component writes on the serial line and on the screen is left out.
-- The loops of the code run over lists, over a number of bytes, or over a fixed range, and are
-- structural recursion. The loops of `strlen`, over DHCP options,
-- over the page of a web server and on the status of the serial line have no bound in the code: they
-- take fuel, one unit for each round, and give `none` without it. So do the loops of the allocator over
-- halvings (33 rounds for a word of 32 bits), levels of a block (7, as a block of 128K has six) and
-- largest blocks (more than there are), and the loop over the regions of a transfer (more than there
-- are).
--
-- Not modelled: the lines of `kernel_main` between its start and its web client, which look for the
-- card and call the components in turn; the logs that components write on the serial line and the
-- screen while they work; the instructions behind `get_cpuid`, `read_msr`, `ioreadb` and `lidt`,
-- the assembly but for the task switch, and the boot loader.
pub mod Prelude
pub mod Words
pub mod Bytes
pub mod Text
pub mod Checksum
pub mod Output
pub mod Tasks
pub mod Delta
pub mod Scheduler
pub mod Time
pub mod Queue
pub mod Interrupt
pub mod Memory
pub mod Pci
pub mod Packet
pub mod Dhcp
pub mod Ahci
pub mod Arp
pub mod Ethernet
pub mod Ipv4
pub mod Socket
pub mod Network
pub mod Intel
pub mod Reports
pub mod Kernel
pub mod Tests
