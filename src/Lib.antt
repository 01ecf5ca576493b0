-- ===== src/Lib.antt =====
-- A model of the xivix kernel (kernel/), in the parts that carry its own logic.
--
-- Each source file is a module: its state is a record, each function a function on that record, in the
-- order of the statements of the source. Machine words are natural numbers with their wrap-around
-- written out as a remainder (Base/Word); `|`, `&` and `^` are the operations on binary digits
-- (Base/Bits); arrays are lists (Base/Arrays).
--
-- Keyboard   kernel/dev/keyboard.cpp: push_key, pop_key, has_key, key_down, key_up, port_data, remove.
--            Keyboard/Queue is the buffer, Keyboard/Decode the decoder, Keyboard/Modifiers the held keys,
--            Keyboard/Stream the whole path from the bytes to the buffer, Keyboard/Reset the system reset.
-- Cmos       kernel/dev/cmos.cpp: add_second, irq, and init from the first read of the time on.
--            Cmos/Time is the time of day, Cmos/Calendar the date, Cmos/Irq the interrupts, Cmos/Load the
--            registers.
-- Net        kernel/net/queue.cpp and kernel/net/packet.hpp. Net/Packet has the accessors of a packet, which
--            is a function from the index to the byte. Net/Checksum is `ipchksum`; its loops run by the
--            number of rounds, and the fold needs at most two passes (fuel 3). Net/Frame fills ARP frames,
--            Net/Timer is `runsched`, Net/Arp the ARP table with everything that changes it. Net/Ip fills and
--            handles IPv4, UDP and ICMP. Net/Dhcp is the DHCP client: `run` is a timer step, Net/Dhcp/Recv
--            is `recv`, where the scan of the options has fuel for every byte that is left, Net/Dhcp/Send
--            the bytes of a request.
--            `request_packet` is an argument (a buffer or none), a transmitted packet a result.
-- VirtTerm   kernel/vterm.cpp: the terminal. Its loops run by the number of cells. VirtTerm/Scroll has the
--            loop that moves the rows, VirtTerm/Rows the screen after it, VirtTerm/Cursor the cursor.
-- Scheduler  kernel/scheduler.cpp: the task slots. `visit` is a round of the loop of `run` up to the switch to
--            a task, `finish` the rest of it after the switch back; Scheduler/Reach has the steps and their
--            sequences, Scheduler/Wake the interrupts that wake a task.
-- Memory     kernel/memory.cpp: the allocators of physical and virtual memory. An allocator is its table of
--            extents, which every loop visits whole (`find_extent`); Memory/Add, Replace, Join and Inside are
--            the cases of `set_extent`, Memory/Set all of them. The specification is Memory/Cover: for an
--            address, the number of extents that hold it, each with the weight of its kind. Memory/Trie is
--            `set_trie_extent` (20 rounds, one for each bit of the address that it reads), Memory/Allocate
--            `allocate`, which works on an allocator in a larger state (`Part`) and has the calls of
--            `vmm_request` as an argument, Memory/Load the memory map of the boot loader, Memory/Paging the
--            page tables, where `map_pages` takes the number of rounds after the first. Memory/Vmm puts both
--            allocators and the page tables together: `vmm_request`, whose depth is the number of calls
--            inside each other, and `kmalloc`. Where there is a free extent for each need there is no such
--            call, and depth 0 is enough. Memory/Vmm/Fresh counts free pages, Memory/Vmm/Mapped is the loop
--            that maps them, Memory/Vmm/Area the virtual pages, Memory/Vmm/Kmalloc and Memory/Vmm/Device
--            the requests for memory and for a device, Memory/Vmm/Exhausted a request that fails. Memory/Start is `initialize`.
-- Ps2        kernel/dev/ps2.cpp: the controller of the PS/2 ports. Ps2 has the buffer of codes that interrupts
--            fill, Ps2/Ports the clients and the state machine for a byte, Ps2/Handle the loops of `handle`
--            (one round for each code that waits), Ps2/Control `init`, Ps2/Drivers the start of the two
--            drivers, where the answers of a device are an argument, and Ps2/Mouse the mouse. A byte for a
--            driver is an event; Keyboard has what the keyboard does with it.
-- Text       kernel/ktext.cpp: the printing of numbers (the 20 digits of iprintdec are its room) and, in
--            Text/Format, ivprintf as a state machine over the characters of the format. Text/ReadBack reads
--            the numbers back.
-- Ethernet   kernel/dev/e1000.cpp: the driver of the Ethernet card. Ethernet has the rings, transmit, addreceive and
--            the loops of processqueues, where a null reference that is used is `none`; Ethernet/Process puts
--            them together, Ethernet/Init is the constructor and `init`, whose waits have as fuel the number of
--            reads after which they give up. The loops over the rings run 128 rounds, the size of a ring.
--            Ethernet/Counted and Ready have the invariant, Receive, Fresh and Frames the received frames, Passes
--            and Queues the passes, Run the whole driver, Transmit the queue of packets to send. The network
--            layer that takes a frame and `net::runsched` are arguments; they may keep references to packets
--            between their calls, as the DHCP client keeps its offers. Net/Pool has the packets and their
--            counts.
-- Pci        kernel/dev/pci.cpp and instance_pci of kernel/dev/drivers.cpp: the scan of the PCI bus. The state is the
--            value of every register; `dev_dump` has a depth, the number of bridges that it may go through.
--            Pci/Address is the addresses, Pci/Bars the areas, Pci/Same the registers that do not change,
--            Pci/Functions and Pci/Scan the devices that are found. The driver that `instance_pci` starts writes
--            the command register of its card.
-- Kmain      kernel/kmain.cpp: `memset` (Kmain/Memset, and Kmain/Fill for what it fills), the key maps (Kmain/Keymap) and
--            the command line (Kmain/Console), whose state is the line, and whose commands are values. Kmain/Commands is
--            which commands a line has, Kmain/Typing the characters of a line, and Kmain/Line puts it behind the buffer
--            of the keyboard.
-- Random     kernel/random.cpp: ChaCha and ixa4random. A state is a list of sixteen words; `mix` has a round for each word
--            of its input, of which a round takes one at least. Random/Rounds is what the rounds keep of a state,
--            Random/Numbers the numbers that are given.
--
-- Not modelled: what the hardware does (port accesses are arguments of the model), the console output of
-- the functions, the assembly files, the displays, ACPI and its AML, IPv6,
-- and the start of the kernel.
pub mod Base
pub mod Keyboard
pub mod Cmos
pub mod Net
pub mod VirtTerm
pub mod Scheduler
pub mod Memory
pub mod Ps2
pub mod Text
pub mod Ethernet
pub mod Pci
pub mod Kmain
pub mod Random
