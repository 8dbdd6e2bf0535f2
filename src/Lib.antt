-- ===== src/Lib.antt =====
-- The core of the QAIOS+ kernel: memory, page tables, events, strings, tasks,
-- commands, mount points, paths, JSON, and the network from frames to datagrams and TCP.
--
-- Parts and files:
--   Memory/Pmm   QKMemory/src/QKMemPMM.cpp, include/QKMemPMM.h: the physical memory manager, class
--                PMM. The record Pmm has its fields; allocate_page, free_page, allocate_pages,
--                free_pages, mark_region and initialize are its functions of those names.
--   Memory/Heap  QKMemory/src/QKMemHeap.cpp, include/QKMemHeap.h: the kernel heap, class Heap. The
--                chain of block headers is a list of blocks with their addresses.
--   Event        QEvent/include/QKEventTypes.h: what queues and buses read of an event.
--   Event/Queue  QEvent/src/QKEventQueue.cpp: the ring of 256 events ordered by priority.
--   Event/Bus    QEvent/src/QKMsgBus.cpp, include/QKMsgBus.h: the message bus, its subscriptions and
--                its reference-counted envelopes.
--   Event/Immediate  QEvent/src/QKEventQueue.cpp: the ring of 16 immediate events.
--   Event/Manager    QEvent/src/QKEventManager.cpp: posting, dispatch to listeners and receivers, and
--                    the processing loop, which runs on fuel since handlers may post without end.
--   Network/Tcp  QNetwork/src/QNetTCP.cpp: the TCP state machine; Network/Tcp/Table is its table of
--                connections and segments as bytes.
--   Event/Registry   QEvent/src/QKServiceRegistry.cpp: services by the hash of their name.
--   Memory/Vmm   QKMemory/src/QKMemVMM.cpp, include/QKMemPaging.h, kernel/Boot/Memory/EarlyMemory.cpp:
--                page tables and virtual memory, class VMM. Memory is a function from the physical
--                addresses of 64-bit words; map, unmap, translate and the others are its functions.
--   Core/Block   QCCore/src/QCMemUtil.c: memset, memcpy, memmove and memcmp on a memory of bytes.
--   Core/CString QCCore/src/QCMemUtil.c: the functions on terminated strings. A search for the
--                terminator has fuel, and a fuel above the length of the strings is enough.
--   Command/Registry  QCommand/src/QCCommandRegistry.cpp: the commands of the shell by name.
--   Files/Vfs    QFileSystem/src/QFSVFS.cpp: the mount table and the resolution of paths.
--   Files/Path   QFileSystem/src/QFSPath.cpp: the parts of a path, and joining and resolving paths.
--   Kernel/Tasks QKernel/src/QKTaskManager.cpp: the table of tasks.
--   Kernel/Scheduler  QKernel/src/QKScheduler.cpp: the scheduler over that table, and its ticks.
--   Json         QCSerialization/src/QCJson.cpp: the parser of JSON, with a fuel of twice the length of
--                the text and 1, which is enough for every text. Json/Number holds the numbers.
--   Network/Checksum  QNetwork/src/QNetIP.cpp: byte order and the checksum of packets.
--   Network/Ip   QNetwork/src/QNetIP.cpp: packets of the Internet protocol, and replies to echo requests.
--   Network/Udp  QNetwork/src/QNetUDP.cpp: ports, datagrams and their queues.
--   Network/Ethernet  QNetwork/src/QNetEthernet.cpp: frames, and the cache that finds the hardware address
--                of a host; the end of `IP::sendPacket` stands there too.
--   Network/Stack  QNetwork/src/QNetStack.cpp: the layers of a host together.
--   Json/Overlay  QCSerialization/src/QCJsonOverlay.cpp: values in layers, their parameters, and templates.
--   Base         Boolean tests, lists, words, bits and searches that the parts share.
--
-- How the parts meet: a frame goes from the Ethernet layer to the Internet protocol and on to UDP, and a
-- datagram the other way. The bus posts envelopes as events through the event manager and is called back
-- when they are dispatched. The virtual memory manager takes frames from the physical one and gives them
-- back; the scheduler reads and changes the table of tasks.
--
-- Conventions: a machine integer of w bits is a natural number, and its arithmetic wraps by % 2 ^ w
-- where the source's does. An array or a region of memory is a function of the index. An object that a
-- call changes is an argument and part of the result. A loop is recursion on the rounds that are left,
-- and the loop of `push` that moves events has 256 rounds, which is more than the ring has cells to
-- move. The loop that folds a checksum has two, after which the upper half of the sum is empty. Pointers
-- are addresses, 0 the null pointer. Where the heap may refuse memory the answer is an argument.
--
-- Not modelled: what the blocks of the heap and the buffers of TCP hold, logging, the hardware behind the
-- drivers, the user interface, the FAT file systems, the block cache, sockets,
-- cryptography, and the copy of miniz.
pub mod Base
pub mod Memory
pub mod Event
pub mod Network
pub mod Core
pub mod Kernel
pub mod Command
pub mod Files
pub mod Json
