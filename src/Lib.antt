-- ===== src/Lib.antt =====
-- Methylenix, an operating system kernel in Rust: its collections, locks, physical memory and
-- object allocators, page tables, the run queue, the timers, and the IPv4, UDP and TCP layers.
--
-- The parts and their files (paths from the repository's root):
--   LinkedList        src/kernel/collections/ptr_linked_list.rs, on which the queues of the kernel stand: a
--                     store of nodes by address, and each operation as a function of the list and the store.
--                     Chain has the invariant; Insert, Between, Remove and Iter the operations' theorems.
--   RingBuffer        src/kernel/collections/ring_buffer.rs, the byte ring of the sockets.
--   Fifo              src/kernel/collections/fifo.rs. Items has the values between the pointers, Refine the
--                     list of bounded length that the queue implements.
--   Memory            src/kernel/memory_manager/data_type.rs (Size, Order, PageOrder, Index, Permission),
--                     physical_memory_manager.rs (Physical, and Align for the alignment), and
--                     slab_allocator.rs with slab_allocator/pool_allocator.rs (Pool, Slab). Of Physical, Areas
--                     has the free bytes, Replace and FreeList the lists by order, Take and Used
--                     reserve_memory, and Search and Alloc the allocation.
--   TaskManager       src/kernel/task_manager: Thread and Slice are thread_entry.rs and scheduling_class.rs,
--                     RunQueue and RunQueue/Schedule are run_queue.rs. Order and Remove have the lists by
--                     priority, Valid the invariant, Find, Retire, Keep, Choose, Switch and Total the
--                     parts of _schedule, Run its callers, and Join the threads that come and the ticks.
--                     WaitQueue is wait_queue.rs, on the pointers of LinkedList.
--   TimerManager      the local timers of src/kernel/timer_manager.rs; Queue has the order of the list and what the
--                     handler takes from it.
--   Sync              src/kernel/sync/spin_lock.rs (SpinLock, Sequence) and sync/rwlock.rs (RwLock). A step is
--                     one atomic access of one thread; an interleaving is a sequence of steps.
--   Network           src/kernel/network_manager.rs; Ipv4 and Ipv4/Handler are ipv4.rs (Checksum and Delivery
--                     have what a receiver finds), Udp is udp.rs, and Tcp with its children is tcp.rs: Dispatch (tcp_ipv4_segment_handler), Acknowledge
--                     (ipv4_tcp_ack_handler), Close (ipv4_tcp_fin_handler, close_tcp_session), Receive
--                     (ipv4_tcp_data_handler, which writes into the RingBuffer) and Send
--                     (send_tcp_ipv4_data); Waiting has the handlers one after the other.
--   Paging            src/arch/x86_64/paging: Entry with Pte, Pde, Pdpte and Pml4e are the entries (pte.rs, pde.rs,
--                     pdpte.rs, pml4e.rs), State is the memory and the physical memory manager as the code
--                     sees them, Target has get_target_pdpte to get_target_paging_entry of mod.rs, Manager
--                     associate_address, associate_area and change_memory_permission, Cleanup
--                     unassociate_address and cleanup_page_table. Walk is the processor's translation, Tree
--                     the invariant of the tables. Create, Make, Reach and Levels follow the creation of
--                     missing tables, Lookup the search, Fade, Emptied, Page, Cleaned and Tidy the removal, and
--                     Failure an allocation that fails.
--   Base              Boolean tests, lists over native numbers, machine words, code that can panic.
-- An arriving packet goes from ipv4_packet_handler to the handler of UDP or TCP; that of TCP opens a
-- session or calls the handler of the acknowledgement, the FIN or the data. The page tables of Paging
-- take their pages from the physical memory manager through the interface PhysicalPages.
--
-- Conventions. Functions keep their names. The kernel is built with `--release`: `+`, `-` and `*` on
-- machine words wrap and shifts mask their amount, which Base/Words writes out. A failed `assert!` and
-- an `unwrap` of `None` are the `none` of `Panics`. A `Result` is Network's `Result`, an option or a
-- type of its own.
--
-- Fuel. The loop of `MOrder::from_offset` has 64 rounds, one for each bit of a size. A loop over a
-- list has at least as many rounds as the list has nodes. `send_loop` has a round for each byte, since
-- each round sends one at least. `drain` and `wakeup_all` have a round for each queued segment or
-- thread, since each removes one. `associate_area` has a round for each page and one more.
-- `SlabAllocator::alloc` calls itself once when the pages hold an object.
--
-- Lists. The run queue, and the queues of TimerManager and Memory/Physical are lists of what the
-- source links; an entry is known by its address or its area, and a neighbour is found by a search for
-- it.
--
-- Parameters: whether the allocator of run lists and the pool of timers have an object, and whether
-- the work queue takes a work; whether the task manager can wake up a thread of the wait queue; the
-- page allocator under Slab, and under Network the heap (`kmalloc!`) and the network device, each a
-- function that answers any way it likes. Under Paging, PhysicalPages stands for `alloc` and `free` of
-- the physical memory manager, with its laws: a page that it hands out was not in use.
--
-- Not modelled: the weak memory order of the atomics (accesses are sequentially consistent), the
-- interrupt-saving locks, `free` of the physical memory manager, virtual memory, sockets, DHCP and
-- Ethernet, the creation of tasks, the work queue, add_current_thread of the wait queue, the clocks
-- and busy waits of the timer manager, files, ACPI with AML, the device drivers, AArch64, and of
-- x86_64 all but the paging; of that the creation of a page map, unassociate_address_width_size, the
-- flush of the TLB and the dump. A context switch ends the model of `_schedule`.
pub mod Base
pub mod Fifo
pub mod LinkedList
pub mod Memory
pub mod Network
pub mod Paging
pub mod RingBuffer
pub mod Sync
pub mod TaskManager
pub mod TimerManager
