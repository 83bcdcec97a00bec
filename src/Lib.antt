-- ===== src/Lib.antt =====
-- The NtmOS kernel: a kernel in C for 32-bit x86 machines. This library models the kernel's core and
-- proves what makes each part of it correct.
--
-- Parts and how they interact. The interrupt handlers allocate event nodes on the kernel heap and
-- put them into the event queue of the running task; the timer interrupt walks the list of armed timers
-- and calls `switch_task`, which takes the next task from the ready queue. A new task is a process
-- slot with a kernel stack from the heap and 1 MB of user memory.
--
--   Prelude       what the parts share: tests on numbers, arrays as lists, signed integers, the byte
--                 memory, linked lists through `next` cells, searches for a free slot, and `Run`, the
--                 ways in which a call into the kernel can end.
--   EventQueue    tasks.c, kernel_inits.h: initial_task_event_queue, enqueue_event_queue and
--                 dequeue_event_queue over a circular array of 1024 pointers. Fifo is the promise,
--                 Inv the invariant, Refine the refinement.
--   KHeap         k_heap.c: k_malloc and k_free. Scan is the search for free pages, Malloc the
--                 outcome of a request, Free the blocks in use.
--   KTimer        k_timer.c, k_timer.h: the timer slots (Slots) and the list of armed timers (Armed).
--   Mm            mm.c: page frames (Frames) and user memory slots (UserSlots).
--   Tasks         tasks.c, tasks.h, and the new task of kernel.c: the ready queue and switch_task
--                 (Scheduler), process slots, task_init and start_task (Lifecycle), and their segment
--                 descriptors (Tables).
--   KString       kstring.c: copies (Copy), comparisons (Compare), reversal (Reverse), C strings
--                 (Text), number printing (Number) and k_sprintf (Format).
--   Console       gui.c: the text console, its scrolling (Scroll) and its cursor (OnScreen).
--   Keyboard      keyboard.c, keyboard.h: the table of scan codes (Pairs relates press and release).
--   Serial        serial_port.c over a device: Sending is the text that leaves by the port.
--   Interrupts    interrupt_handlers.c, and the output of a byte: the events that the handlers
--                 post (Events, Posting), the timers that the timer interrupt takes out (Due, Expiry),
--                 and the whole timer interrupt (Tick).
--   Segments      segments.c, segments.h: the descriptors that are installed (Descriptor) and the
--                 first table (Flat).
--   HardDisk      harddisk.c, harddisk.h: reading sectors (Read) and the search for disks (Detect), over
--                 the ports of a device. Drive says what the code relies on of a drive, and how fast it
--                 is to be for a read that does not wait for it.
--   Drawing       gui.c: filled boxes (Boxes) and the glyphs of characters (Glyphs), which are a
--                 parameter.
--   Layers        gui.c, gui.h: the window layers. Stack holds the loops that shift the stack, Reorder
--                 the order that a screen shows, Moves and Moved one move of a layer, Depth the whole
--                 of mov_layer_z, Refresh, Blit and Pixels what a refresh draws.
--   Startup       kernel_inits.c, and the calls of kernel.c that program the devices: the interrupt
--                 gates (Gates), the page tables (Pages) and the interrupt controllers (Pics, over what
--                 Machine says of the hardware).
--   FileSystem    fs.c, fs.h: the partition table (Partitions), the layout of a FAT16 partition (Layout),
--                 the search in the root directory (Directory, and Names for what it finds), and the
--                 reading of a file (Files).
--   Palette       k_vga.c: the palette (Colours is what the video card makes of it).
--
-- Conventions. A number of the C code is a natural number, and a 32-bit sum keeps its wrap-around
-- written out. A pointer to slot `i` of a static array is the number `i + 1`, and null is 0. A cell
-- that a `T **` can point to is numbered: 0 is the list's head variable and `p` is `p->next`. The
-- names of the C functions are kept.
--
-- Fuel. The search of k_malloc has fuel for every page of the bitmap, and each round passes at least
-- one page. The other loops take their fuel as an argument: more than there are timers is enough for
-- the walk of k_set_timer_time and for the timer interrupt, more than the length of a string for a
-- loop over it, 33 for the digits of a number, and more than the
-- looks for which a device is busy for a wait. A list of timers that is a cycle, which the code
-- can build, runs out of any fuel.
--
-- Not modelled. The diagnostic messages of the task functions and the saving of the interrupt flag;
-- the assembly files; the font; and the parts that no file above names. In the handlers, the console
-- and the tasks a byte that is read from a port is an argument, and the bytes sent to ports are a
-- trace; elsewhere they go to a device.
pub mod Prelude
pub mod EventQueue
pub mod KHeap
pub mod KTimer
pub mod Mm
pub mod Tasks
pub mod KString
pub mod Console
pub mod Keyboard
pub mod Interrupts
pub mod Segments
pub mod HardDisk
pub mod Drawing
pub mod Layers
pub mod Serial
pub mod Startup
pub mod Palette
pub mod FileSystem
