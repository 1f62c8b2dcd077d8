-- ===== src/Lib.antt =====
-- Verification of the coursework for operating systems: the file system of project 4, the semaphore
-- system calls of project 2 with the traffic simulation that uses them and the exercises before it, and
-- the graphics library of project 1.
--
-- The file system (project04/cs1550.c) keeps everything in one file `.disk` of 512-byte blocks. Block
-- 0 is the root directory with up to 29 directories; the directory in entry i of the root has block
-- i + 1, with up to 17 files; a file has one block. Every call of FUSE opens the file, reads the
-- blocks it needs, and writes them back.
--   Cs1550/Disk.antt        the bytes of `.disk`; fseek, fread and fwrite of a block
--   Cs1550/Layout.antt      the packed structures and their bytes
--   Cs1550/Path.antt        get_filepath, with the sscanf, strcmp and strlen that the code uses
--   Cs1550/Errno.antt       the error numbers
--   Cs1550/Root.antt        get_subdirectory_starting_block, find_next_free_directory_starting_block,
--                           create_directory, cs1550_mkdir, cs1550_rmdir
--   Cs1550/Files.antt       get_file_starting_block, find_next_free_file_block, and the helpers that
--                           copy a structure from or to the disk
--   Cs1550/Transfer.antt    cs1550_read and cs1550_write
--   Cs1550/Attributes.antt  cs1550_getattr, cs1550_readdir, cs1550_unlink, cs1550_truncate,
--                           cs1550_open, cs1550_flush
--   Cs1550/Mknod.antt       cs1550_mknod
--   Cs1550/Session.antt     the table of operations, and sequences of calls
-- A call takes `Option Disk` (`none` is a `.disk` that cannot be opened) and gives an outcome: what
-- the function returns and leaves, or `fault` where its behaviour is undefined. A C array is the list
-- of all its bytes. The proofs about a part lie in the folder of its name. Root/Names.antt is the
-- abstract view of the root directory: a list of names in order of creation. Tree.antt is the abstract
-- view of the whole disk: folders with files, each with a name, an extension and its contents.
-- Tree/Stands.antt says when a disk stands for a tree; Tree/Blank.antt is about a disk of zeros;
-- Tree/Place.antt, Tree/Names.antt and Tree/Present.antt find a folder, a name and a file on the disk;
-- Tree/Change.antt is about a change of one folder and of one block of a file. Tree/Make.antt,
-- Tree/Write.antt, Tree/Contents.antt, Tree/Overwrite.antt, Tree/Read.antt, Tree/Listing.antt and
-- Tree/Stat.antt are about the calls, one by one. Session/Answered.antt and Session/Transfers.antt
-- answer one call of a sequence, on directories and on files, and Session/Answers.antt all of them.
-- A tree is followed as far as the program keeps to it: up to 17 folders (the eighteenth gets the first
-- block of the files), files of 1 to 510 bytes without a null (a null at the start frees the block),
-- no mknod (it garbles the directory), and getattr of a path with a file name only where the folder is
-- not there or has a file with its own name (else it answers from memory that nothing has set).
--
-- The semaphores (project02/trafficsim/adp59-project2/sys.c, its end) are a value and a queue of
-- processes under one spin lock.
--   Kernel/Queue.antt       the linked list of processes on an explicit heap: initializeQueue,
--                           enqueue, dequeue
--   Kernel/Semaphore.antt   sys_cs1550_sem_init, sys_cs1550_down, sys_cs1550_up
-- The queue stands for a list (Kernel/Queue/Chain.antt), the semaphore for a value and the processes
-- that wait (Kernel/Semaphore/Contract.antt); Kernel/Semaphore/Schedule.antt is about all orders in
-- which processes can call it.
--
-- The traffic simulation (project02/trafficsim/adp59-project2/trafficsim.c) is three processes over one
-- struct Road with five such semaphores.
--   Traffic.antt            north_road_producer, south_road_producer and consumer, one system call or
--                           the code between two of them at a time
--   Traffic/System.antt     the initial state of main and mapSharedMemory, and the runs: a process that
--                           waits in a semaphore takes no step
--   Traffic/Slots.antt, Traffic/Bounds.antt      the indices and the slots of the south road
--   Traffic/Mutex.antt, Traffic/Exclusion.antt   the semaphore sem_mutex
--   Traffic/Waiting.antt    who waits in the semaphores of a road, against the road's counter
--   Traffic/Progress.antt, Traffic/Service.antt  that this is kept by the steps of the processes
--   Traffic/Room.antt       the cars on the roads against the slots that are given back
--   Traffic/Deadlock.antt, Traffic/Batch.antt    waiting for each other, and the two inner loops
-- Its semaphores are the value and the waiting processes of Kernel/Semaphore/Contract.antt.
-- The version with POSIX semaphores (project02/trafficsim/trafficsim_POSIX.c) has the same places and
-- roads:
--   Traffic/Posix.antt      its three processes, in front of which semaphore they wait, and the runs
--   Traffic/Posix/Cars.antt the cars of a road against the semaphore that counts them
--   Traffic/Posix/Invariant.antt, Traffic/Posix/Safety.antt   what the runs keep
--
-- The graphics library (project01/library.c) draws into the bytes that mmap returns for /dev/fb0.
--   Graphics.antt           draw_pixel, draw_rect, draw_single_character, draw_text and
--                           color_entire_screen, on the list of the mapped bytes; a store outside it
--                           is a fault
--   Graphics/Pixels.antt, Graphics/Drawing.antt  where the pixels are, and sets of pixels that are drawn
--   Graphics/Rect.antt, Graphics/Glyph.antt, Graphics/Text.antt, Graphics/Fill.antt   the shapes
--   Graphics/Terminal.antt  init_graphics, exit_graphics, clear_screen, getkey and sleep_ms
--   Graphics/Square.antt    project01/square.c, which moves a square with the library
--   Graphics/Moving.antt    the pictures it leaves
--   Graphics/Story.antt     project01/driver.c, which shows a story line by line
--   Graphics/Telling.antt   the stories that fit on the screen
-- The font of iso_font.h is a parameter, and so are the answers of the system calls. clear_screen has
-- write send two bytes more than its literal has; what lies there is a parameter too. A page of memory
-- behind the mapping does not count as part of it.
--
-- The exercises of project02/trafficsim.
--   Exercises/Ring.antt     queue.c, with a list with a bound in Exercises/Ring/Fifo.antt
--   Exercises/Linked.antt   simple_queue.c, on the nodes of Kernel/Queue.antt, with a list in
--                           Exercises/Linked/Trace.antt
--   Exercises/ProdSem.antt  prod_sem.c, two threads with a mutex and two semaphores
-- The first two are run on any sequence of calls, and compared with the same calls on the list.
--
-- Bounds. An int has 4 bytes, a long and a size_t 8 (the 64-bit ABI, for which the file says "17").
-- Values that the source leaves indeterminate (memory fresh from malloc, locals that are gone, an
-- uninitialised entry) are the fields of a record `Residue` that a call is given. All loops are
-- structural recursion, so no fuel is used. The value of a semaphore of the kernel is an int, which wraps
-- around; in the traffic simulation it is an integer without bounds.
--
-- Assumed of the surroundings: fwrite and kmalloc succeed; two calls of the file system do not
-- overlap; a process that sleeps is woken by up alone and not by a signal. The lines that the file
-- system prints are left out, but for the blocks that the search for a free block prints; the names on
-- the disk that the others print are taken to hold a null. The stores of get_filepath
-- just outside its arrays, and the bytes that mknod reads behind the extension, are taken to meet
-- nothing that is in use.
--
-- The answer of carArrives is an argument of a step, and the counters have no bounds. A framebuffer
-- has its size, its line length and its depth as the calls of init_graphics left them.
--
-- Not modelled: main of cs1550.c, which passes the table to fuse_main, the rest of the kernel's sys.c, the
-- earlier copy of the traffic simulation, the exercises that only call POSIX, bounded_buffer.c, hello.c
-- (the example of FUSE), the Python programs of project03, and the vendored FUSE.
pub mod Common
pub mod Cs1550
pub mod Kernel
pub mod Traffic
pub mod Graphics
pub mod Exercises
