-- ===== src/Lib.antt =====
-- A model of the character driver `aesdchar`, of the socket server that is built over it, and of
-- the search page and the folding sections of its documentation.
--
-- Parts. A write to the device collects bytes until a newline, and then moves them, as one
-- command, into a circular buffer of ten; reads, seeks and the ioctl AESDCHAR_IOCSEEKTO see the
-- commands as one stream of bytes. The server has a thread for each client: it writes what the
-- client sends to the device, answers a line with the whole stream, and answers a command to seek
-- with the stream from its target on. The documentation's page has a search box and a list of
-- results that a keyboard can walk.
--
--   Circular   aesd-char-driver/circular-buffer: aesd_circular_buffer_init, _add_entry,
--              _remove_entry and _find_entry_offset_for_fpos, as functions on the structure
--   Memory     the kernel's memory: live blocks by address, with a mark for a bad access or a
--              second free; the allocator is a parameter with its documented laws
--   Driver     aesd-char-driver/char-driver and main.c: aesd_write, aesd_read, aesd_llseek,
--              aesd_unlocked_ioctl, aesd_handle_write_buffer, aesd_handle_complete_command,
--              aesd_cleanup_device, aesd_init and aesd_exit. Driver.Ownership says which pointer owns
--              which block, Driver.Log what a client sees
--   Server     server/aesdsocket_app/src: write_all of socket_ops.c (Transfer), handle_client of
--              thread_manager.c (Session), over the driver's own operations, and its list of
--              threads (Threads): nodes at addresses, and how the clean-up waits for threads;
--              server/aesdsocket.c, setup_server_socket and cleanup_on_signal (Main)
--   Search     docs/html/search/search.js: convertToId (Ids), SearchResults (Results, Navigate;
--              FindChildElement in Tree), SearchBox (Box, Navigate, Popup), createResults (Build),
--              init_search (Popup), the constructor and SearchBox.Search as a whole (Panel)
--   Folding    docs/html/dynsections.js: the sections that fold, the rows of a directory
--              (Rows, Directory) and the blocks of a listing (Listing)
--   Menu       docs/html/menu.js and menudata.js: the markup of the menu (Tree) and of the search
--              box (Start), and the place of the search box (Start.Resized, Start.Placed)
--   Programs   examples/systemcalls/systemcalls.c, examples/threading/threading.c and
--              finder-app/writer.c
--   Common     names and lemmas that all share
--
-- A function that updates a structure through a pointer returns the new structure; a pointer that
-- may be NULL is an Option. `size_t` arithmetic is written modulo 2^64, the eight-bit counters
-- modulo 256. What the kernel decides during one call (an interrupted wait, bytes that a user
-- copy leaves, a refused registration) is an argument of the operation. Each operation of the
-- driver runs under the device's mutex, so that calls follow one another.
--
-- The server's view of the system is `Answers`: what each call answers, by the number of calls
-- made before, whether it is refused, how often it is interrupted and repeated, how many bytes it
-- moves. `sscanf` is a parameter, and so are the calls of jQuery (`Query`, with what it documents
-- in `IsQuery`). What other threads of the server did to the device before this one obtained the
-- mutex is `between`; while it holds the mutex no other thread of the server uses the device.
--
-- Rounds. The loops of the C code count down what is left: at most 255 entries to search, the
-- commands before a target. `NavNext` is given one more round than the highest numbered item,
-- since an item that does not exist ends it. The loop of `write_all` has a round for each byte
-- left, since a call that moves none ends it, and a loop that reads the device one for each byte
-- there is. A loop over the list of threads has a round more than a bound on its length.
--
-- Not modelled: printing, `open` and `release` of the driver (which store one pointer), the older
-- servers in one file, the programs that only print, the scripts; of the search page the focus that
-- moves to the selection menu, and what the browser makes of a text of HTML.
pub mod Common
pub mod Circular
pub mod Memory
pub mod Driver
pub mod Server
pub mod Search
pub mod Folding
pub mod Menu
pub mod Programs
