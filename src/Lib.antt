-- ===== src/Lib.antt =====
-- Verification of LambOS, a hobby operating system for i386 in C++.
--
-- The kernel allocates page frames from two bitmaps, maps pages to them, chooses the process to
-- run, reads the keyboard, prints to the VGA text screen, finds files on an ISO 9660 disc, reads
-- them through a cache, reads ELF binaries, and keeps its data in the containers and strings of
-- the system library, on top of a small C library. Each part that is modelled has a file with its
-- state as a record and one function for each operation, named as in the code (putChar is
-- put_char), and child files with the theorems, named for what they prove; Tests holds runs and
-- instances at concrete inputs.
--
-- - Base: the names shared by all files, lemmas on lists (Base/Lists) and on the bits of a number
--   (Base/Bits), and the results of code that may fail (Base/Outcome).
-- - Util/RingBuffer: libsys/include/util/RingBuffer.hpp. Inv is the representation invariant,
--   Lossy the queue that a buffer implements and Refine the refinement.
-- - Util/BitSet: libsys/include/util/BitSet.hpp, with div_ceil of libsys/include/math/Math.hpp.
-- - Util/DynamicArray: libsys/include/util/DynamicArray.hpp, a block of cells with its capacity.
--   Loops is what the loops that move cells do.
-- - Util/ArrayList: libsys/include/util/ArrayList.hpp, over DynamicArray. Inv is the invariant and
--   the contents of a list, Ends the operations at its ends, Middle those by index.
-- - Text/BasicString: the comparison of libsys/include/util/BasicString.hpp. A string is the list
--   of its characters.
-- - Text/StringStorage: the block of a string, the same file over DynamicArray. Growth is about
--   appending a character.
-- - Text/StringTokenizer: libsys/src/util/StringTokenizer.cpp and its header. Words describes the
--   words of a text, Scan the scans, Tokens the tokens.
-- - Text/Path: libsys/src/fs/Path.cpp and libsys/include/fs/Path.hpp. Laws is about reading a path
--   and about its extension.
-- - Mem/Frames: kernel/include/mem/PageFrameAllocator.hpp and
--   kernel/src/arch/i386/mem/PageFrameAllocator.cpp, over BitSet. Bitmaps reads the two bitmaps,
--   Inv is the invariant, Alloc is about the search and Release about what frees or marks frames.
-- - Mem/PageEntry: the entries of kernel/include/mem/PageTable.hpp, with their flags and
--   addresses.
-- - Mem/Mmu: kernel/src/arch/i386/mem/MMU.cpp and the tables of kernel/include/mem/PageTable.hpp,
--   over Frames. Walk is how a page is found and the invariant, Counts is how many frames are free
--   and how many tables missing, NewTable and Tables are about making a page table, Mapping about
--   entering pages, Absent and Pages about palloc at an address, Runs and Search about palloc
--   anywhere; Install is install, which works on physical addresses.
-- - Libc/Ctype: libc/src/ctype.c. Laws is about the classes of characters.
-- - Libc/Itoa: libc/src/stdlib/itoa.c. Digits is about the digits of a number, Writing and Signed
--   about what is written.
-- - Libc/Memset: libc/src/string/memset.cpp. Filling is about the bytes that are set.
-- - Libc/Strings: libc/include/bits/string-inl.h. Comparing is about strcmp, Moving about memmove.
-- - Libc/Strtok: libc/src/string/strtok.c. Cutting is about the token that a call returns.
-- - Io/InputStream and Io/FileReader: libsys/include/io/InputStream.hpp,
--   libsys/include/io/FileReader.hpp and libsys/src/io/FileReader.cpp. A reader is over any stream
--   that fills the record InputStream; Reads, Ranges and Whole are about a byte, a range and a
--   whole file, Overruns is about an offset far behind the cache.
-- - Fs/IsoRecord, Fs/IsoDirectory and Fs/IsoFileStream: kernel/src/fs/iso9660/DirectoryEntry.cpp,
--   with kernel/include/fs/iso9660/DataStructures.hpp. Names and Records lay a record out in bytes
--   and read it back, Search and Walk are about find, Reading shows that the stream of a file is
--   an InputStream, and Files puts it under a FileReader.
-- - Fs/IsoVolume: kernel/src/fs/iso9660/Volume.cpp and Iso9660.cpp. Mounting is about the volume
--   descriptors.
-- - Cpu/RealTimeClock: kernel/src/arch/i386/cpu/X86RealTimeClock.cpp, over readings of the
--   registers.
-- - Cpu/DescriptorTable: kernel/src/arch/i386/cpu/GlobalDescriptorTable.cpp. Decoding is how the
--   processor reads an entry.
-- - Proc/Scheduler: kernel/src/proc/Scheduler.cpp and its header, over ArrayList. Choice is about
--   the process that becomes current, Dangling about the pointer to it.
-- - Util/HashMap: libsys/include/util/HashMap.hpp. Chains is about one bucket, Lookup about the
--   operations, Refine about sequences of them.
-- - Device/Keys: kernel/include/sys/keys.h.
-- - Device/Keyboard: kernel/src/device/input/PS2Keyboard.cpp, over RingBuffer. Events is about the
--   events that it reads.
-- - Device/KeyboardStream: kernel/src/device/input/KeyboardInputStream.cpp, over Keyboard. Typing
--   is about the characters that are typed.
-- - Device/AtapiCommand and Device/AtaDeviceDescriptor: kernel/src/device/storage. Decoding is
--   about the bytes of a command, Capacity is about the capacity that it reports.
-- - Proc/Elf: kernel/src/proc/elf/Executable.cpp. Images is about the test for a binary, Headers
--   about the program headers, Sections and Opening are the table of sections and the constructor,
--   Sections/Tables is about the sections that are made.
-- - Device/VgaTextConsole: kernel/src/arch/i386/device/display/VGATextConsole.cpp and its header.
--   Screen is the abstract screen, Cells and Scrolling the loops over the memory, Writing the
--   refinement.
--
-- A function that may fail returns an Outcome: done with a value, panic where the kernel halts
-- (Kernel::panic), or fault where the code reads or writes outside of the array it works on, in a
-- block of memory that was given back or on a page that has no frame, or divides by zero; also
-- where insert of the hash map would call resize, which does not compile. The code does not check
-- those accesses; fault stands for whatever happens then, so that a theorem that a call is done
-- says that it stays in bounds. Fixed-width numbers are natural numbers, with the remainder
-- written out where the code can wrap: size_t, uint32_t and addresses have 32 bits. A char is a
-- byte that is read as signed.
--
-- The number of frames in the bitmaps, kPagesInBitmap, is the parameter `pages` of Mem/Frames, so
-- that tests can use a small one; the code has 1048576. A for loop is a function of the number of
-- rounds to go, which its bounds give. Some loops end by what they read and take a bound on their
-- rounds: the one that reads all tokens, for which one more than the characters left is enough,
-- the one over the frames that install maps, whose number is below 2^20, the two that divide a
-- number by a base, for which its bits are enough, the one that reads a file to its end, for which
-- one more than its bytes is enough, those over directory records, the entries of a system use
-- area and volume descriptors, which may go on for ever and are given their rounds, and the one
-- that reads keys until one has a character, for which one more than the codes that wait or come
-- is enough. What a new cell of an array holds is a parameter (`fresh`), since the element's
-- default constructor decides it. The tests that containers use for equality, and the hash of a
-- map, are parameters for the same reason. What a new block of characters holds is one too, for
-- the copies that the tokenizer makes. What a drive delivers is a parameter of the file system.
--
-- Physical memory is a word for each frame and each of its 1024 places. The processor finds the
-- frame of a page through the directory and the tables at every access; it has no cache of
-- translations here. A pointer into a list that can move is the block that the list had and a
-- place in it. While the keyboard driver halts, the codes of the interrupts to come are a list; a
-- loop that halts for ever is a result of its own, none.
--
-- Not modelled: moves between two containers, iterators, concurrency between interrupt handlers
-- and the kernel, and the parts that only do input and output on ports or are written in assembly.
-- Of the hash map, remove and resize are left out, of a path pathString, of a directory readdir,
-- and of an ELF binary the loading and unloading of its segments. Linked lists with their nodes
-- and printf have no file.
pub mod Base
pub mod Util
pub mod Text
pub mod Libc
pub mod Mem
pub mod Cpu
pub mod Proc
pub mod Device
pub mod Io
pub mod Fs
