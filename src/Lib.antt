-- ===== src/Lib.antt =====
-- Verification library of the program loader of muplar's Android guest, of the parcels and the PNG
-- writer of its runtime shim, and of the host's reader of APK files.
--
-- linker64/src/linker.c is a freestanding dynamic linker for AArch64. The kernel (or the host's
-- emulation of it) maps the executable and enters `linker_main` with the initial stack. It reads the
-- auxiliary vector (`auxv_get`), registers the executable, loads the needed libraries depth
-- first (`load_needed_so`, `load_so`, `parse_dynamic`), lays out the static TLS block, relocates
-- every object (`relocate_object`: `apply_relr`, `apply_android_rela`, `apply_rela`, which look up
-- symbols with `lookup_symbol`) and jumps to the program. The program calls back into `lnk_dlopen`,
-- `lnk_dlsym` and `lnk_dl_iterate_phdr`.
-- platform/android-aarch64/art-shim/muplar_android_art_shim.c holds the native functions of Android's
-- Java classes; of it the parcel and the writer of PNG files are modelled.
-- platform/android-aarch64/apk/apk_envelope.cpp runs on the host, before the guest starts. It reads an
-- APK, a zip file that need not be trusted (`read_zip_entries`, `extract_entry_data`), finds the
-- package, the activity and the icon in its manifest, a text or a binary file of chunks
-- (`infer_manifest_info`, `resolve_resource_string`), and writes its libraries and assets to a
-- directory (`classify_apk`, `extract_apk_entry`, `prepare_apk_launch`).
--
-- The files:
--   Base, Base/*          shared names: tests, lists, integers, machine words, texts
--   Memory, Memory/Laws   byte-addressed memory, little-endian loads and stores
--   Elf                   linker64/src/elf.h: the structures and constants
--   Cstring, Cstring/*    the string helpers of linker64/src/linker.c
--   Linker                `Object`, the limits, the page arithmetic, the outcomes of `FATAL`
--   Linker/Dynamic        `auxv_get`, `parse_dynamic`
--   Linker/Hash           `gnu_hash`, `lookup_gnu_hash`
--   Linker/Symbols        `lookup_symbol`, `lnk_dlsym`, `lnk_dl_iterate_phdr`
--   Linker/Libc           `lnk_libc_init`, `lnk_basename` on pointers, `lnk_dlclose`, `lnk_dlerror`
--   Linker/Reloc          `apply_rela`; Linker/Relr `apply_relr`; Linker/Packed the SLEB128 decoder,
--                         `apply_android_rela` and `relocate_object`
--   Linker/Load           `read_at`, `load_so`, with the calls of linker64/src/syscall.h
--   Linker/Libs           `try_dir`, `load_needed_so`, `lnk_dlopen`
--   Linker/Tls            the TLS blocks of `linker_main`; Linker/Main the rest of it
--   Parcel, Parcel/Ops    `struct muplar_parcel` and the functions on it
--   Png                   `struct muplar_byte_buffer` and `muplar_bitmap_to_png`
--   Apk                   apk_envelope.cpp: its exceptions, `read_u16` and `read_u32`
--   Apk/Runs              how a run of the reader ends: the predicate of the theorems on it
--   Apk/Find, Apk/Paths   the members of `std::string` that it calls; the names of entries
--   Apk/Zip               `read_zip_entries`, `extract_entry_data`
--   Apk/Chunks            its loops over chunks, as one function; Apk/Axml the string pools
--   Apk/Attribute, Apk/Plain        the manifest as a text
--   Apk/Binary, Apk/Activities      the binary manifest
--   Apk/Resources         `resolve_resource_string`
--   Apk/Manifest          `infer_manifest_info`
--   Apk/Classify          `classify_entries`, `classify_apk`
--   Apk/Io, Apk/Launch    the files it writes; `extract_apk_entry`, `prepare_apk_launch`
--   Runs, Runs/*          the theorems at concrete inputs
--
-- State is passed explicitly: memory is a function from addresses to bytes, the address space is the
-- memory with the list of the calls made so far, the linker's state is the list of the objects with
-- the address space. `FATAL` is the outcome `fatal`. 64-bit and 32-bit arithmetic keeps its
-- wrap-around. In the reader of APK files an exception is the outcome `throws`, an index outside of a
-- vector or a string `outside`, and a loop that uses up its fuel `spins`; the files that it writes are
-- a list of steps.
--
-- Parameters: the kernel (`Os`), the addresses of the linker's own functions and buffers and the
-- results of IFUNC resolvers (`Env`), the callback of `lnk_dl_iterate_phdr`, the allocator and the
-- JNI functions on strings and references (`Jni`), zlib's `inflate` (`Inflate`), and the file system
-- with the directory that `default_extract_dir` names (`Disk`).
--
-- Bounds: a C string and a table that ends with a null entry are read with a fuel, `Env.limit`; the
-- outcome `fault` stands for a table without an end and for a name that overruns the 128 bytes of
-- `soname`. Loads nest at most 1025 deep, because each
-- registers one of 1024 objects before it goes on. A RELR bitmap has 63 bits, so 64 rounds are enough;
-- a hash chain is followed for 10000 rounds and a symbol table for 4095 entries, as in the code. A
-- packed table of n bytes has at most n groups that read a byte. The capacity of a parcel or a byte
-- buffer is doubled 64 times at most, which is enough up to 2^63: for a parcel that needs more the
-- program's loop does not end, and no theorem speaks of it. The loop over stored blocks takes a byte in
-- each round. A loop over the chunks of a file has a round for each byte and one more, which is enough where no
-- chunk has a size and a header of 0 bytes; a loop over a text manifest has two more than characters. A file is shorter
-- than 2^63 bytes, so sums of offsets do not wrap around in 64 bits.
--
-- Not modelled: the log, faults of unmapped memory, a
-- negative argument count, the thread register, the flush of the instruction cache and the assembly
-- of linker64/src/entry.S. Of the shim: everything but the parcel and the PNG writer. Of the reader of
-- APK files: the texts of its exceptions, the memory that a vector may fail to get, symbolic links
-- and the hash of `default_extract_dir`. The other parts of the host are not modelled.
pub mod Base
pub mod Memory
pub mod Elf
pub mod Cstring
pub mod Linker
pub mod Parcel
pub mod Png
pub mod Apk
pub mod Runs
