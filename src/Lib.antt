-- ===== src/Lib.antt =====
-- OpenCoreAnalysisKit: the core of a reader of core dumps.
--
-- The program loads an ELF core file, keeps its segments in tables, and answers every question of
-- its commands through three services of the core: which block holds a virtual address, where the
-- bytes of an address are in host memory, and how bytes are read and written. Writes go to
-- overlays, never to the file. A second part reads the DWARF sections of a library and gathers its
-- structs, members and type names. A third reads objects in the memory of the target. This
-- development models the first two, and the property areas, some containers, and the symbols of the third.
--
-- Load, the segments (core/common, core/api):
--   Load/Block: `Block`, `LoadBlock` and the maps behind them (core/common/block.h, load_block.h,
--     load_block.cpp, utils/base/memory_map.h). Host memory is a function from addresses to bytes.
--   Load/Table: `CoreApi`'s two tables, which share their blocks: `findLoadBlock`, `v2r`, `r2v`,
--     `virtualValid`, `Read`, `Write`, `addLoadBlock` (core/api/core.h, core.cpp). An
--     `InvalidAddressException` is the value `invalid_address`.
--   Load/Search: the binary search. Load/Translate: addresses, and what `Read` copies.
--   Load/Write: overlays and `Write`.
--   Load/Alloc, Load/Alloc/Places: `newLoadBlock` and the place it chooses.
--   Load/Ref, Ref/Coherent: `MemoryRef` (core/api/memory_ref.h), an address with the block that it
--     was last found in. Load/Reads: `value64Of` and its kin, which fill the interface `Target`.
--   Load/Headers, Headers/Sorted: `load64` (core/lp64/core.cpp), which fills the tables and the
--     notes from the program headers. Headers/Examples: a core file.
--   Load/Examples: a core file of two segments.
--
-- Dwarf, the debug information (core/api/dwarf.h, dwarf.cpp):
--   Dwarf/Leb and below: `ReadULEB128`, `ReadSLEB128`.
--   Dwarf/Types: the constants and structs. Dwarf/Text: little-endian reads, `GetDebugStr`,
--     `GetDebugStrX`.
--   Dwarf/Attr: `ParseExprloc`, `ReadAttrValue`; Attr/Bounds and Attr/Forward: its pointer.
--   Dwarf/Abbrev: `ParseAbbrevTable`, `ParseAbbrevSection`.
--   Dwarf/Die, Dwarf/Tree: `ParseDIETree`; Tree/Scope, Tree/Valid, Tree/Invariant, Tree/Returns:
--     its scopes, its indices and its end.
--   Dwarf/Resolve: `ResolveTypeName`, `ResolveTypes`. Dwarf/CompileUnit: `ParseCompileUnit`,
--     `ParseInfoSection`.
--   Dwarf/Locate, Locate/Inside: `DecompressSection`, `LocateSections`, `Init`, `ForEachStruct`;
--     the zstd library is a parameter. Locate/Examples: a file of two sections.
--   Dwarf/Examples: numbers, attributes and a tree.
--
-- Readers of objects see the memory of the target through the record of Target.antt:
--   Props and below: the property areas of Android (android/properties/prop_area.cpp).
--     Props/Trie: the trie of an area. Props/Search, Props/Visits, Props/Area: `findPropbt`,
--     `foreachProperty`, and both together. Props/Examples: a small area.
--   Cxx and below: `list`, `unordered_map` and `map` of libc++ (llvm/cxx). Cxx/Chain: loops over
--     chains of nodes. Cxx/Tree: the cache of a map. Cxx/Examples: a map.
--   Elf and Elf/Entry: the dynamic section and the symbols of a library, `FindDynamicEntry`,
--     `FindDynamic`, `GetDebug`, `ReadSymbols` (core/api/elf.cpp), and the searches of
--     core/common/link_map.cpp. Elf/Dynamic, Elf/Symbols, Elf/Region: their loops.
--     Elf/OnCore: the same memory, filled by a core. Elf/Examples: a small table.
--   Art and below: bit regions, bit tables and LEB128 numbers of the Android runtime
--     (android/art/base). Art/Region: `BitMemoryRegion`, `BitMemoryReader`. Art/Bits: its words
--     against single bits. Art/Chunks, Chunks/Count: `VisitChunks`, `PopCount`. Art/Table: `BitTable`,
--     `DecodeUnsignedLeb128`. Table/Leb: the latter against the DWARF reader. Art/Examples: a region.
--
-- Notes, the notes of a core file: `NoteBlock`, `Auxv` and `File` (core/common), `findAuxv`,
-- `findThread`, `FindFile`, `getPageSize` (core/api/core.cpp).
--   Notes/Parse: the loop over notes (core/lp64/core.cpp). Notes/Lookup: the searches.
--   Notes/Append: `appendAuxvItem`. Notes/Ends: the end of the loop. Notes/Examples: two notes.
--
-- Base holds what both share: lists, Boolean tests, 64-bit arithmetic with its wrap-around written
-- out (`add64`, `sub64`), bit operations and the binary digits of a number.
--
-- Conventions. A pointer is an address; a null pointer that reports an error is `none`; a
-- `uint64_t` is a natural number below 2 ^ 64, and an `int64_t` its bit pattern. An `unordered_map`
-- is an association list in which the first entry of a key counts. Counters of type `int` are not
-- bounded: they agree with the code for tables of less than 2 ^ 31 blocks, notes of less than 2 ^ 31
-- files, and symbol tables of less than 2 ^ 31 symbols.
--
-- Fuel. `ReadULEB128` and `ReadSLEB128` make ten rounds at most, since the shift grows by seven up
-- to 64. The search of a table makes at most as many rounds as the range has positions. The loop
-- over entries has a round more than there are bytes: each round takes one at least. The
-- recursion of `DW_FORM_indirect` takes a byte each time. The searches in the memory of the target
-- take fuel over the height of the trie or tree, or the length of the chain. The loop over notes
-- has as many rounds as the segment has bytes: a note takes twelve. `ResolveTypeName` carries its own depth.
--
-- Not modelled: file and memory mapping calls (the result of `mmap` is a parameter), the output of
-- the log, and the rest of the program: the files behind link
-- maps, unwinding, the mirrors of ART classes, the commands. `DW_FORM_addr` with an address
-- size over eight makes C++ shift by 64 bits or more, which is undefined; here the bits are lost,
-- as they are in a product modulo 2 ^ 64.
pub mod Base
pub mod Dwarf
pub mod Load
pub mod Target
pub mod Props
pub mod Cxx
pub mod Elf
pub mod Notes
pub mod Art
