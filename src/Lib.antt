-- ===== src/Lib.antt =====
-- The native part of RAID-SuperBLT: the code that decides which bytes the game reads for an asset.
--
-- Parts, and the files that model them.
--   Base, Outcome: lists, byte sequences, Boolean tests; how a call ends. A call of the program that
--     does not return normally is a value `stop s`: abort() or a failed assert, ExitProcess(1), a
--     thrown exception, or what C++ gives no meaning to (a null pointer that is followed, a read
--     past the end of an array).
--   Idstring: `idfile` of src/platform.h, the hash of src/util/idstring_hash.cpp (Idstring/Hash) with
--     its 64-bit wrap-around written out, and the text of ids (Idstring/Hex): `%016llx`, strtoull at
--     base 16, and parseHash of src/tweaker/db_hooks.cpp. Idstring/FileMap is std::map by file key.
--   Datastore: the stores of src/dbutil/Datastore.cpp, through which the game reads.
--   Diesel: the database of src/dbutil/DB.h and src/dbutil/DB.cpp. Diesel.antt has the file list that
--     the constructor fills from the .blb file, and `find`; Diesel/Contents has ReadContents and its
--     caller wrenLoadAssetContents.
--     Diesel/Vectors, Diesel/Headers and Diesel/Bundle read the headers and the chunks of bundles,
--     and Diesel/Startup is the whole constructor, from the names in the assets folder.
--   DbHooks: src/tweaker/db_hooks.cpp. Wren scripts register asset hooks and set their source;
--     DbHooks.antt has the state (the targets, `overriddenFiles`, the hook objects, the released
--     handles) and one function for each foreign method. DbHooks/Registry runs histories of calls,
--     DbHooks/Sources says what the methods mean, DbHooks/Load is hook_asset_load, which the game
--     calls for every asset; it reads through the stores and the database. DbHooks/Binding is the
--     table of the names that Wren binds.
--   Events: the queue of src/threading/queue.h, by which other threads hand events to the game's
--     thread, as a relation of the steps that the mutex lets interleave. Events/Master is
--     EventQueueMaster of src/threading/threadqueue.cpp, whose loop calls the queues in turn.
--   AsyncIo: the pool of threads of src/luautil/LuaAsyncIO.cpp, which runs reads and writes for Lua,
--     as a relation of its steps.
--   AssetDb: src/luautil/LuaAssetDb.cpp, by which Lua scripts read the database.
--   FontData: src/scriptdata/FontData.cpp with src/scriptdata/FormatTools.cpp, the game's fonts.
--   ScriptData: src/scriptdata/ScriptData.h and src/scriptdata/ScriptData.cpp, the game's script data.
--     ScriptData.antt has the items, whose pointers are places in a heap, and `Register`, which
--     numbers what a value leads to; ScriptData/Writing has `Serialise` with its blocks and links,
--     and ScriptData/Reading the constructor and determine_is_32bit. Of the files about them, those in
--     ScriptData/Numbers are about the numbers, those in ScriptData/Written about the bytes of a file,
--     and those in ScriptData/Back about reading it back.
--
-- State and numbers. Objects that the code shares (targets, hooks, bundles) are named by their place
-- in the list of their kind; a pointer into filesList carries the number of the allocation in which
-- it was made. Texts and file contents are lists of bytes. Unsigned numbers are native numbers, with
-- `% 2 ^ w` where the code can wrap.
--
-- Bounds. hash_blocks runs on fuel, the length of the text, of which each round takes 24 bytes.
-- ReadContents consumes one chunk offset each round and needs no fuel. The chunks of a bundle file
-- are counted on fuel, one more than the size of the file: a chunk takes at least four bytes.
-- Register runs on fuel for the depth of its calls, one more than there are items: a call that goes
-- deeper has added an item. The search of find_file for a language runs on fuel, the size of the
-- file list, which the list of the versions of a file does not exceed.
--
-- Parameters. The files on disk, zlib's uncompress2 and the call of a Wren loader's load_file are
-- arguments of the definitions that use them. What Lua passes to a function is a type of values.
--
-- Not modelled: the message boxes and logs that come with an exit, the VM lock, the static call
-- handle, calls of the hooks from other threads or by a Wren loader while it is called, the files and
-- callbacks of LuaAsyncIO.cpp, and what a reader does with a store other than to read it. The asserts
-- are taken to be compiled in.
pub mod AssetDb
pub mod AsyncIo
pub mod Base
pub mod Datastore
pub mod DbHooks
pub mod Diesel
pub mod Events
pub mod FontData
pub mod Idstring
pub mod Outcome
pub mod ScriptData
