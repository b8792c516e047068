-- ===== src/Lib.antt =====
-- A cache and a remote file system: rc, an engine of memcached that keeps its items in a table of
-- partitions; rfs, a server of an ext2 disk; fsc, a client of that server through FUSE. fsc and rfs
-- talk in packets (a type, a length and a payload), and both keep answers in the cache.
--
-- Base: lists, options, tests and sums over the native numbers, used by every other file.
-- Cache: the engine rc. A table is a record of the array of elements, the counters of the program
--   and the bytes of the data area by address.
--   - Cache/Table: the structs of rc/src/my_engine.h and rc/src/collections/miDiccionario.h.
--   - Cache/Dictionary: rc/src/collections/miDiccionario.c (micache_search_element,
--     micache_remove_element, micache_remove, micache_clean, desplazarAbajo,
--     micache_create_element); its child modules hold the proofs on each.
--   - Cache/Returns: chains of reads and writes that give a result.
--   - Cache/Accounting: the bytes of a table, against which the counters are measured.
--   - Cache/Replacement: rc/src/collections/algoritmo_reemplazo.c (lru, lru_get).
--   - Cache/Fit: the searches first_fit and best_fit of rc/src/collections/compactacion.c and the
--     joining of the run that they choose.
--   - Cache/Compaction: the rest of that file (desplazarArriba, compactar, compactacion).
--   - Cache/Buddy: rc/src/collections/buddy.c; its child modules hold the proofs on the search.
--   - Cache/Engine: the handlers of rc/src/my_engine.c. Each critical section is one function;
--     item_allocate has two.
-- Nipc: the packets of fsc/serializar_y_deserializar.c and rfs/serial_rfs.c. Nipc/Packet is the
--   packet and its receiver (rfs/Main.c), Nipc/Client is what fsc writes and reads, Nipc/Server what
--   rfs reads and writes; Nipc/RoundTrip, Nipc/Requests and Nipc/Answers relate the two.
--
-- Rfs: the disk of the server. Rfs/Disk has the bytes of the file and the structs of rfs/Superblock.h
--   and rfs/Grupos.h; Rfs/Bitmap the interface of a bit array and bitarray_buscarPosicionLibre of
--   commons/bitarray.c; Rfs/Groups is rfs/Grupos.c with the search for a free inode of rfs/Inode.c;
--   Rfs/Inode is the part of rfs/Inode.c that reads and writes inodes, gives one out, and looks up a
--   block of a file; Rfs/Inode/Blocks, Release and Assignment are Inode_liberarBloque,
--   Inode_asignarBloque and the truncations.
--   - Rfs/Dir: the entries, their listing and the lookup of a path of rfs/Dir.c; Rfs/Dir/Creation and
--     Rfs/Dir/Deletion are Dir_crearNuevaEntrada and Dir_borrarEntrada. Rfs/Dir/Layout says how
--     entries lie in a block, which the other child modules use.
--   - Rfs/Files: Dir_leerArchivo and Dir_escribirArchivo, with the cache of blocks as an interface.
--   - Rfs/Paths: separarPath of rfs/Rfs.c, the same as separarPathCliente of fsc/auxCliente.c.
--   - Rfs/Requests: the handlers procesarReaddir, procesarGetattr, procesarRead, procesarOpen,
--     procesarTruncate, procesarWrite, procesarCreate and procesarUnlink of rfs/Rfs.c;
--     Rfs/Requests/Directories has procesarMkdir and procesarRmdir.
--   - Rfs/Locks: rfs/sincro.c. The state is the list of nodes and the threads that use an inode; what
--     is done under the mutex of the list is one step, the turn at the lock of a node another. The
--     read-write lock is an interface. A handler of Rfs/Requests is one step on the volume, which is
--     what these locks are for.
--
-- A function of the program returns an Option here where it can fault: an index out of the array, a
-- variable that was never set, an amount that falls below zero, a buffer that is too short; so also a
-- read of the element before or behind an array and of the bit behind a bitmap. Its own
-- answer -1 is a value inside that. Pointers into the data area are numbers; a pointer to an element
-- or to its key is the element's place. Times are numbers, and the clock is an argument. A key
-- buffer is a list of bytes for the element's slot of 60 bytes; a key that would leave its slot is a
-- fault where the code writes it (creation, desplazarAbajo, desplazarArriba). The other moves copy
-- keys of used elements only.
--
-- Loops over the array are structural recursion on it or on the number of elements left. Fuel is an
-- argument of `compactacion` and `buddysystem`, whose loops end only where a partition is found; the
-- halving of a partition has as much fuel as the partition has bytes, and a pass over the sisters is
-- repeated at most once more than there are elements, since a pass that joins leaves fewer elements
-- with bytes. A walk over the entries of a directory's block has as many rounds as the block has
-- bytes, which is enough where no entry has length 0; the writing of a file has one round more than
-- bytes, which is always enough. The sizes of off_t, size_t, mode_t and nlink_t are a parameter of the packets;
-- on the disk, numbers wrap at their C widths, and size_t has 32 bits.
--
-- Not modelled: logging, configuration files, signals and dumps; sockets, threads and libmemcached;
-- the copies of memcached and of the library commons; the copies of the superblock and of the table
-- of groups that handlers write to the disk and nothing reads again; the callbacks of fsc.
pub mod Base
pub mod Cache
pub mod Nipc
pub mod Rfs
