-- ===== src/Lib.antt =====
-- The in-kernel Ceph client and its block device, verified from their C code.
--
-- A client turns a range of a file or block device into ranges of objects (striping), and finds the
-- devices that hold an object by a pseudo-random walk down the cluster's hierarchy (CRUSH). Both
-- sides compute the same answer without talking to one another, so each must be a function of its
-- arguments. The client gets its maps from monitors, and the block device rbd turns reads and writes
-- into requests for objects. Paths are below kernel-modules/src/libceph, or name rbd.
--
-- - Base: machine words, integers, lists with bounds-checked access, Boolean tests.
-- - Striper: striper.c. Layout is ceph_calc_file_object_mapping; Extents has ceph_file_to_extents
--   and ceph_iterate_extents over the caller's sorted list of object extents; FileExtents is
--   ceph_extent_to_file; Objects is ceph_get_num_objects. A u64 or u32 is a number, and what can
--   overflow is wrapped. The loops run on fuel `len`, which is enough because each round maps at
--   least one byte. The caller's allocator and action work on a state of the caller's.
-- - Crush: crush/. Hash is hash.c; Ln and LnTables are crush_ln and its tables; Map has the
--   structures of include/linux/crush/crush.h and the workspace; Bucket has the choose methods of
--   mapper.c; Firstn and Indep are crush_choose_firstn and crush_choose_indep, and Rule is
--   crush_do_rule. What reads outside an array or at a null pointer is the outcome `fault`, and
--   `stuck` means that a loop ran out of fuel; Fits says what a well-formed map is,
--   which the decoder of osdmap.c does not check in full, and the fuel
--   that a search needs is computed in Firstn/Ends from the tries, the depth and the bucket sizes.
-- - Armor: armor.c, the base64 of secrets in text, over lists of character codes.
-- - StrHash: ceph_hash.c, the hash functions for object and file names.
-- - Osdc: osd_client.c, the order of object ids and the ranges of objects for which an OSD has asked the
--   client to back off, as a binary tree; the rb_insert_color of the kernel is a parameter.
-- - Osdmap: osdmap.c. Seeds goes from an object's name to its placement group, with
--   ceph_stable_mod of include/linux/ceph/rados.h and ceph_pg_is_split; Placement has the steps of
--   ceph_pg_to_up_acting_osds in the source's order. The trees of exceptions are functions from
--   groups, and the states of the OSDs a function from their numbers; a write behind the 32 entries of
--   struct ceph_osds is a `fault`. Interval compares the
--   sets of two maps. The fuel of ceph_pg_is_split is the new number of groups and one, as each round
--   meets a larger seed.
-- - Pagelist: pagelist.c and include/linux/ceph/pagelist.h. A page is a list of bytes, and the page
--   allocator a function on a state of the caller's; a copy over the end of a page is a `fault`. An
--   append runs on as much fuel as there are bytes and one, as each round but the first copies a page.
-- - MonClient: mon_client.c. The parent has the state and the subscriptions; Session has the handlers,
--   with auth.c as an interface and what the connection is asked to do as a log; Session/Events has
--   the sequences of events. The clock, random numbers and the connection's state come with an event.
--   The encoding and the recall of messages are not modelled, but the size of a subscription is.
-- - MsgrV2: messenger_v2.c. Frame has the description of a frame and its preamble; OnWire the lengths on
--   the wire; Control the pieces of memory of a head; Scatter the entries over which the cipher runs, on
--   as much fuel as a segment has pages; Plain the tail of a message in plain mode, written and read by
--   the state machines of both sides. The checksum and the cipher are parameters.
-- - Rbd: kernel-modules/src/rbd/rbd.c. Pending counts requests that end in any order; Image is the
--   state machine of an image request; Extents is the part of an object that the parent image has;
--   Read is the state machine of a read of an object, on its buffer of bytes; ObjectMap is the map of
--   the states of objects in memory; Copyup and Write are the state machines of a write to an object,
--   with what is sent as a log; Lock is the exclusive lock, with the requests that wait for it or run
--   under it and the work queue. What the OSDs, the object map and the lock answer to a request are
--   arguments; a failed rbd_assert is a `fault`.
--
-- The working state of a placement, the lazily built permutations, is passed from call to call.
-- Arithmetic on int counters (replica numbers, tries) is not wrapped: they stay far below 2^31.
-- Not modelled: the decoding of maps and messages, requests to the monitors and OSDs, the first
-- messenger, the handshake and the sockets of the second, authentication, and of the block device the
-- alignment of discards, the loading of the object map, the search for the owner of the lock and the
-- set-up. They work on sockets, kernel memory and locks, apart from the decoders.
pub mod Base
pub mod Striper
pub mod Crush
pub mod Armor
pub mod StrHash
pub mod Osdc
pub mod Osdmap
pub mod Pagelist
pub mod MonClient
pub mod MsgrV2
pub mod Rbd
