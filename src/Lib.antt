-- ===== src/Lib.antt =====
-- The programs of a course on operating systems and networks: small C programs that share nothing
-- but the conventions of their error codes. Each is a directory U<nn>, each has a module here.
--
-- Crc models U10/crc.c: `calculate` appends a 16-bit checksum to a file and renames it, `validate`
-- checks and removes it. Remainder has `calc_crc_rem` and `next_bit_from` with its static
-- variables, Calculate and Validate have the two modes, Main the dispatch. RoundTrip puts them
-- together.
--
-- Trash models U02/trashcan.c: `move_to_trash`, `recover_from_trash` and `finally_delete` over
-- `filecopy` and the functions for path names.
--
-- Cat, Wc and Grep model U06/cat.c, U06/wc.c and U06/pseudo-grep.c. Streams has what these share:
-- U06/errors.h, the streams read, and `fgets`.
--
-- Drive models U07/drive-ls.c: the numbers read from the image of a FAT16 file system, in Names the
-- form of file names, in Directory the iterator `next_dir_entry`, in Listing `ls` and `main`.
--
-- Http models U09/http-server.c, one process for all its clients. Request parses a request line in
-- its buffer, Response has the messages, Serving the way from a request to the file that is sent,
-- Server the set-up of `main` and its loop around `pselect`. A trace keeps what is sent to which
-- descriptor and what is closed. GLib's lists are a record `Glib` of operations, with their
-- documented behaviour in `Documented`; the calls of the system are the records `System` and
-- `Events`, one `Events` for each round of the loop.
--
-- Mult models U01/mult-test.c: Int has the integers, Scanning `sscanf` for its two formats.
--
-- Sockets models U08: tcp-server.c and tcp-client.c in Tcp, uds-client.c and uds-server.c in
-- Datagrams. Buffers keep what stood in them, so that what is printed of them can be wrong.
--
-- Route models U11/pseudo-tr.c: the child that listens and the parent that sends; Interleaving
-- has a step relation on both and the network.
--
-- Base has what all use: tests, lists, bits and texts, `Process` for a computation over a state that
-- goes on, ends with a status or is undefined in C, `Outcome` for what holds at each of these ends,
-- and `Disk`, a map from names to files.
--
-- A definition has the name of the function that it models. A block that a function ends with, or
-- the body of a loop, is a definition of its own, named for what it does. A record of faults or an
-- environment decides which calls of the C library and the system fail, and how many bytes a read
-- or a write transfers at most; theorems are for all such records unless they name a condition.
-- Unsigned integers of w bits are taken modulo 2^w, and signed ones that may wrap around as their
-- bit patterns. What C leaves undefined is a result, `undefined`.
--
-- Fuel: `copy_loop` of Trash and `cat_loop` of Cat have one unit more than the file has bytes, as
-- each round takes a byte; so have `send_blocks` of Http, `sum_up` of Mult and `send_lines` of
-- Sockets. `search_loop` of Grep has, for each byte, one unit for every character of the pattern and
-- one more, since a failed match starts again behind its first character. The loops of Drive take
-- their fuel as an argument, since a circular chain of clusters has no end. Endless loops of servers
-- run for as many rounds as events are given. All other loops are structural.
--
-- Not modelled: messages to the standard error stream; two path names for one file; races between
-- processes, and signals outside of the places where the code waits for them; what the fields of
-- socket addresses hold.
pub mod Base
pub mod Streams
pub mod Crc
pub mod Trash
pub mod Drive
pub mod Cat
pub mod Wc
pub mod Grep
pub mod Http
pub mod Mult
pub mod Route
pub mod Sockets
