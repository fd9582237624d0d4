-- ===== src/Lib.antt =====
-- Verification of mfsync, which shares files between hosts of a network: hosts announce themselves,
-- ask each other for the files they store, and receive files over encrypted connections.
--
-- What a C++ call comes to is a value, an exception or undefined behaviour (Common/Results). Texts
-- and binary data are lists of bytes, numbers of w bits are natural numbers with their wrap-around
-- written out. Every mutex makes the calls under it single steps; logging and the calls that report
-- progress are left out of the operations.
--
-- Common: tests, lists, texts and results that all parts share. NameSet: `std::set` ordered by file
-- names, with what a lookup finds after each operation. Dict: `std::map` from strings. Disk: a tree
-- of files with the operations of `std::filesystem` that are used; paths stand with their links
-- resolved.
--
-- Info: the records and comparisons of include/mfsync/file_information.h.
--
-- Json: `nlohmann::json` as an interface with its documented laws, and a small sample that meets it.
--
-- Protocol: src/protocol.cpp and include/mfsync/protocol.h. Framing and message kinds stand in the
-- parent, the JSON conversions and the readers of records, lists and batches in Fields, encrypted
-- messages in Converter.
--
-- Crypto: src/crypto.cpp over Crypto++ as an interface, with a sample. The `static` nonce of the
-- functions that turn file blocks is a state that is passed along; what Crypto++ makes of a block that
-- is longer than expected, and what it throws then, is a parameter. KeyFile has the key pair on disk.
--
-- FileHandler: src/file_handler.cpp and src/ofstream_wrapper.cpp. The parent has the state, the
-- lookups and the scan of the storage, Operations the life of a received file, Sharing the files
-- that others offer. A lock's shared flag is a token with an identity; what the operating system
-- answers is an argument.
--
-- Deque and Receive: include/mfsync/deque.h and src/file_receive_handler.cpp. A session is the file
-- that it receives, or nothing where its pointer has expired.
--
-- Transfer: the loops of src/client_session.cpp and src/server_session.cpp that send and receive a
-- file, once both ends have confirmed. Sockets are lists of bytes.
--
-- ServerSession: src/server_session.cpp, from the handshake to the blocks, as a reaction to each
-- callback of the socket. ClientSession: the sessions of src/client_session.cpp that request a file,
-- ListSession those that ask for the list of files. Between two callbacks the files, the file
-- handler and the static nonces are arguments, since other sessions may have changed them.
--
-- Dialogue: a client session and a server connection that write to each other. Three rounds
-- (greeting, request, start) lead from the connection to the first block. Behind the first two
-- messages any bytes may stand in the server's buffer; an end of the connection or a write that
-- fails is an event of the sessions.
--
-- Host: one running program, with its sessions over one file handler, one queue and the static nonces.
-- Each callback is one step, and the steps come in any order; other programs may change the files in
-- between. The worker threads of src/main.cpp can interleave callbacks that the mutex of the file
-- handler does not keep apart; the steps are callbacks as a whole.
--
-- Sender: src/file_sender.cpp, the announcements and their timer. The buffer of a datagram is gone
-- when the function that starts its write returns; that the socket takes the datagram before is an
-- argument, and where it does not, the outcome is undefined. Server: src/server.cpp, the acceptor
-- and the sessions that it starts. Fetcher: src/file_fetcher.cpp, the hosts that announce
-- themselves. Progress: the entries and bars of src/progress_handler.cpp, with the arithmetic of
-- doubles as a parameter. CommandLine: src/main.cpp and include/mfsync/misc.h, from the parsed
-- options to the parts that are started.
--
-- Tests: the theorems applied to concrete data.
--
-- The parts interact as in the program: a server session opens its file through FileHandler and
-- encrypts its blocks through Crypto, a client session decrypts them and gives the file to
-- FileHandler. Both sessions read and write their messages through Protocol and keep the
-- connection's own Crypto handler, and a list session gives the files of a host to FileHandler.
-- Receive asks FileHandler what is stored or being received, and Protocol takes its records from
-- Info and its encryption from Crypto.
--
-- The loops of a transfer run on fuel: one step for each block that is sent or read. A block has at
-- least one byte, so the bytes that are left bound the number of steps. All other loops are
-- structural.
--
-- Not modelled: sockets with their options, the handshake of TLS but for its success, the drawing of
-- bars, the choice of random salts, and the parsing of options, the log and the waiting of
-- src/main.cpp. A symbolic link or a device in the place of the key file counts as unreadable.
pub mod Common
pub mod Info
pub mod NameSet
pub mod Dict
pub mod Crypto
pub mod Disk
pub mod FileHandler
pub mod Json
pub mod Protocol
pub mod Deque
pub mod Receive
pub mod Transfer
pub mod ServerSession
pub mod ClientSession
pub mod ListSession
pub mod Fetcher
pub mod Progress
pub mod CommandLine
pub mod Dialogue
pub mod Host
pub mod Sender
pub mod Server
pub mod Tests
