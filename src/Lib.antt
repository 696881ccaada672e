-- ===== src/Lib.antt =====
-- SwiftSSH: an SSH-2.0 library in Rust, with a server and a client.
--
-- The program in layers, from the bytes up, and the files that model each part:
-- - src/packet: the binary packet and the wire types. Packet/Types.antt (message numbers, constants),
--   Packet/Utf8.antt (which byte strings are texts), Packet/Buf.antt (`SshBuf`), Packet/Codec.antt
--   (`SshPacket`). The proofs stand in Packet/Numbers, Packet/Buf/{Laws, Names, Mpint} and
--   Packet/Codec/{Shape, RoundTrip, Frames}.
-- - src/crypto: Crypto.antt (`AesCipher`, `CipherPair`, HMAC, `derive_key`); proofs in Crypto/{Stream, Derive}.
-- - src/session: Session.antt (`SessionKeys`).
-- - src/transport: Transport/Stream.antt (the two halves of a connection), Transport/Io.antt
--   (`send_packet`, `recv_packet`), Transport/Version.antt (the version lines), Transport/Kex.antt
--   (`KexClient`, `KexServer`); proofs in Transport/Io/{Sync, Receive, Cut, RoundTrip, Reads,
--   Panic, Accept, Progress, Plain, Halves, Exchange},
--   Transport/Version/Lines and Transport/Kex/Agreement.
-- - src/connection: Connection/Channel.antt (`ChannelManager`), Connection/Messages.antt (builders and
--   parsers); proofs in Connection/Channel/{Invariant, Runs, Flow} and Connection/Messages/RoundTrip.
-- - src/auth: Auth.antt (`UserDatabase`, `AuthRequest`); proofs in Auth/{Users, Requests}.
-- - src/sftp: Sftp.antt (constants), Sftp/Attrs.antt (`FileAttrs`), Sftp/Messages.antt (`SftpPacket` and
--   the responses), Sftp/Path.antt (`normalize_path`, and what it uses of std::path),
--   Sftp/FileSystem.antt (std::fs as a parameter), Sftp/Handler.antt (`SftpHandler`) with its requests
--   in Sftp/Handler/{Dirs, Files, Requests}. Proofs: Sftp/Attrs/Laws, Sftp/Messages/Laws,
--   Sftp/Path/Normal and its child (names and normal paths), Sftp/Handler/{Answers, Moves, Replies} (a
--   step relation of what a request may do), Resolve, Confined and Reach (what a client can reach),
--   Handles (the life of a handle). Sftp/FileSystem/Toy.antt is a file system for the examples.
-- - src/bin/server.rs: Server.antt (the handshake, the service request, the authentication loop, and the
--   keys of both sides), Server/Commands.antt (`execute_command`), Server/Loop.antt and
--   Server/Loop/{Requests, Run} (the channel loop: the messages, and the rounds),
--   Server/Connection.antt (`handle_connection`). Proofs in Server/{Keys, Counts, Greeting, Handshake, Login} and
--   Server/Loop/{Effects, Acts} (a step relation of what a message does), Table (the channels), Ends,
--   Sound, Replies, Executed (the answer to a command, as the client reads it) and Numbers.
-- - src/bin/client.rs: Client.antt (the handshake), Client/Session.antt (the login and the session channel),
--   Client/Shell.antt (the loops, `run_client`); Client/{Payloads, Steps, Stages, Wires, Joint},
--   Client/Session/{Login, Opened, Answers, Command} and Client/{Admitted, Opened, Ran} let both sides talk,
--   from the version lines to what the client prints.
-- - src/error: Error.antt. Shared helpers are in Prelude and its children; HashMap.antt is the map of
--   the standard library. The files named Examples run the theorems at concrete inputs.
--
-- How the parts interact: the server's loop receives packets (Transport), keeps the table of channels
-- (Connection), hands the data of a channel to the one SFTP handler of the connection (Sftp), and runs
-- commands; the disk is passed through all of it, also where a round ends with an error.
--
-- How the code is read:
-- - Functions keep the names of the code; an associated function `new` stands in its type's module.
--   State that the code changes through `&mut` is an argument and part of the result.
-- - A `Vec<u8>`, `&[u8]`, `String` or `&str` is the list of its bytes; a text is one that `is_utf8`
--   accepts. A cursor is the list of the bytes not read yet. `as u32` and `as u8` keep their remainder,
--   `+= 1` on a u32 wraps around as in a release build.
-- - `SshResult` has the outcomes ok and err of the code, and panic, for where the code can abort: a
--   `Vec` of the size of a difference that went below zero, and an `unwrap`.
-- - A stream is what the peer has sent and how the stream ends; a writer is what was sent and whether
--   the connection is up. tokio's read_exact and write_all act on those.
-- - The crates aes, ctr, hmac, sha2 and x25519_dalek are the record `Crates`, an argument of all that
--   uses them. What the code relies on of them is in Crypto/Laws.antt: a stream cipher is an
--   exclusive or with a key stream, HMAC and SHA-256 have 32 bytes, `verify_slice` compares, and both
--   sides of the agreement get the same secret. Random bytes (padding, cookie, secrets) are arguments.
-- - std::fs and the starting of a process are arguments: the record `FileSystem` and `spawn`. Of std::fs
--   only this is assumed, as `IsLawful`: canonicalize gives a path without `.` and `..`.
--   std::path is modelled for Unix, as documented. The theorems on what a client can reach speak of
--   paths; that calls on paths below the root leave something alone is a hypothesis there, which a
--   symbolic link that leads out of the root would break.
-- - `select!` of the client takes what is ready from a list, so that every order is covered.
-- - A HashMap is a list of entries, visited in the list's order.
--
-- Loops: `recv_version_string` takes a byte at a time and recurses on the bytes that are left;
-- the authentication loop, the channel loop and the client's loop on the answers have fuel; for the
-- server's two loops more than the bytes on the stream is enough;
-- `derive_key` has the number of wanted bytes as fuel, which is enough since each round adds 32.
-- The limits are the code's: packets of 35000 bytes, block sizes of 8 and 16 (the padding length is
-- one byte, so the packet round trip holds up to a block size of 252), version lines of 255 bytes.
--
-- Not modelled: logging, sockets and tasks (connections share nothing but the disk), the command line
-- and the reading of standard input, the zeroing of keys in memory, the keys that a failed packet
-- leaves behind (the callers end the connection then), and a line that interrupts the client's
-- receiving of a packet.
pub mod Prelude
pub mod Error
pub mod HashMap
pub mod Packet
pub mod Crypto
pub mod Session
pub mod Sftp
pub mod Transport
pub mod Connection
pub mod Auth
pub mod Server
pub mod Client
