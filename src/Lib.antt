-- ===== src/Lib.antt =====
-- The core of smb1client, a client for the SMB1 file sharing protocol: the wire formats, the framing
-- of messages on a connection, the multiplexing of requests over it, the transfers of remote files,
-- the paths and patterns of a share, and the pool of sessions.
--
-- The program's parts and how they interact. A caller's request is encoded as an SMB packet
-- (internal/smb1/packet.go, encoder.go, trans2.go) and written as one NetBIOS frame
-- (internal/netbios/session.go). internal/client/conn.go gives each request a message ID, keeps it in
-- the map of pending requests, and runs a receive loop that reads frames, decodes packets and hands
-- each reply to the channel of the request whose ID it bears; a transaction's reply may come in
-- several messages, which are put together again. internal/client/file.go divides the transfers of a
-- remote file into chunks, one request each, and may keep several of them in flight; session.go checks
-- paths, expands globs with match.go, and reads whole files. pool.go keeps authenticated sessions for reuse.
--
-- Which file models which part:
--   Wire            byte slices and encoding/binary: put_u16, u16_of; `index` and `cut` are Go's
--                   checked accesses, which panic out of range
--   Smb1/Header     internal/smb1/packet.go: Header, Encode, DecodeHeader, IsError, AndXHeader
--   Smb1/Packet     internal/smb1/encoder.go: EncodePacket, DecodePacket
--   Smb1/Values     internal/smb1/encoder.go: EncodeParameters, DecodeUint8 to DecodeUint64, DecodeBytes
--   Smb1/Trans2     internal/smb1/trans2.go: EncodeTrans2Request, DecodeTrans2Response,
--                   MaxTransactionDataCount
--   Smb1/Directory  internal/smb1/trans2.go: ParseFileBothDirectoryInfo; a name is kept as its bytes
--   Smb1/FileInfo   internal/smb1/trans2.go: FileBasicInfo, FileStandardInfo
--   Smb1/FileOps    internal/smb1/file_ops.go: the messages that open, read, write and close a file
--   Netbios         internal/netbios/session.go: ReadPacketContext, writePacketType
--   Client/Conn     internal/client/conn.go: allocateMID (allocate_mid), beginRequest (reserve, then
--                   transmit, then poison), Receive (receive, dispatch), releaseLocked (release),
--                   setErrorLocked (set_error), Close (close, then close_next for each request and
--                   for the socket); Conn/Routing interleaves them
--   Client/Calls    internal/client/conn.go: awaitResponse, sendRecv, sendRecvSettled, send
--   Client/Transaction  internal/client/conn.go: placeFragment, sendRecvTransaction (reassemble)
--   Client/File     internal/client/file.go: File, PipelineDepth, the sizes of chunks; Transport stands
--                   for the connection as a transfer uses it
--   Client/File/Reads     readAtChunk (read_at_chunk), ReadAt (read_at), readSequential
--   Client/File/Pipeline  readPipelined, sendReadRequest
--   Client/File/Position  Read, SeekContext, and session.go: readAll (read_all_rounds)
--   Client/File/Writes    WriteAt (write_at), writeSequential
--   Client/File/Pouring   writePipelined, sendWriteRequest; Feed stands for the connection and the caller
--   Client/File/Collect   collectReplies, abandonChunks, on the connection of Client/Conn; Waits says which
--       requests are waited on, Others what the other goroutines may do, Settled what is left
--   Client/File/Listing   Readdir, readdirAll, baseName
--   Share/Paths     session.go: validateFilePath, normalizePath, validateMountPath
--   Share/Match     match.go: Match (match_name), splitChunk, matchChunk (match_chunk), classRune
--   Share/Globs     session.go: globWith (glob_with), globDir (glob_dir) and their helpers
--   Pool            pool.go: Get (get_round, get_rounds, dialled), put, remove, cleanupExpired, Close
--   Common          shared helpers: tests, lists over native numbers, outcomes, maps
--   Tests           concrete runs
--
-- How state and operations correspond. A struct is a record; a function that changes it takes the
-- record and gives the new one. What the source does between taking and giving back a mutex is one
-- function, and goroutines are sequences of such steps: Client/Conn/Routing has a constructor of
-- `Step` for each of them, and the server's side, a ticket for each request that it has yet to answer,
-- is part of the state. A single-message request is answered once. A sender that has not given up
-- settles its request only when its answer is complete or the connection is gone. Channels are known
-- by number, and sessions of the pool too. An error is a value of the part's own error type, a panic is
-- an outcome of its own, and a `select` is an argument that says which case was ready. Bytes, offsets
-- and IDs are natural numbers with the wrap-around of their Go type written out; signed integers are ℤ.
--
-- Bounds and fuel. `allocate_loop` runs on 65536 rounds, since each round looks at another message ID.
-- `get_rounds` runs on a number of rounds that is given, of which one more than there are idle sessions
-- is enough, since each round but the last takes one off. `parse_from` runs on one round more than there
-- are bytes, since an entry takes at least 94. The loops of ReadAt, readSequential and writeSequential run
-- on one round for each byte, since a round that goes on moves at least one, and readAll on one more.
-- The pipelines run on as many rounds as there are chunks, like the source. `match_rounds` runs on one
-- round for each byte of the pattern, `chunk_rounds` and `class_rounds` on one for each byte of the chunk,
-- and `glob_with` on one call more than the pattern has bytes. `find_rounds`, whose loop the source does
-- not bound, runs on a number that is given. Everything else is structural recursion.
--
-- What stands for code elsewhere. In the transfers of files the server and the connection are functions,
-- of which a theorem assumes that they serve one file, or apply what they confirm, and may fail at any
-- time. The offset of a file is a natural number, since Seek refuses a negative one.
-- `utf8.DecodeRuneInString`, `strings.TrimSpace`, `sort.Strings` and the UTF-16 encoder are parameters.
--
-- Not modelled: dialling, negotiation, authentication and most commands' own messages, the attributes of
-- files, the public wrappers of files and shares, DCE/RPC, error texts and logging; deadlines and timers, which are answers of the
-- environment; and the order in which Go's maps are traversed, in place of which the pending requests
-- are woken in the order of an association list. `int` is taken to have 64 bits.
pub mod Common
pub mod Wire
pub mod Smb1
pub mod Netbios
pub mod Client
pub mod Pool
pub mod Share
pub mod Tests
