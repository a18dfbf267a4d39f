-- ===== src/Lib.antt =====
-- wlgows is a WebSocket package (RFC 6455): dialling and accepting, the opening handshake of both sides,
-- frames and their header, masking, reading and writing of frames over a connection, messages, and a
-- listener that assembles messages and calls hooks.
--
-- The parts and where they are modelled:
--
--   Frame.go                            Frame, with Frame.Mask for MaskPayload (mask_payload)
--   FrameOpcode.go                      Opcode
--   FrameControl.go, FrameData.go       Control (new_control_frame, new_data_frame, ClosePayload)
--   FrameRead.go                        Read (read_from_reader, get_frame_from_reader)
--   Frames.go, FramesInclude.go         Message
--   Errors.go                           Errors (sentinels, wrapping, errors.Is), CloseAnswer
--                                       (StandardClosePayloadFor)
--   Listener.go, ListenerConfig.go      Listener (the state, next_frame_byte_limit, validate_frame)
--   ListenerRouter.go                   Listener.Route (route_frame), and the checks in Listener
--   ListenerListen.go                   Listener.Run (listen, claim_listen, pause_listen)
--   Connection.go, ConnectionWrite.go   Conn (new_conn, buffered_write_frame, send_frame, renew_writer)
--   ConnectionControlFrame.go,
--   ConnectionDataFrame.go,
--   ConnectionLongDataTransmission.go   Conn.Send
--   ConnectionListener.go               StandardListener
--   ConnectionPingLoop.go, Loop.go      PingLoop
--   HeaderToken.go                      HandShake.Token (header_has_token)
--   ResponseWriter.go                   HandShake.Respond
--   HandShakeServer.go                  HandShake.Server, HandShake.Print (the printed messages)
--   HandShakeClient.go                  HandShake.Client, HandShake.Print
--   Client.go                           Dial
--   Server.go                           Serve
--   example/example_helpers/
--   ReadNextFrames.go                   NextFrames (read_next_frames)
--   bufio.Writer, unicode/utf8          Writer, Utf8: the standard library, as the package uses it
--   net/http, strings, strconv,
--   crypto/sha1, encoding/base64        Http: the same
--
-- Conn.Turns has the senders of one connection take turns in any order, as writeLocker lets them.
-- Base holds what the modules share, Step the calls that return an error and a state, Peer what two
-- ends do together, and Tests runs at concrete inputs.
--
-- How code becomes a definition. A byte is a natural number below 256, a Go string and a slice are
-- lists of bytes; a conversion that can wrap is written with `%`, and so are the two 64-bit totals of
-- the listener. A pointer that may be nil is an Option. A function that returns an error returns
-- Result, a Read with the reader behind it, or a Step with the state behind it; Step also says that a
-- call waits for a lock (blocked), that its loop goes on without end (endless) or that the runtime ends
-- the process (fatal). A mutex that is held within one call makes that call one step; SendData takes
-- writeLocker once for every frame, and what other senders do in between is a schedule of turns. The lock
-- of the data frames, which a long transmission holds between calls, is a flag of the connection. The `di`
-- records of the source only carry the functions that are called, so the calls are made directly.
--
-- A handshake goes over the connection that the Conn is then made on: Dial gives the connection and the
-- request, ClientHandShake and ServerHandShake write to it directly and hand what they leave of the
-- reader and of the writer to NewConn. http.Header is an association list by canonical keys, in the
-- order of the runtime's iteration; that order, the text of an error, crypto/rand and http.ReadResponse
-- are the record Platform. A request that is parsed from a connection is a value, and what its parsing
-- must keep is a hypothesis of the theorem on both sides: of the sender's values in HandShake.Agreement
-- (RequestArrives, ResponseArrives), of the bytes in HandShake.Opening (RequestReads, ResponseReads), where
-- Http.Message says how the bytes of a message are read.
--
-- The reader of a connection is the bytes that still arrive and the error behind them. The write side
-- is a buffered writer over a script of what each Write of the connection does: it takes all, or some
-- bytes and then fails. Keys of crypto/rand are a function from the number of the draw to a key or an
-- error. A hook is a number, and what hooks do to the listener (SetConfig and PauseListen) is a
-- parameter of the router and of the read loop; what other goroutines call between the steps of the
-- loop is part of the script of its rounds. Pause channels are places in a list, since a run keeps its
-- channel after the listener has let go of it.
--
-- Bounds and fuel. A slice of more than 2 ^ 48 bytes makes `make` panic, the limit of the runtime on
-- 64-bit Linux. The loop over a masked payload has two rounds of fuel for a byte: a round sends a byte
-- at least or flushes, and it does not flush twice in a row. The loop of SendData has a round for
-- every byte and one more: a chunk holds a byte at least. ReadNextFrames has a round for every byte that
-- arrives and one more: a frame takes two at least. The read loop and the ping loop run without
-- end in the source; they are recursions on the script of what happens around them.
--
-- Not modelled: the texts of errors (but those of the errors that Client.go makes; a refusal's body is
-- the text as a parameter), the times behind a deadline (only whether one is set, and that setting it
-- can fail), a request whose Header is a nil map (UpgradeRequest panics), the parsing of HTTP and of URLs
-- and the sockets and TLS of net (parameters), and the programs under
-- example/ with their console helpers.
pub mod Base
pub mod Errors
pub mod Opcode
pub mod Frame
pub mod Control
pub mod Read
pub mod Utf8
pub mod Message
pub mod Listener
pub mod Step
pub mod Writer
pub mod Conn
pub mod Peer
pub mod NextFrames
pub mod PingLoop
pub mod Http
pub mod HandShake
pub mod Dial
pub mod Serve
pub mod StandardListener
pub mod CloseAnswer
pub mod Tests
