-- ===== src/Lib.antt =====
-- UFO_Torrent: a BitTorrent client in C++.
--
-- The client reads a torrent file (src/bencode, src/models/torrentFile.cpp), asks a tracker for
-- peers, and runs one connection per thread (src/network_part/PeerConnection.cpp over connect.cpp).
-- The connections share a piece manager (src/network_part/PieceManager.cpp), which decides what is
-- requested next, checks the hash of each piece and writes it to the output file.
--
-- Which file models what:
--   Common: shared names, tests, lists, results of calls, decimal numbers, bits, integers.
--   Utils: src/network_part/utils.cpp. A char is signed, as on x86.
--   Message: src/network_part/BitTorrentMessage.cpp.
--   Piece: src/network_part/Piece.cpp and includes/network_part/Block.h.
--   PieceManager: src/network_part/PieceManager.cpp. Its state is the record PieceManager of
--     PieceManager/State; the constructor is in Setup, addPeer, updatePeer and removePeer in Peers,
--     nextRequest in Requests, blockReceived in Receive and, in its two parts,
--     in Parts, the progress thread in Progress. Steps holds
--     the histories of calls.
--   Socket: sendData and receiveData of src/network_part/connect.cpp over a list of events;
--     createConnection and setSocketBlocking are in Socket/Connect.
--   Connection: src/network_part/PeerConnection.cpp; a turn of the inner loop of start
--     is in Connection/Turn, start itself with the peers that the queue gives in Connection/Start,
--     where the socket that createConnection opens to a peer, if it does, is an argument.
--   Bencode: includes/valueTypes.h, src/bencode/encode.cpp and, in Bencode/Decode, decode.cpp.
--   TorrentFile: includes/torrentFile.h; TorrentFile/Parse, TorrentFile/Print and
--     TorrentFile/Create are src/models/torrentFile.cpp; TorrentFile/Lost is what the constructor of the piece
--     manager makes of a torrent file that was read.
--   Tracker: decodeResponse of src/network_part/PeerRetriever.cpp, and the announce URL that
--     downloadFile of TorrentClient.cpp takes; retrievePeers is in Tracker/Request.
--   Client: src/network_part/TorrentClient.cpp, the constructor and downloadFile up to its loop; the
--     loop between the steps of the threads is in Client/Loop, and with the calls of the manager in
--     Client/Session.
--   Parser: src/network_part/TorrentFileParser.cpp.
--   CommandLine: src/network_part/main.cpp.
--   Printer: src/bencode/prettyPrinter.cpp.
--   Hashing: src/hashing/createHash.cpp.
--   Queue: includes/network_part/SharedQueue.h with the threads that take from it; Queue/Steps are the
--     interleavings of start of PeerConnection.cpp with downloadFile and terminate of
--     TorrentClient.cpp.
--   Files: src/utils/fileUtils.cpp; Files/Path is std::filesystem::path, and Files/System what the
--     program asks of the file system, as an interface.
--   Terminal: src/main.cpp. Terminal/Dialog is fileDialog, Terminal/Window and Terminal/Height
--     what it draws, Terminal/Preview showTorrentPreview, Terminal/Status update_progress and
--     renderWindows, and Terminal/Menu the loop of main.
--   Examples: the theorems at concrete inputs.
--
-- How the code is read. A byte string is a list of numbers. A call ends in a value, an exception,
-- undefined behaviour or a failed assertion (Outcome); a run of a connection also carries the state
-- and may wait for input (Run). A pointer to a piece is the piece, known by its index; a change
-- through the pointer replaces the piece of that index in its list. A history of the piece
-- manager is a sequence of calls in any order; blockReceived lets go of the mutex between its parts,
-- so that a history has it whole and in two steps, with any others between them as long as the
-- piece that was found is still ongoing at the second one. What two threads make of a piece
-- that one of them has finished before the other goes on is in PieceManager/Parts/Twice. The second part is one
-- step, though the code runs it without the mutex. A thread may block in recv for any time: a step of the queue that
-- is possible need not be taken. The conversion of a double that does not fit in an integer is undefined. Readings of the clock are arguments. The SHA-1
-- functions, boost::lexical_cast, the arithmetic of float and double, the decoder of libs, the success of
-- send, the answers of the system, of the file system, of curl, of cxxopts and of libtorrent, and
-- whether a file can be opened and written are parameters. The terminal is driven by a list of keys.
--
-- Bounds and fuel. receive_loop runs on as many rounds as bytes lack, since each round takes a byte;
-- split_hashes on as many as there are bytes; decode on twice the length of the input and one, since
-- a call of the decoder takes a byte after one round of a loop at most; count_lines on more rounds than
-- the text has bytes, where a round moves on by a column at least; display_tree on one round more
-- than the longest path has bytes, since a directory below has a longer path. Indices of pieces are not
-- negative, sizes are below 2 ^ 63, piece lengths and inputs of the decoder below 2 ^ 31.
--
-- Not modelled: the setting up, the frames and the colours of ncurses in src/main.cpp,
-- src/ncurses_utils.cpp, which is commented out, src/ufo_torrent.cpp, a sum for a test, the freeing of
-- memory, and the third-party sources under libs.
pub mod Common
pub mod Utils
pub mod Message
pub mod TorrentFile
pub mod Piece
pub mod PieceManager
pub mod Socket
pub mod Connection
pub mod Bencode
pub mod Files
pub mod Terminal
pub mod Tracker
pub mod Printer
pub mod Queue
pub mod CommandLine
pub mod Parser
pub mod Client
pub mod Hashing
pub mod Examples
