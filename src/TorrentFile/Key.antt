-- ===== src/TorrentFile/Key.antt =====
-- The keys of the dictionaries that the program reads and writes.
use ufo_torrent.Common.{[], ◌∷◌, Bytes}

-- "announce".
abbrev pub announce : Bytes
announce = b'a' ∷ b'n' ∷ b'n' ∷ b'o' ∷ b'u' ∷ b'n' ∷ b'c' ∷ b'e' ∷ []

-- "created by".
abbrev pub created_by : Bytes
created_by = b'c' ∷ b'r' ∷ b'e' ∷ b'a' ∷ b't' ∷ b'e' ∷ b'd' ∷ b' ' ∷ b'b' ∷ b'y' ∷ []

-- "name".
abbrev pub name : Bytes
name = b'n' ∷ b'a' ∷ b'm' ∷ b'e' ∷ []

-- "pieces".
abbrev pub pieces : Bytes
pieces = b'p' ∷ b'i' ∷ b'e' ∷ b'c' ∷ b'e' ∷ b's' ∷ []

-- "creation date".
abbrev pub creation_date : Bytes
creation_date =
    b'c' ∷ b'r' ∷ b'e' ∷ b'a' ∷ b't' ∷ b'i' ∷ b'o' ∷ b'n' ∷ b' ' ∷ b'd' ∷ b'a' ∷ b't' ∷ b'e' ∷ []

-- "piece length".
abbrev pub piece_length : Bytes
piece_length =
    b'p' ∷ b'i' ∷ b'e' ∷ b'c' ∷ b'e' ∷ b' ' ∷ b'l' ∷ b'e' ∷ b'n' ∷ b'g' ∷ b't' ∷ b'h' ∷ []

-- "announce-list".
abbrev pub announce_list : Bytes
announce_list =
    b'a' ∷ b'n' ∷ b'n' ∷ b'o' ∷ b'u' ∷ b'n' ∷ b'c' ∷ b'e' ∷ b'-' ∷ b'l' ∷ b'i' ∷ b's' ∷ b't' ∷ []

-- "files".
abbrev pub files : Bytes
files = b'f' ∷ b'i' ∷ b'l' ∷ b'e' ∷ b's' ∷ []

-- "length".
abbrev pub length : Bytes
length = b'l' ∷ b'e' ∷ b'n' ∷ b'g' ∷ b't' ∷ b'h' ∷ []

-- "path".
abbrev pub path : Bytes
path = b'p' ∷ b'a' ∷ b't' ∷ b'h' ∷ []

-- "info".
abbrev pub info : Bytes
info = b'i' ∷ b'n' ∷ b'f' ∷ b'o' ∷ []

-- "peers".
abbrev pub peers : Bytes
peers = b'p' ∷ b'e' ∷ b'e' ∷ b'r' ∷ b's' ∷ []

-- "ip".
abbrev pub ip : Bytes
ip = b'i' ∷ b'p' ∷ []

-- "port".
abbrev pub port : Bytes
port = b'p' ∷ b'o' ∷ b'r' ∷ b't' ∷ []
