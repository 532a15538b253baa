-- ===== src/Message.antt =====
-- src/network_part/BitTorrentMessage.cpp: messages between peers and their wire form.
use ufo_torrent.Common.{ℕ, ◌+◌, ◌/◌, ◌%◌, ◌^◌, [], ◌∷◌, ◌++◌, Bytes, length}

-- `enum MessageId`. The constructor takes a `uint8_t`, which makes 255 of `keepAlive = -1`.
abbrev pub keep_alive : ℕ
keep_alive = 255

abbrev pub choke : ℕ
choke = 0

abbrev pub unchoke : ℕ
unchoke = 1

abbrev pub interested : ℕ
interested = 2

abbrev pub have : ℕ
have = 4

abbrev pub bit_field : ℕ
bit_field = 5

abbrev pub request : ℕ
request = 6

abbrev pub piece : ℕ
piece = 7

pub record BitTorrentMessage : Type 0 where
  pub message_len : ℕ
  pub message_id : ℕ
  pub payload : Bytes

-- The constructor; the length is a `uint32_t`.
unfoldable pub message : ℕ → Bytes → BitTorrentMessage
message id payload = record {
  message_len = (length payload + 1) % 2 ^ 32;
  message_id = id;
  payload = payload;
}

-- The four bytes of a 32-bit number, the highest first.
unfoldable pub be32 : ℕ → Bytes
be32 n = (n / 2 ^ 24 % 256) ∷ (n / 2 ^ 16 % 256) ∷ (n / 2 ^ 8 % 256) ∷ (n % 256) ∷ []

-- `BitTorrentMessage::to_string`.
unfoldable pub message_string : BitTorrentMessage → Bytes
unfolding be32
message_string m = be32 m.message_len ++ (m.message_id ∷ m.payload)
