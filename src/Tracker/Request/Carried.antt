-- ===== src/Tracker/Request/Carried.antt =====
-- What the URL of a request carries.
use ufo_torrent.Common.{
  ℕ, suc, ◌-◌, ◌/◌, ◌%◌, ◌^◌, ◌≤◌, ◌<◌, false, List, [], ◌∷◌, ◌++◌, All, Bytes, IsByte, ◌==◌,
  if◌then◌else◌, ◌≡◌, refl, sym, ap, subst, ◌∙◌, ◌≢◌, arith, ==_refl, All-append, All-imp,
}
use ufo_torrent.Common.Decimal.{to_string, to_string-IsDigit, IsDigit}
use ufo_torrent.Common.Int.{ℤ, pos, negsuc}
use ufo_torrent.Utils.{hex_digit}
use ufo_torrent.Utils.Text.{Decodes, done, percent_byte}
use ufo_torrent.Bencode.{int_text}
use ufo_torrent.Tracker.Request.{
  PeerRetriever, request_url, bytes_left, encoded_hash, info_hash_field, peer_id_field, port_field,
  uploaded_field, downloaded_field, left_field, compact_field,
}

-- The parts of a text between the places of a character.
abbrev in_front : ℕ → List Bytes → List Bytes
in_front c [] = (c ∷ []) ∷ []
in_front c (part ∷ parts) = (c ∷ part) ∷ parts

pub splits : ℕ → Bytes → List Bytes
splits c [] = [] ∷ []
splits c (b ∷ s) = let parts = splits c s in if b == c then [] ∷ parts else in_front b parts

-- The character is not in the text.
abbrev pub IsFree : ℕ → Bytes → Type 0
IsFree c = All (λ b. b ≢ c)

other : (b c : ℕ) → b ≢ c → (b == c) ≡ false
other b c h = ground arith

pub splits-free : (c : ℕ) (s : Bytes) → IsFree c s → splits c s ≡ s ∷ []
unfolding splits
splits-free c [] h = refl
splits-free c (b ∷ s) h = rw (other b c h.0, splits-free c s h.1) refl

pub splits-append : (c : ℕ) (s t : Bytes) → IsFree c s → splits c (s ++ (c ∷ t)) ≡ s ∷ splits c t
unfolding splits
splits-append c [] t h = rw (==_refl c) refl
splits-append c (b ∷ s) t h = rw (other b c h.0, splits-append c s t h.1) refl

-- The parameters of the query of a URL: behind the first question mark, where there is no second one.
abbrev query : List Bytes → Bytes
query (path ∷ text ∷ []) = text
query _ = []

abbrev pub parameters : Bytes → List Bytes
parameters url = splits b'&' (query (splits b'?' url))

IsDigit-IsFree : (c : ℕ) → c < b'0' → (s : Bytes) → All IsDigit s → IsFree c s
IsDigit-IsFree c l s d = All-imp s (λ b digit. ground (arith, digit)) d

-- Neither a question mark nor an ampersand is in the text.
abbrev pub IsPlain : Bytes → Type 0
IsPlain s = IsFree b'?' s × IsFree b'&' s

pub IsPlain-append : (s t : Bytes) → IsPlain s → IsPlain t → IsPlain (s ++ t)
IsPlain-append s t h k =
    (All-append (λ b. b ≢ b'?') s t h.0 k.0, All-append (λ b. b ≢ b'&') s t h.1 k.1)

pub to_string-IsPlain : (n : ℕ) → IsPlain (to_string n)
to_string-IsPlain n =
    let digits = to_string-IsDigit n in
    (
      All-imp (to_string n) (λ b digit. ground (arith, digit)) digits,
      All-imp (to_string n) (λ b digit. ground (arith, digit)) digits,
    )

int_text-IsPlain : (z : ℤ) → IsPlain (int_text z)
unfolding int_text
int_text-IsPlain (pos n) = to_string-IsPlain n
int_text-IsPlain (negsuc n) =
    IsPlain-append (b'-' ∷ []) (to_string (suc n)) (omega arith) (to_string-IsPlain (suc n))

hex_digit-IsPlain : (d : ℕ) → d < 16 → (hex_digit d ≢ b'?') × (hex_digit d ≢ b'&')
unfolding hex_digit
hex_digit-IsPlain d h = ground arith

pub encoded_hash-IsPlain : (hash : Bytes) → All IsByte hash → IsPlain (encoded_hash hash)
unfolding encoded_hash
encoded_hash-IsPlain [] h = (tt, tt)
encoded_hash-IsPlain (c ∷ cs) h =
    let high = hex_digit-IsPlain (c / 16) (omega (arith, h.0)) in
    let low = hex_digit-IsPlain (c % 16) (omega arith) in
    let rest = encoded_hash-IsPlain cs h.1 in
    ((omega arith, (high.0, (low.0, rest.0))), (omega arith, (high.1, (low.1, rest.1))))

encoded_hash-Decodes : (hash : Bytes) → All IsByte hash → Decodes (encoded_hash hash) hash
unfolding encoded_hash
encoded_hash-Decodes [] h = done
encoded_hash-Decodes (c ∷ cs) h = percent_byte c h.0 (encoded_hash-Decodes cs h.1)

-- Parts with an ampersand between them.
joined : Bytes → List Bytes → Bytes
joined s [] = s
joined s (t ∷ ts) = s ++ (b'&' ∷ joined t ts)

splits-joined :
    (s : Bytes) (ts : List Bytes) → IsPlain s → All IsPlain ts → splits b'&' (joined s ts) ≡ s ∷ ts
unfolding joined
splits-joined s [] h k = splits-free b'&' s h.1
splits-joined s (t ∷ ts) h k =
    splits-append b'&' s (joined t ts) h.1 ∙ ap (◌∷◌ s) (splits-joined t ts k.0 k.1)

joined-IsFree :
    (s : Bytes) (ts : List Bytes) → IsPlain s → All IsPlain ts → IsFree b'?' (joined s ts)
unfolding joined
joined-IsFree s [] h k = h.0
joined-IsFree s (t ∷ ts) h k =
    All-append (λ b. b ≢ b'?') s (b'&' ∷ joined t ts) h.0 (omega arith, joined-IsFree t ts k.0 k.1)

-- The parts of a query that are plain come out of the URL.
parameters-joined :
    (path s : Bytes) (ts : List Bytes)
    → IsFree b'?' path
    → IsPlain s
    → All IsPlain ts
    → parameters (path ++ (b'?' ∷ joined s ts)) ≡ s ∷ ts
parameters-joined path s ts f h k =
    let cut =
      splits-append b'?' path (joined s ts) f
      ∙ ap (◌∷◌ path) (splits-free b'?' (joined s ts) (joined-IsFree s ts h k)) in
    rw cut (splits-joined s ts h k)

-- What the query of a request says, for the number of bytes that are there and that are left.
abbrev pub stated : PeerRetriever → ℕ → ℕ → List Bytes
stated r downloaded left =
    (info_hash_field ++ r.info_hash)
    ∷ (peer_id_field ++ r.peer_id)
    ∷ (port_field ++ int_text r.port)
    ∷ uploaded_field
    ∷ (downloaded_field ++ to_string downloaded)
    ∷ (left_field ++ to_string left)
    ∷ compact_field
    ∷ []

pub request_url-parameters :
    (r : PeerRetriever) (downloaded left : ℕ)
    → IsFree b'?' r.announce_url
    → IsPlain r.info_hash
    → IsPlain r.peer_id
    → bytes_left r.file_size downloaded ≡ left
    → parameters (request_url r downloaded) ≡ stated r downloaded left
unfolding request_url joined
request_url-parameters r downloaded left free hash peer e = rw e (
    parameters-joined r.announce_url (info_hash_field ++ r.info_hash)
      ((peer_id_field ++ r.peer_id)
        ∷ (port_field ++ int_text r.port)
        ∷ uploaded_field
        ∷ (downloaded_field ++ to_string downloaded)
        ∷ (left_field ++ to_string left)
        ∷ compact_field
        ∷ [])
      free (IsPlain-append info_hash_field r.info_hash (omega arith) hash)
      (
        IsPlain-append peer_id_field r.peer_id (omega arith) peer,
        (
          IsPlain-append port_field (int_text r.port) (omega arith) (int_text-IsPlain r.port),
          (
            omega arith,
            (
              IsPlain-append downloaded_field (to_string downloaded) (omega arith)
                  (to_string-IsPlain downloaded),
              (
                IsPlain-append left_field (to_string left) (omega arith) (to_string-IsPlain left),
                omega arith,
              ),
            ),
          ),
        ),
      ))

-- What the tracker is asked: for an announce URL without a question mark and a peer identifier without
-- a question mark or an ampersand, the query of the request has seven parameters, the percent-encoded
-- info hash, the peer identifier, the port, no bytes uploaded, the bytes that are there, the rest of
-- the size of the file as the bytes left, and the compact form; and the text of the hash decodes to the
-- bytes of the hash.
pub request_url-Carries :
    (r : PeerRetriever) (hash : Bytes) (downloaded : ℕ)
    → r.info_hash ≡ encoded_hash hash
    → All IsByte hash
    → IsFree b'?' r.announce_url
    → IsPlain r.peer_id
    → downloaded ≤ r.file_size
    → r.file_size < 2 ^ 64
    → (parameters (request_url r downloaded) ≡ stated r downloaded (r.file_size - downloaded))
      × Decodes r.info_hash hash
unfolding bytes_left
request_url-Carries r hash downloaded e bytes free peer l h = (
  request_url-parameters r downloaded (r.file_size - downloaded) free
      (subst IsPlain (sym e) (encoded_hash-IsPlain hash bytes)) peer (omega arith),
  subst (λ text. Decodes text hash) (sym e) (encoded_hash-Decodes hash bytes),
)
