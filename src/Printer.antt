-- ===== src/Printer.antt =====
-- src/bencode/prettyPrinter.cpp: what the printer writes, as text.
use ufo_torrent.Common.{
  [], ℕ, ◌+◌, ◌*◌, Bool, ◌&&◌, ◌||◌, ◌∷◌, ◌++◌, all, Bytes, leb, if◌then◌else◌, length, take,
  replicate,
}
use ufo_torrent.Common.Decimal.{to_string}
use ufo_torrent.Common.Int.{to_int}
use ufo_torrent.Bencode.{
  Value, Values, Entries, int, unsigned, string, list, dict, nil, cons, leaf, entry, int_text,
}

-- `getSpace`.
unfoldable pub get_space : ℕ → Bytes
get_space indentation = replicate (indentation * 2) b' '

-- `isAscii` of a `char`; one from 128 on is negative there and fails too.
unfoldable pub is_ascii : ℕ → Bool
is_ascii c = (leb 9 c && leb c 13) || (leb 32 c && leb c 126)

abbrev pub newline : Bytes
newline = 10 ∷ []

-- "BINARY DATA (length: ".
abbrev pub binary_data : Bytes
binary_data =
    b'B' ∷ b'I' ∷ b'N' ∷ b'A' ∷ b'R' ∷ b'Y' ∷ b' ' ∷ b'D' ∷ b'A' ∷ b'T' ∷ b'A' ∷ b' ' ∷ b'(' ∷ b'l'
    ∷ b'e' ∷ b'n' ∷ b'g' ∷ b't' ∷ b'h' ∷ b':' ∷ b' ' ∷ []

-- `operator()` on a string.
unfoldable pub print_string : Bytes → Bytes
unfolding is_ascii
print_string t =
    if all is_ascii t
    then take 100 t ++ newline
    else binary_data ++ (to_string (length t) ++ (b')' ∷ newline))

-- The printer at an indentation, on a value, and the loops over a vector and a dictionary.
unfoldable mutual
  unfolding int_text print_string get_space

  pub print_value : Value → ℕ → Bytes
  print_value (int z) indentation = int_text z ++ newline
  print_value (unsigned n) indentation = int_text (to_int n) ++ newline
  print_value (string t) indentation = print_string t
  print_value (list vs) indentation = newline ++ print_values vs indentation 0
  print_value (dict es) indentation = newline ++ print_entries es indentation

  pub print_values : Values → ℕ → ℕ → Bytes
  print_values nil indentation i = []
  print_values (cons v vs) indentation i =
      get_space indentation
      ++ ((b'[' ∷ to_string i)
          ++ ((b']' ∷ b':' ∷ b' ' ∷ print_value v (indentation + 1))
              ++ print_values vs indentation (i + 1)))

  pub print_entries : Entries → ℕ → Bytes
  print_entries leaf indentation = []
  print_entries (entry k v es) indentation =
      get_space indentation
      ++ ((b'{' ∷ k)
          ++ ((b'}' ∷ b':' ∷ b' ' ∷ print_value v (indentation + 1))
              ++ print_entries es indentation))
