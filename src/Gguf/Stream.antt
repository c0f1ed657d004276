-- ===== src/Gguf/Stream.antt =====
-- The file stream of tools/xdna-gguf-info.cpp: `read` and `seekg` of `std::ifstream`, and `read_string`.
pub mod Laws
use xdna_cpp.Base.{
  ℕ, zero, suc, ◌+◌, ◌-◌, ◌*◌, ◌/◌, ◌%◌, ◌^◌, Bool, true, false, ◌||◌, Bytes, [], ◌∷◌, ◌++◌, length,
  take, drop, replicate, ltb, if◌then◌else◌,
}

-- The bytes of the file, the position, and `fail()`.
pub record FileStream : Type 0 where
  pub content : Bytes
  pub position : ℕ
  pub failed : Bool

-- `read` fails where fewer bytes are left, and gives those; behind a failure it gives none.
unfoldable pub read_bytes : ℕ → FileStream → Bytes × FileStream
read_bytes n f = elim f.failed [
  | true ↦ ([], f)
  | false ↦
      let got = take n (drop f.position f.content) in
      (got, record f { position = f.position + length got; failed = ltb (length got) n })
]

-- A little-endian variable whose first bytes are overwritten.
unfoldable pub overwritten : (old : ℕ) → Bytes → ℕ
overwritten old [] = old
overwritten old (b ∷ bytes) = b + 256 * overwritten (old / 256) bytes

-- `f.read(reinterpret_cast<char*>(&variable), size)`
unfoldable pub read_number : (size old : ℕ) → FileStream → ℕ × FileStream
read_number size old f = let (got, f') = read_bytes size f in (overwritten old got, f')

abbrev pub fail_stream : FileStream → FileStream
fail_stream f = record f { failed = true }

-- A file offset is a signed number of 64 bits.
abbrev pub move_to : FileStream → ℕ → FileStream
move_to f position =
    if ltb position (2 ^ 63) then record f { position = position } else fail_stream f

abbrev pub move_back : FileStream → ℕ → FileStream
move_back f distance =
    if ltb f.position distance then fail_stream f else record f { position = f.position - distance }

-- `f.seekg(offset, std::ios::cur)`: an offset of 2 ^ 63 or more is a negative `std::streamoff`.
unfoldable pub seek_cur : ℕ → FileStream → FileStream
seek_cur offset f = elim f.failed [
  | true ↦ f
  | false ↦
      if ltb offset (2 ^ 63) then move_to f (f.position + offset) else move_back f (2 ^ 64 - offset)
]

-- The bytes of the string that were not read are zero.
abbrev pub padded : ℕ → Bytes → Bytes
padded len got = got ++ replicate (len - length got) 0

unfoldable pub read_string : FileStream → Bytes × FileStream
read_string f =
    let (len, f') = read_number 8 0 f in
    if f'.failed || ltb 1000000 len
    then ([], f')
    else (let (got, f'') = read_bytes len f' in (padded len got, f''))
