-- ===== src/Replay/File.antt =====
-- The text of the cache file: the reader and the writer of crates/fwknox-replay/src/persist.rs.
use fwknox.Base.{
  ℕ, ◌||◌, Option, none, some, List, [], ◌∷◌, ◌++◌, get_at?, Result, ok, err, ◌>>=◌, ok_or,
  if◌then◌else◌, nat_eq, list_eq,
}
use fwknox.Base.Text.{Text, codes, is_empty, starts_with, trim, words, lines}
use fwknox.Base.Number.{decimal_text, parse_uint}
use fwknox.Base.Assoc.{erase}
use fwknox.Config.Types.{FilePath}
use fwknox.Replay.Cache.{Nonce, Entries, ReplayError, read, invalid_format}
use fwknox.Replay.Hex.{encode_nonce_hex, parse_nonce_hex}

abbrev pub u64_max : ℕ
u64_max = 18_446_744_073_709_551_615

-- What `fs::read_to_string` gives.
pub data FileRead : Type 0 where
  found : Text → FileRead
  missing : FileRead
  failed : FileRead

-- One trimmed line: nothing for a comment or an empty line.
unfoldable pub read_line : FilePath → Text → Result ReplayError (Option (Nonce × ℕ))
read_line path line =
    let parts = words line in
    let entry = do
      nonce_hex ← ok_or (get_at? parts 0) (invalid_format path)
      ts_str ← ok_or (get_at? parts 1) (invalid_format path)
      nonce ← ok_or (parse_nonce_hex nonce_hex) (invalid_format path)
      ts ← ok_or (parse_uint u64_max ts_str) (invalid_format path)
      ok (some (nonce, ts))
    in if is_empty line || starts_with (codes "#") line then ok none else entry

-- `HashMap::insert`; the order of the list has no counterpart in the map.
unfoldable pub insert_entry : Option (Nonce × ℕ) → Entries → Entries
insert_entry none m = m
insert_entry (some (nonce, ts)) m = (nonce, ts) ∷ erase nonce m

unfoldable pub read_lines : FilePath → List Text → Entries → Result ReplayError Entries
read_lines path [] out = ok out
read_lines path (raw ∷ rest) out = do
  entry ← read_line path (trim raw)
  read_lines path rest (insert_entry entry out)

unfoldable pub read_cache_file : FilePath → FileRead → Result ReplayError Entries
read_cache_file path (found text) = read_lines path (lines text) []
read_cache_file path missing = ok []
read_cache_file path failed = err (read path)

-- `writeln!(file, "{} {}", encode_nonce_hex(nonce), ts)`
unfoldable pub entry_line : Nonce → ℕ → Text
entry_line nonce ts = encode_nonce_hex nonce ++ (32 ∷ decimal_text ts)

unfoldable pub entry_lines : Entries → Text
entry_lines [] = []
entry_lines ((nonce, ts) ∷ m) = entry_line nonce ts ++ (10 ∷ entry_lines m)

-- What the `writeln!`s of `write_cache_file` leave in the temporary file.
unfoldable pub cache_file_text : Entries → Text
cache_file_text m = codes "# fwknox replay cache" ++ (10 ∷ entry_lines m)
