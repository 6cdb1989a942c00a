-- ===== src/Replay/Written.antt =====
-- What the writer of the cache file has written, its reader gives back.
use fwknox.Base.{
  ℕ, ◌<◌, ◌≤◌, ◌≡◌, refl, Bool, true, false, none, some, [], ◌∷◌, ◌++◌, arith, ltb, all, length,
  nat_beq, ◌==◌, list_beq_iff, ok, nat_eq, list_eq, if◌then◌else◌, is_some,
}
use fwknox.Base.Text.{
  Text, codes, is_empty, starts_with, without, lacks, is_space, trim, trim_start, trim_end, lines,
  trim-two, words-two, lines-append, is_empty-append,
}
use fwknox.Base.Number.{
  decimal_text, is_empty-decimal_text, parse_uint-decimal_text, lacks-decimal_text,
  no_space-decimal_text, all_of_all, all-append,
}
use fwknox.Base.Assoc.{lookup, Distinct, Distinct-erase, lookup-erase, lookup-erase_self}
use fwknox.Config.Types.{FilePath}
use fwknox.Replay.Cache.{Nonce, Entries}
use fwknox.Replay.Hex.{
  encode_nonce_hex, is_hexdigit, all-encode_nonce_hex, parse_nonce_hex-encode_nonce_hex,
}
use fwknox.Replay.File.{
  u64_max, found, read_line, insert_entry, read_lines, read_cache_file, entry_line, entry_lines,
  cache_file_text,
}

-- Sixteen bytes and a `u64`, as the types of the source have it.
pub record IsEntry (nonce : Nonce) (ts : ℕ) : Type 0 where
  pub size : length nonce ≡ 16
  pub bytes : all (λ b. ltb b 256) nonce ≡ true
  pub seconds : ts ≤ u64_max

abbrev pub AreEntries : Entries → Type 0
AreEntries [] = Unit
AreEntries ((nonce, ts) ∷ m) = IsEntry nonce ts × AreEntries m

hexdigit_no_space : (c : ℕ) → is_hexdigit c ≡ true → is_space c ≡ false
unfolding is_hexdigit is_space
hexdigit_no_space c h = ground arith

no_comment :
    (s t : Text)
    → is_empty s ≡ false
    → all is_hexdigit s ≡ true
    → starts_with (codes "#") (s ++ t) ≡ false
unfolding is_hexdigit
no_comment [] t full h = absurd (cc)
no_comment (c ∷ s) t full h = ground arith

is_empty-encode_nonce_hex : (n : Nonce) → length n ≡ 16 → is_empty (encode_nonce_hex n) ≡ false
unfolding encode_nonce_hex
is_empty-encode_nonce_hex [] h = absurd (omega arith)
is_empty-encode_nonce_hex (b ∷ n) h = refl

hexdigit_no_end : (c d : ℕ) → d < 48 → is_hexdigit c ≡ true → nat_beq c d ≡ false
unfolding is_hexdigit
hexdigit_no_end c d small h = ground arith

module _ (path : FilePath) (n : Nonce) (ts : ℕ) (e : IsEntry n ts) where
  without-hex :
      (p : ℕ → Bool)
      → ((c : ℕ) → is_hexdigit c ≡ true → p c ≡ false)
      → without p (encode_nonce_hex n) ≡ true
  without-hex p fails =
      all_of_all is_hexdigit _ (encode_nonce_hex n) (λ c h. rw (fails c h) refl)
        (all-encode_nonce_hex n e.bytes)

  lacks-entry_line : (d : ℕ) → d < 32 → lacks d (entry_line n ts) ≡ true
  unfolding entry_line
  lacks-entry_line d small =
      all-append _ (encode_nonce_hex n) (32 ∷ decimal_text ts)
        (without-hex _ (λ c. hexdigit_no_end c d (omega arith)))
        (ground (arith, lacks-decimal_text d ts (omega arith)))

  read_line-entry_line : read_line path (trim (entry_line n ts)) ≡ ok (some (n, ts))
  unfolding read_line entry_line
  read_line-entry_line =
      let full = is_empty-encode_nonce_hex n e.size in
      let full_ts = is_empty-decimal_text ts in
      let one = without-hex is_space hexdigit_no_space in
      let two = no_space-decimal_text ts in
      rw
        (
          trim-two (encode_nonce_hex n) (decimal_text ts) full full_ts one two,
          words-two (encode_nonce_hex n) (decimal_text ts) full full_ts one two,
          is_empty-append (encode_nonce_hex n) (32 ∷ decimal_text ts) refl,
          no_comment (encode_nonce_hex n) (32 ∷ decimal_text ts) full
              (all-encode_nonce_hex n e.bytes),
          parse_nonce_hex-encode_nonce_hex n e.size e.bytes,
          parse_uint-decimal_text u64_max ts e.seconds (omega (arith, e.seconds)),
        )
        refl

-- Later entries displace earlier ones.
insert_all : Entries → Entries → Entries
insert_all [] m = m
insert_all ((nonce, ts) ∷ rest) m = insert_all rest (insert_entry (some (nonce, ts)) m)

lookup-insert_entry :
    (k n : Nonce) (ts : ℕ) (m : Entries)
    → Distinct m
    → lookup k (insert_entry (some (n, ts)) m) ≡ (if n == k then some ts else lookup k m)
unfolding insert_entry lookup
lookup-insert_entry k n ts m d = ground (arith, lookup-erase n k m d)

Distinct-insert_entry :
    (n : Nonce) (ts : ℕ) (m : Entries) → Distinct m → Distinct (insert_entry (some (n, ts)) m)
unfolding insert_entry
Distinct-insert_entry n ts m d = (lookup-erase_self n m d, Distinct-erase n m d)

lookup-insert_all :
    (k : Nonce) (es m : Entries)
    → Distinct es
    → Distinct m
    → lookup k (insert_all es m) ≡ (if is_some (lookup k es) then lookup k es else lookup k m)
unfolding insert_all lookup
lookup-insert_all k [] m de dm = refl
lookup-insert_all k ((n, ts) ∷ es) m de dm = ground (
  arith,
  lookup-insert_all k es (insert_entry (some (n, ts)) m) de.1 (Distinct-insert_entry n ts m dm),
  lookup-insert_entry k n ts m dm,
  list_beq_iff n k,
)

read_lines-entry_lines :
    (path : FilePath) (es m : Entries)
    → AreEntries es
    → read_lines path (lines (entry_lines es)) m ≡ ok (insert_all es m)
unfolding entry_lines read_lines lines insert_all
read_lines-entry_lines path [] m h = refl
read_lines-entry_lines path ((n, ts) ∷ es) m h =
    rw
      (
        lines-append (entry_line n ts) (entry_lines es)
            (lacks-entry_line path n ts h.0 10 (omega arith))
            (lacks-entry_line path n ts h.0 13 (omega arith)),
        read_line-entry_line path n ts h.0,
      )
      (read_lines-entry_lines path es (insert_entry (some (n, ts)) m) h.1)

head_line : (path : FilePath) → read_line path (trim (codes "# fwknox replay cache")) ≡ ok none
unfolding read_line trim trim_start trim_end is_space
head_line path = refl

-- Whatever entries, each of sixteen bytes and a `u64` and none twice, are written to the cache file,
-- reading its text succeeds with a map that holds exactly these.
pub read_cache_file-cache_file_text :
    (path : FilePath) (es : Entries)
    → AreEntries es
    → Distinct es
    → (m : Entries) × (read_cache_file path (found (cache_file_text es)) ≡ ok m)
      × ((k : Nonce) → lookup k m ≡ lookup k es)
unfolding read_cache_file cache_file_text lookup read_lines insert_entry
read_cache_file-cache_file_text path es h d = (
  insert_all es [],
  rw (lines-append (codes "# fwknox replay cache") (entry_lines es) refl refl, head_line path)
      (read_lines-entry_lines path es [] h),
  λ k. ground (arith, lookup-insert_all k es [] d tt),
)
