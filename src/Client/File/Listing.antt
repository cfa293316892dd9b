-- ===== src/Client/File/Listing.antt =====
-- internal/client/file.go: `Readdir`, `readdirAll` and `baseName`.
pub mod Pages
use smb1client.Common.{
  ℕ, zero, suc, ◌+◌, ◌-◌, Bool, true, false, not, ◌&&◌, ◌||◌, Option, none, some, List, [], ◌∷◌,
  ◌++◌, length, ltb, leb, ◌==◌, if◌then◌else◌, min, take, drop,
}
use smb1client.Common.Int.{ℤ, pos, negsuc}
use smb1client.Wire.{Bytes}
use smb1client.Smb1.Directory.{FileBothDirectoryInfo}
use smb1client.Client.File.{File}

abbrev pub backslash : ℕ
backslash = 92

pub record FileStat : Type 0 where
  pub creation_time : ℕ
  pub last_access_time : ℕ
  pub last_write_time : ℕ
  pub change_time : ℕ
  pub end_of_file : ℕ
  pub allocation_size : ℕ
  pub file_attributes : ℕ
  pub file_name : Bytes

-- The conversion of a directory entry, whose sizes are not above the signed range.
abbrev pub stat_of : FileBothDirectoryInfo → FileStat
stat_of file = record {
  creation_time = file.creation_time;
  last_access_time = file.last_access_time;
  last_write_time = file.last_write_time;
  change_time = file.change_time;
  end_of_file = file.end_of_file;
  allocation_size = file.allocation_size;
  file_attributes = file.file_attributes;
  file_name = file.file_name;
}

-- What a FIND_FIRST2 or FIND_NEXT2 brings: its entries, `EndOfSearch` and `SearchCount`.
pub record Batch : Type 0 where
  pub entries : List FileBothDirectoryInfo
  pub end_of_search : ℕ
  pub search_count : ℕ

pub data ListError : Type 0 where
  end_of_listing tree_not_found list_cancelled list_failed : ListError

-- What the directory gives when it is asked for its next batch: a batch, the context's end before it
-- is asked, or an error.
pub data NextBatch : Type 0 where
  brings : Batch → NextBatch
  listing_cancelled : NextBatch
  listing_fails : NextBatch

abbrev pub goes_on : Batch → Bool
goes_on b = b.end_of_search == 0 && ltb 0 b.search_count

-- "." and ".."
abbrev pub is_dot_entry : Bytes → Bool
is_dot_entry (a ∷ []) = a == b'.'
is_dot_entry (a ∷ b ∷ []) = a == b'.' && b == b'.'
is_dot_entry _ = false

unfoldable pub without_dots : List FileBothDirectoryInfo → List FileStat
without_dots [] = []
without_dots (e ∷ es) =
    if is_dot_entry e.file_name then without_dots es else stat_of e ∷ without_dots es

pub data Listing : Type 0 where
  listed : List FileStat → Listing
  list_error : ListError → Listing
  list_unfinished : Listing

-- The loop over FIND_NEXT2, of which so many rounds are given. `next` is what the i-th brings; the
-- source asks for as long as the server says that there is more.
unfoldable pub find_rounds : (ℕ → NextBatch) → ℕ → ℕ → List FileBothDirectoryInfo → Batch → Listing
find_rounds next zero i so_far b =
    if goes_on b then list_unfinished else listed (without_dots so_far)
find_rounds next (suc rounds) i so_far b =
    if goes_on b
    then elim (next i) [
      | brings b' ↦ find_rounds next rounds (i + 1) (so_far ++ b'.entries) b'
      | listing_cancelled ↦ list_error list_cancelled
      | listing_fails ↦ list_error list_failed
    ]
    else listed (without_dots so_far)

unfoldable pub readdir_all : (ℕ → NextBatch) → ℕ → NextBatch → Listing
readdir_all next rounds (brings b) = find_rounds next rounds 0 b.entries b
readdir_all next rounds listing_cancelled = list_error list_cancelled
readdir_all next rounds listing_fails = list_error list_failed

-- What `Readdir` returns: the entries, the error, and the file with its offset.
pub record Page : Type 0 where
  pub entries : List FileStat
  pub error : Option ListError
  pub file : File

abbrev pub page : List FileStat → Option ListError → File → Page
page entries e f = record { entries = entries; error = e; file = f }

pub data Turned : Type 0 where
  turns : Page → Turned
  turn_crashes : Turned

abbrev pub max_int : ℕ
max_int = 9223372036854775807

-- Entries from the offset on, at most n of them; `io.EOF` comes with the last. The sum of two `int`s
-- that is above the largest wraps to a negative bound of a slice, which panics.
unfoldable pub next_page : ℕ → List FileStat → File → Turned
next_page n entries f =
    if leb (length entries) f.offset
    then turns (page [] (some end_of_listing) f)
    else if ltb max_int (f.offset + n)
    then turn_crashes
    else turns (
        page (take n (drop f.offset entries))
          (if leb (length entries) (f.offset + n) then some end_of_listing else none)
          (record f { offset = min (f.offset + n) (length entries) }))

unfoldable pub readdir : Bool → Listing → ℤ → File → Turned
readdir tree_exists (listed entries) (pos (suc n)) f =
    if tree_exists then next_page (suc n) entries f else turns (page [] (some tree_not_found) f)
readdir tree_exists (listed entries) n f =
    turns (if tree_exists then page entries none f else page [] (some tree_not_found) f)
readdir tree_exists (list_error e) n f =
    turns (if tree_exists then page [] (some e) f else page [] (some tree_not_found) f)
readdir tree_exists list_unfinished n f = turns (page [] (some list_failed) f)

-- A caller that asks for page after page until it meets an error, at most so many times; nothing if a
-- call panics.
abbrev pub Followed : Type 0
Followed = Option (List FileStat × Option ListError)

abbrev pub and_before : List FileStat → Followed → Followed
and_before entries none = none
and_before entries (some (more, e)) = some (entries ++ more, e)

abbrev pub follow_page : Turned → (File → Followed) → Followed
follow_page turn_crashes next = none
follow_page (turns p) next = elim p.error [
  | some e ↦ some (p.entries, some e)
  | none ↦ and_before p.entries (next p.file)
]

unfoldable pub read_pages : ℕ → Listing → ℕ → File → Followed
read_pages zero entries n f = some ([], none)
read_pages (suc fuel) entries n f =
    follow_page (readdir true entries (pos n) f) (λ f'. read_pages fuel entries n f')

-- `baseName`: the end without its separators, back to the separator before it.
unfoldable pub trim_separators : Bytes → Bytes
trim_separators [] = []
trim_separators (x ∷ xs) =
    let rest = trim_separators xs in if x == backslash && length rest == 0 then [] else x ∷ rest

unfoldable pub last_element : Bytes → Bytes → Bytes
last_element so_far [] = so_far
last_element so_far (x ∷ xs) =
    if x == backslash then last_element [] xs else last_element (so_far ++ (x ∷ [])) xs

unfoldable pub base_name : Bytes → Bytes
base_name path = last_element [] (trim_separators path)
