-- ===== src/Maps.antt =====
-- `gu_get_maps_info` of src/gu_comm.c: the mappings of a process, adjacent pieces of one file merged.
-- The lines of /proc/<pid>/maps come as `sscanf` reads them; allocation succeeds. Extent and Merge are about
-- the bytes of files that the mappings show.
pub mod Extent
pub mod Merge
use libgunwinder.Base.{
  ℕ, ◌+◌, ◌-◌, ◌^◌, Bool, true, false, not, ◌&&◌, ◌||◌, Option, none, some, List, [], ◌∷◌, leb,
  ◌==◌, if◌then◌else◌, bit_and, bit_or,
}
use libgunwinder.Base.Words.{sub64}
use libgunwinder.Unwind.{same_bytes}

-- A line with its four fields at least; the three characters are those of the permission.
pub record MapsLine : Type 0 where
  pub start : ℕ
  pub end : ℕ
  pub r : ℕ
  pub w : ℕ
  pub x : ℕ
  pub offset : ℕ
  pub path : List ℕ
  pub deleted : Bool

-- struct maps_info.
pub record MapsInfo : Type 0 where
  pub start : ℕ
  pub end : ℕ
  pub offset : ℕ
  pub permission : ℕ
  pub path : List ℕ
  pub deleted : Bool

-- Whether a permission's character grants one of the bits asked for: 1 to read, 2 to write, 4 to
-- execute.
unfoldable pub has_permission : ℕ → MapsLine → Bool
has_permission flag l =
    (l.r == 114 && not (bit_and 1 flag == 0))
    || (l.w == 119 && not (bit_and 2 flag == 0))
    || (l.x == 120 && not (bit_and 4 flag == 0))

-- The permission that is stored: the characters, one over the other.
abbrev pub permission_of : MapsLine → ℕ
permission_of l = bit_or (bit_or l.r l.w) l.x

abbrev pub new_mapping : MapsLine → MapsInfo
new_mapping l = record {
  start = l.start;
  end = l.end;
  offset = l.offset;
  permission = permission_of l;
  path = l.path;
  deleted = l.deleted;
}

-- Whether a line goes on where the mapping before it ends, in memory and in the file.
unfoldable pub extends : MapsInfo → MapsLine → Bool
extends prev l =
    let prev_size = sub64 prev.end prev.start in
    (prev.end == l.start)
    && leb prev.offset (2 ^ 64 - 1 - prev_size)
    && (prev.offset + prev_size == l.offset)
    && (prev.permission == permission_of l)
    && same_bytes prev.path l.path

-- `prev` is the last mapping so far, which a line may extend.
unfoldable pub maps_loop : ℕ → MapsInfo → List MapsLine → List MapsInfo
maps_loop flag prev [] = prev ∷ []
maps_loop flag prev (l ∷ rest) =
    if not (has_permission flag l)
    then maps_loop flag prev rest
    else if extends prev l
    then maps_loop flag (record prev { end = l.end }) rest
    else prev ∷ maps_loop flag (new_mapping l) rest

-- NULL where no line has the permission.
unfoldable pub get_maps_info : ℕ → List MapsLine → Option (List MapsInfo)
get_maps_info flag [] = none
get_maps_info flag (l ∷ rest) =
    if not (has_permission flag l)
    then get_maps_info flag rest
    else some (maps_loop flag (new_mapping l) rest)
