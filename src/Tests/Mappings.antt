-- ===== src/Tests/Mappings.antt =====
-- Two adjacent pieces of one file and a mapping without the permission.
use libgunwinder.Base.{ℕ, refl, ◌↔◌, false, [], ◌∷◌, List, arith}
use libgunwinder.Maps.{MapsLine, get_maps_info}
use libgunwinder.Maps.Extent.{AllRanges, Shows, LinesShow}
use libgunwinder.Maps.Merge.{mappings, get_maps_info-Shows}

abbrev piece : ℕ → ℕ → ℕ → MapsLine
piece start last offset = record {
  start = start;
  end = last;
  r = 114;
  w = 45;
  x = 120;
  offset = offset;
  path = 47 ∷ 97 ∷ [];
  deleted = false;
}

abbrev lines : List MapsLine
lines = piece 4096 8192 0 ∷ record (piece 65536 69632 0) { x = 45 } ∷ piece 8192 12288 4096 ∷ []

in_order : AllRanges (λ path. false) lines
in_order = (
  (omega arith, omega arith, refl),
  ((omega arith, omega arith, refl), ((omega arith, omega arith, refl), tt)),
)

get_maps_info-Shows_example :
    Shows 9000 4904
      (47 ∷ 97 ∷ [])
      false
      (mappings (λ path. false) 4 9000 4904 (47 ∷ 97 ∷ []) false (get_maps_info 4 lines))
    ↔ LinesShow 4 9000 4904 (47 ∷ 97 ∷ []) false lines
get_maps_info-Shows_example =
    get_maps_info-Shows (λ path. false) 4 9000 4904 (47 ∷ 97 ∷ []) false lines in_order
