-- ===== src/Interval.antt =====
-- src/gu_interval_array.c and src/gu_interval_array.h: sorted interval arrays with binary search.
-- An array holds its items in one of two backing stores; a NULL store is `none`. A payload is its
-- pointer value, 0 for NULL, with the ownership tag in bit 63. `qsort` is a parameter.
pub mod Order
pub mod Payload
pub mod Lookup
pub mod Build
use libgunwinder.Base.{
  ℕ, zero, suc, ◌+◌, ◌-◌, ◌/◌, ◌%◌, ◌^◌, ◌≤◌, ◌≡◌, Bool, true, false, not, ◌&&◌, ◌||◌, Option, none,
  some, List, [], ◌∷◌, map, bit_and, bit_or, ltb, leb, ◌==◌, if◌then◌else◌, Run, ok, fail, fault,
  past_end, wild_pointer, deep, length, get_elem?, set,
}
use mathlib.Core.List.{Perm}

pub record Item : Type 0 where
  pub start : ℕ
  pub end : ℕ
  pub private : ℕ

pub data StoreType : Type 0 where
  u32 u64 : StoreType

-- `count` is never negative: it is the length of the array that was sorted.
pub record IntervalArray : Type 0 where
  pub items_u32 : Option (List Item)
  pub items_u64 : Option (List Item)
  pub count : ℕ
  pub type : StoreType
  pub min : ℕ
  pub max : ℕ

-- The ownership tag of a payload pointer.
unfoldable pub mark_no_free : ℕ → ℕ
mark_no_free p = bit_or p (2 ^ 63)

unfoldable pub is_marked : ℕ → Bool
is_marked p = not (bit_and p (2 ^ 63) == 0)

unfoldable pub get_pointer : ℕ → ℕ
get_pointer p = bit_and p (2 ^ 63 - 1)

-- What C promises of `qsort` with `compare_intervals`.
abbrev pub Ascending : List Item → Type 0
Ascending [] = Unit
Ascending (x ∷ []) = Unit
Ascending (x ∷ y ∷ r) = (x.start ≤ y.start) × Ascending (y ∷ r)

pub record Qsort : Type 0 where
  pub apply : List Item → List Item
  pub permutes : (xs : List Item) → Perm (apply xs) xs
  pub ascends : (xs : List Item) → Ascending (apply xs)

abbrev pub uint32_max : ℕ
uint32_max = 2 ^ 32 - 1

abbrev pub uint64_max : ℕ
uint64_max = 2 ^ 64 - 1

unfoldable pub last_end : Item → Item
last_end x =
    if x.end == 0
    then record x { end = if ltb x.start uint32_max then uint32_max - 1 else uint64_max - 1 }
    else x

-- An open end becomes the next start; the last one becomes the end of the address range.
unfoldable pub fill_ends : List Item → List Item
unfolding last_end
fill_ends [] = []
fill_ends (x ∷ []) = last_end x ∷ []
fill_ends (x ∷ y ∷ r) = (if x.end == 0 then record x { end = y.start } else x) ∷ fill_ends (y ∷ r)

-- `items[count - 1].end`, for a first item and the rest.
unfoldable pub final_end : Item → List Item → ℕ
final_end x [] = x.end
final_end x (y ∷ r) = final_end y r

unfoldable pub narrow : Item → Item
narrow x = record x { start = x.start % 2 ^ 32; end = x.end % 2 ^ 32 }

-- The two allocations succeed or fail as the arguments say.
unfoldable pub build : Bool → List Item → Option IntervalArray
unfolding final_end narrow
build alloc_items [] = none
build alloc_items (x ∷ r) =
    if not alloc_items
    then none
    else if ltb (final_end x r) uint32_max
    then some (record {
      items_u32 = some (map narrow (x ∷ r));
      items_u64 = none;
      count = length (x ∷ r);
      type = u32;
      min = x.start % 2 ^ 32;
      max = final_end x r % 2 ^ 32;
    })
    else some (record {
      items_u32 = none;
      items_u64 = some (x ∷ r);
      count = length (x ∷ r);
      type = u64;
      min = x.start;
      max = final_end x r;
    })

-- The caller's items, sorted in place with their ends filled, and the new array or NULL.
unfoldable pub init : Qsort → Bool → Bool → List Item → List Item × Option IntervalArray
unfolding fill_ends build
init qsort alloc_array alloc_items items =
    if (length items == 0) || not alloc_array
    then (items, none)
    else (let filled = fill_ends (qsort.apply items) in (filled, build alloc_items filled))

-- The body of both `while (left <= right)` loops, with `hi` for `right + 1`.
unfoldable pub search_items : ℕ → List Item → ℕ → ℕ → ℕ → Run (ℕ × Item)
search_items zero items addr left hi = if ltb left hi then fault deep else fail
search_items (suc fuel) items addr left hi =
    let mid = left + (hi - 1 - left) / 2 in
    let below = search_items fuel items addr left mid in
    let above = search_items fuel items addr (mid + 1) hi in
    if ltb left hi
    then elim (get_elem? items mid) [
      | none ↦ fault past_end
      | some x ↦
          if leb x.start addr && ltb addr x.end
          then ok (mid, x)
          else (if ltb addr x.start then below else above)
    ]
    else fail

-- `*item` and the array after a search, with the index returned; -1 is `none`.
pub record SearchResult : Type 0 where
  pub array : Option IntervalArray
  pub item : Item
  pub index : Option ℕ

abbrev pub cleared : Item
cleared = record { start = 0; end = 0; private = 0 }

abbrev pub missed : Option IntervalArray → Run SearchResult
missed array = ok (record { array = array; item = cleared; index = none })

-- What a hit writes back to the store: the tag, unless the payload has it already.
unfoldable pub keep_payload : Bool → List Item → ℕ → Item → List Item
unfolding mark_no_free is_marked
keep_payload set_no_free items mid x =
    if set_no_free && not (is_marked x.private)
    then set items mid (record x { private = mark_no_free x.private })
    else items

-- The end of a search: the item with its payload untagged, and the index of the hit.
unfoldable pub report :
    Bool
    → IntervalArray
    → (List Item → IntervalArray)
    → List Item
    → Run (ℕ × Item)
    → Run SearchResult
report set_no_free a put items (ok (mid, x)) = ok (record {
  array = some (put (keep_payload set_no_free items mid x));
  item = record x { private = get_pointer x.private };
  index = some mid;
})
report set_no_free a put items fail = missed (some a)
report set_no_free a put items (fault e) = fault e

unfoldable pub search_store :
    Bool → IntervalArray → (List Item → IntervalArray) → Option (List Item) → ℕ → Run SearchResult
unfolding report
search_store set_no_free a put none addr = fault wild_pointer
search_store set_no_free a put (some items) addr =
    report set_no_free a put items (search_items a.count items addr 0 a.count)

abbrev pub has_store : IntervalArray → Bool
has_store a = elim a.items_u32 [
  | some items ↦ true
  | none ↦ elim a.items_u64 [ some items ↦ true | none ↦ false ]
]

-- `__gu_interval_array_search`; the callers always give an output item.
unfoldable pub search : Bool → Option IntervalArray → ℕ → Run SearchResult
unfolding search_store
search set_no_free none addr = missed none
search set_no_free (some a) addr =
    if (a.count == 0) || not (has_store a)
    then missed (some a)
    else if ltb addr a.min || ltb a.max addr
    then missed (some a)
    else elim a.type [
      | u32 ↦ search_store set_no_free a (λ s. record a { items_u32 = some s }) a.items_u32 addr
      | u64 ↦ search_store set_no_free a (λ s. record a { items_u64 = some s }) a.items_u64 addr
    ]

-- The payloads that `gu_interval_array_for_each_private` visits, in order.
unfoldable pub visited : List Item → List ℕ
unfolding get_pointer
visited [] = []
visited (x ∷ r) = if x.private == 0 then visited r else get_pointer x.private ∷ visited r

-- The payloads that `gu_interval_array_destroy` frees, in order.
unfoldable pub freed : List Item → List ℕ
unfolding get_pointer is_marked
freed [] = []
freed (x ∷ r) =
    if (x.private == 0) || is_marked x.private then freed r else get_pointer x.private ∷ freed r

abbrev pub store_or_nil : Option (List Item) → List Item
store_or_nil none = []
store_or_nil (some items) = items
