-- ===== src/Cfi/Parse/Coherence.antt =====
-- The parse cache is transparent: a parse with it gives what decoding gives.
use libgunwinder.Base.{
  ℕ, zero, suc, ◌≡◌, refl, Bool, Option, none, some, List, [], ◌∷◌, arith, Run, ok, fail, fault,
  get_elem?, Bool-cases, Option-cases, inl, inr, get_elem?-set, sym, ◌⊎◌, ap, ◌∙◌,
}
use mathlib.Core.Path.{subst}
use libgunwinder.Cfi.Parse.{
  Scratch, CacheEntry, Tables, GuCfi, parse_cache_index, parse_cache_load, parse_cache_store,
  all_cacheable, decode_frame, parse_cfi_ex,
}

-- Every valid entry holds what decoding at its `pc` gives.
abbrev pub AllDecoded : Tables → List (Option CacheEntry) → Type 0
AllDecoded t [] = Unit
AllDecoded t (none ∷ r) = AllDecoded t r
AllDecoded t (some e ∷ r) = (decode_frame t e.pc ≡ ok (e.scratch, e.signal_frame)) × AllDecoded t r

-- The same, by the entry's place.
abbrev IsCoherent : GuCfi → Type 0
IsCoherent cfi =
    (i : ℕ) (e : CacheEntry)
    → get_elem? cfi.parse_cache i ≡ some (some e)
    → decode_frame cfi.tables e.pc ≡ ok (e.scratch, e.signal_frame)

abbrev OneDecoded : Tables → Option (Option CacheEntry) → Type 0
OneDecoded t none = Unit
OneDecoded t (some none) = Unit
OneDecoded t (some (some e)) = decode_frame t e.pc ≡ ok (e.scratch, e.signal_frame)

AllDecoded-get_elem? :
    (t : Tables) (cache : List (Option CacheEntry)) (i : ℕ) (e : CacheEntry)
    → AllDecoded t cache
    → get_elem? cache i ≡ some (some e)
    → decode_frame t e.pc ≡ ok (e.scratch, e.signal_frame)
AllDecoded-get_elem? t [] i e all found = absurd (ground arith)
AllDecoded-get_elem? t (none ∷ r) zero e all found = absurd (ground arith)
AllDecoded-get_elem? t (none ∷ r) (suc i) e all found = AllDecoded-get_elem? t r i e all found
AllDecoded-get_elem? t (some c ∷ r) zero e all found = subst (OneDecoded t) found all.0
AllDecoded-get_elem? t (some c ∷ r) (suc i) e all found = AllDecoded-get_elem? t r i e all.1 found

get_elem?-AllDecoded :
    (t : Tables) (cache : List (Option CacheEntry))
    → ((i : ℕ) (e : CacheEntry)
        → get_elem? cache i ≡ some (some e)
        → decode_frame t e.pc ≡ ok (e.scratch, e.signal_frame))
    → AllDecoded t cache
get_elem?-AllDecoded t [] h = tt
get_elem?-AllDecoded t (none ∷ r) h = get_elem?-AllDecoded t r (λ i. h (suc i))
get_elem?-AllDecoded t (some e ∷ r) h = (h 0 e refl, get_elem?-AllDecoded t r (λ i. h (suc i)))

load-hit :
    (cache : List (Option CacheEntry)) (pc : ℕ) (e : CacheEntry)
    → parse_cache_load cache pc ≡ some e
    → (get_elem? cache (parse_cache_index pc) ≡ some (some e)) × (e.pc ≡ pc)
unfolding parse_cache_load
load-hit cache pc e h = ground arith

store-entry :
    (cache : List (Option CacheEntry)) (pc : ℕ) (signal : Bool) (s : Scratch) (i : ℕ)
    (e : CacheEntry)
    → get_elem? (parse_cache_store cache pc signal s) i ≡ some (some e)
    → (get_elem? cache i ≡ some (some e))
      ⊎ (some e ≡ some (record { pc = pc; signal_frame = signal; scratch = s }))
unfolding parse_cache_store
store-entry cache pc signal s i e h = elim (Bool-cases (all_cacheable s)) [
  | inl y ↦ get_elem?-set cache (parse_cache_index pc) i _ _ (rw y at h)
  | inr n ↦ inl (rw n at h)
]

-- A parse returns what decoding gives, and leaves a coherent cache and the tables alone.
abbrev Transparent : GuCfi → ℕ → GuCfi × Run (Scratch × Bool) → Type 0
Transparent cfi pc (after, result) =
    (result ≡ decode_frame cfi.tables pc) × IsCoherent after × (after.tables ≡ cfi.tables)

is_new :
    (t : Tables) (pc : ℕ) (signal : Bool) (s : Scratch) (e : CacheEntry)
    → decode_frame t pc ≡ ok (s, signal)
    → some e ≡ some (record { pc = pc; signal_frame = signal; scratch = s })
    → decode_frame t e.pc ≡ ok (e.scratch, e.signal_frame)
is_new t pc signal s e d new = subst (λ o. OneDecoded t (some o)) (sym new) d

store-IsCoherent :
    (cfi : GuCfi) (pc : ℕ) (signal : Bool) (s : Scratch)
    → IsCoherent cfi
    → decode_frame cfi.tables pc ≡ ok (s, signal)
    → IsCoherent (record cfi { parse_cache = parse_cache_store cfi.parse_cache pc signal s })
store-IsCoherent cfi pc signal s h d i entry found =
    elim (store-entry cfi.parse_cache pc signal s i entry found) [
      | inl old ↦ h i entry old
      | inr new ↦ is_new cfi.tables pc signal s entry d new
    ]

after_miss : GuCfi → ℕ → Run (Scratch × Bool) → GuCfi × Run (Scratch × Bool)
after_miss cfi pc (ok (s, signal)) =
    (record cfi { parse_cache = parse_cache_store cfi.parse_cache pc signal s }, ok (s, signal))
after_miss cfi pc fail = (cfi, fail)
after_miss cfi pc (fault e) = (cfi, fault e)

missed :
    (cfi : GuCfi) (pc : ℕ) (d : Run (Scratch × Bool))
    → parse_cache_load cfi.parse_cache pc ≡ none
    → decode_frame cfi.tables pc ≡ d
    → parse_cfi_ex cfi pc ≡ after_miss cfi pc d
unfolding parse_cfi_ex after_miss
missed cfi pc (ok (s, signal)) miss e = rw (parse_cfi_ex, miss, e) refl
missed cfi pc fail miss e = rw (parse_cfi_ex, miss, e) refl
missed cfi pc (fault f) miss e = rw (parse_cfi_ex, miss, e) refl

decoded :
    (cfi : GuCfi) (pc : ℕ) (d : Run (Scratch × Bool))
    → IsCoherent cfi
    → decode_frame cfi.tables pc ≡ d
    → Transparent cfi pc (after_miss cfi pc d)
unfolding after_miss
decoded cfi pc (ok (s, signal)) h e = (sym e, store-IsCoherent cfi pc signal s h e, refl)
decoded cfi pc fail h e = (sym e, h, refl)
decoded cfi pc (fault f) h e = (sym e, h, refl)

loaded :
    (cfi : GuCfi) (pc : ℕ) (entry : CacheEntry)
    → parse_cache_load cfi.parse_cache pc ≡ some entry
    → parse_cfi_ex cfi pc ≡ (cfi, ok (entry.scratch, entry.signal_frame))
unfolding parse_cfi_ex
loaded cfi pc entry e = rw (parse_cfi_ex, e) refl

transparent : (cfi : GuCfi) (pc : ℕ) → IsCoherent cfi → Transparent cfi pc (parse_cfi_ex cfi pc)
transparent cfi pc h = elim (Option-cases (parse_cache_load cfi.parse_cache pc)) [
  | inl e ↦
      subst (Transparent cfi pc) (sym (missed cfi pc (decode_frame cfi.tables pc) e refl))
        (decoded cfi pc (decode_frame cfi.tables pc) h refl)
  | inr (entry, e) ↦
      let found = load-hit cfi.parse_cache pc entry e in
      let right = h (parse_cache_index pc) entry found.0 in
      subst (Transparent cfi pc) (sym (loaded cfi pc entry e))
        (sym right ∙ ap (decode_frame cfi.tables) found.1, h, refl)
]

-- If every entry of the parse cache is what decoding gives at the entry's address, a parse ends as
-- decoding ends, and returns what it returns, every entry afterwards is what decoding gives at its
-- address, and the tables are unchanged.
pub parse_cfi_ex-decode_frame :
    (cfi : GuCfi) (pc : ℕ)
    → AllDecoded cfi.tables cfi.parse_cache
    → ((parse_cfi_ex cfi pc).1 ≡ decode_frame cfi.tables pc)
      × AllDecoded cfi.tables (parse_cfi_ex cfi pc).0.parse_cache
      × ((parse_cfi_ex cfi pc).0.tables ≡ cfi.tables)
parse_cfi_ex-decode_frame cfi pc h =
    let coherent : IsCoherent cfi = λ i e. AllDecoded-get_elem? cfi.tables cfi.parse_cache i e h in
    let (result, after, same) = transparent cfi pc coherent in
    (
      result,
      subst (λ t. AllDecoded t (parse_cfi_ex cfi pc).0.parse_cache) same
          (get_elem?-AllDecoded _ _ after),
      same,
    )
