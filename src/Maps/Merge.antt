-- ===== src/Maps/Merge.antt =====
-- The bytes of files that merged mappings show, for src/gu_comm.c.
use libgunwinder.Base.{
  ℕ, ◌+◌, ◌-◌, ◌^◌, ◌≡◌, ◌≤◌, ◌<◌, ◌↔◌, ◌⊎◌, inl, inr, refl, sym, ap, ◌∙◌, Bool, true, false,
  Option, none, some, List, [], ◌∷◌, ltb, arith, Bool-cases,
}
use mathlib.Core.Path.{subst}
use libgunwinder.Maps.{
  MapsLine, MapsInfo, has_permission, new_mapping, extends, maps_loop, get_maps_info,
}
use libgunwinder.Maps.Extent.{ShowsAt, Shows, LinesShow, AllRanges, extends-facts}

module _ (flagged : List ℕ → Bool) (flag a o : ℕ) (p : List ℕ) (d : Bool) where
  abbrev At : MapsInfo → Type 0
  At m = ShowsAt m.start m.end m.offset m.path m.deleted a o p d

  abbrev LineAt : MapsLine → Type 0
  LineAt l = ShowsAt l.start l.end l.offset l.path l.deleted a o p d

  abbrev Joins : MapsInfo → MapsLine → Type 0
  Joins m l =
      (m.end ≡ l.start)
      × (m.offset + (m.end - m.start) ≡ l.offset)
      × (m.path ≡ l.path)
      × (m.deleted ≡ l.deleted)

  -- A mapping and a line that extends it show what the two together do.
  split :
      (m : MapsInfo) (l : MapsLine)
      → m.start ≤ m.end
      → Joins m l
      → At (record m { end = l.end })
      → At m ⊎ LineAt l
  split m l up (meet, files, paths, same) (low, high, at_o, at_p, at_d) =
      elim (Bool-cases (ltb a m.end)) [
        | inl y ↦ inl (low, ground (arith, y), at_o, at_p, at_d)
        | inr n ↦
            (let above : m.end ≤ a = ground (arith, n) in
              inr (
                omega (arith, above, meet),
                high,
                omega (arith, at_o, files, meet, up, above),
                sym paths ∙ at_p,
                sym same ∙ at_d,
              ))
      ]

  join :
      (m : MapsInfo) (l : MapsLine)
      → m.start ≤ m.end
      → l.start ≤ l.end
      → Joins m l
      → At m ⊎ LineAt l
      → At (record m { end = l.end })
  join m l up up₁ (meet, files, paths, same) (inl (low, high, at_o, at_p, at_d)) =
      (low, omega (arith, high, meet, up₁), at_o, at_p, at_d)
  join m l up up₁ (meet, files, paths, same) (inr (low, high, at_o, at_p, at_d)) = (
    omega (arith, low, meet, up),
    high,
    omega (arith, at_o, files, meet, up, low),
    paths ∙ at_p,
    same ∙ at_d,
  )

  joined :
      (m : MapsInfo) (l : MapsLine)
      → m.start ≤ m.end
      → m.end < 2 ^ 64
      → extends m l ≡ true
      → m.deleted ≡ flagged m.path
      → l.deleted ≡ flagged l.path
      → Joins m l
  joined m l up fits e named named₁ =
      let (meet, files, paths) = extends-facts m l up fits e in
      (meet, files, paths, named ∙ ap flagged paths ∙ sym named₁)

  maps_loop-skip :
      (m : MapsInfo) (l : MapsLine) (r : List MapsLine)
      → has_permission flag l ≡ false
      → maps_loop flag m (l ∷ r) ≡ maps_loop flag m r
  unfolding maps_loop
  maps_loop-skip m l r n = rw (maps_loop, n) refl

  maps_loop-extend :
      (m : MapsInfo) (l : MapsLine) (r : List MapsLine)
      → has_permission flag l ≡ true
      → extends m l ≡ true
      → maps_loop flag m (l ∷ r) ≡ maps_loop flag (record m { end = l.end }) r
  unfolding maps_loop
  maps_loop-extend m l r y e = rw (maps_loop, y, e) refl

  maps_loop-new :
      (m : MapsInfo) (l : MapsLine) (r : List MapsLine)
      → has_permission flag l ≡ true
      → extends m l ≡ false
      → maps_loop flag m (l ∷ r) ≡ m ∷ maps_loop flag (new_mapping l) r
  unfolding maps_loop
  maps_loop-new m l r y e = rw (maps_loop, y, e) refl

  from_rest :
      (l : MapsLine) (r : List MapsLine) (A : Type 0)
      → A ⊎ LinesShow flag a o p d r
      → A ⊎ LinesShow flag a o p d (l ∷ r)
  from_rest l r A (inl h) = inl h
  from_rest l r A (inr h) = inr (inr h)

  maps_loop-Shows :
      (m : MapsInfo) (lines : List MapsLine)
      → m.start ≤ m.end
      → m.end < 2 ^ 64
      → m.deleted ≡ flagged m.path
      → AllRanges flagged lines
      → Shows a o p d (maps_loop flag m lines)
      → At m ⊎ LinesShow flag a o p d lines
  unfolding maps_loop
  maps_loop-Shows m [] up fits named good (inl h) = inl h
  maps_loop-Shows m [] up fits named good (inr h) = absurd h
  maps_loop-Shows m (l ∷ r) up fits named good h = elim (Bool-cases (has_permission flag l)) [
    | inr n ↦ from_rest l r (At m) (
        maps_loop-Shows m r up fits named good.1 (subst (Shows a o p d) (maps_loop-skip m l r n) h))
    | inl y ↦ elim (Bool-cases (extends m l)) [
      | inl e ↦
          (let joins = joined m l up fits e named good.0.2 in
            elim (maps_loop-Shows (record m { end = l.end }) r
              (omega (arith, up, joins.0, good.0.0)) good.0.1 named good.1
              (subst (Shows a o p d) (maps_loop-extend m l r y e) h)) [
                | inl at_m ↦ elim (split m l up joins at_m) [
                  | inl k ↦ inl k
                  | inr k ↦ inr (inl (y, k))
                ]
                | inr k ↦ inr (inr k)
              ])
      | inr e ↦ elim (subst (Shows a o p d) (maps_loop-new m l r y e) h) [
        | inl k ↦ inl k
        | inr later ↦
            elim (maps_loop-Shows (new_mapping l) r good.0.0 good.0.1 good.0.2 good.1 later) [
              | inl k ↦ inr (inl (y, k))
              | inr k ↦ inr (inr k)
            ]
      ]
    ]
  ]

  unwrap :
      (l : MapsLine) (r : List MapsLine)
      → LinesShow flag a o p d (l ∷ r)
      → LineAt l ⊎ LinesShow flag a o p d r
  unwrap l r (inl (y, k)) = inl k
  unwrap l r (inr k) = inr k

  rewrap :
      (l : MapsLine) (r : List MapsLine)
      → has_permission flag l ≡ true
      → LineAt l ⊎ LinesShow flag a o p d r
      → LinesShow flag a o p d (l ∷ r)
  rewrap l r y (inl k) = inl (y, k)
  rewrap l r y (inr k) = inr k

  after_skip :
      (l : MapsLine) (r : List MapsLine)
      → has_permission flag l ≡ false
      → LinesShow flag a o p d (l ∷ r)
      → LinesShow flag a o p d r
  after_skip l r n (inl (y, k)) = absurd (cc (y, n))
  after_skip l r n (inr k) = k

  regroup :
      (l : MapsLine) (r : List MapsLine) (A : Type 0)
      → A ⊎ LinesShow flag a o p d (l ∷ r)
      → (A ⊎ LineAt l) ⊎ LinesShow flag a o p d r
  regroup l r A (inl k) = inl (inl k)
  regroup l r A (inr (inl (y, k))) = inl (inr k)
  regroup l r A (inr (inr k)) = inr k

  skipped :
      (l : MapsLine) (r : List MapsLine) (A : Type 0)
      → has_permission flag l ≡ false
      → A ⊎ LinesShow flag a o p d (l ∷ r)
      → A ⊎ LinesShow flag a o p d r
  skipped l r A n (inl k) = inl k
  skipped l r A n (inr (inl (y, k))) = absurd (cc (y, n))
  skipped l r A n (inr (inr k)) = inr k

  maps_loop-LinesShow :
      (m : MapsInfo) (lines : List MapsLine)
      → m.start ≤ m.end
      → m.end < 2 ^ 64
      → m.deleted ≡ flagged m.path
      → AllRanges flagged lines
      → At m ⊎ LinesShow flag a o p d lines
      → Shows a o p d (maps_loop flag m lines)
  unfolding maps_loop
  maps_loop-LinesShow m [] up fits named good (inl h) = inl h
  maps_loop-LinesShow m [] up fits named good (inr h) = absurd h
  maps_loop-LinesShow m (l ∷ r) up fits named good h = elim (Bool-cases (has_permission flag l)) [
    | inr n ↦
        subst (Shows a o p d) (sym (maps_loop-skip m l r n))
          (maps_loop-LinesShow m r up fits named good.1 (skipped l r (At m) n h))
    | inl y ↦ elim (Bool-cases (extends m l)) [
      | inl e ↦
          (let joins = joined m l up fits e named good.0.2 in
            subst (Shows a o p d) (sym (maps_loop-extend m l r y e)) (
              maps_loop-LinesShow (record m { end = l.end }) r
                (omega (arith, up, joins.0, good.0.0)) good.0.1 named good.1
                (elim (regroup l r (At m) h) [
                  | inl k ↦ inl (join m l up good.0.0 joins k)
                  | inr k ↦ inr k
                ])))
      | inr e ↦ subst (Shows a o p d) (sym (maps_loop-new m l r y e)) (elim h [
        | inl k ↦ inl k
        | inr k ↦
            inr (
              maps_loop-LinesShow (new_mapping l) r good.0.0 good.0.1 good.0.2 good.1
                (unwrap l r k))
      ])
    ]
  ]

  -- The mappings of a call, none where it returns NULL.
  abbrev pub mappings : Option (List MapsInfo) → List MapsInfo
  mappings none = []
  mappings (some ms) = ms

  get_maps_info-skip :
      (l : MapsLine) (r : List MapsLine)
      → has_permission flag l ≡ false
      → get_maps_info flag (l ∷ r) ≡ get_maps_info flag r
  unfolding get_maps_info
  get_maps_info-skip l r n = rw (get_maps_info, n) refl

  get_maps_info-first :
      (l : MapsLine) (r : List MapsLine)
      → has_permission flag l ≡ true
      → get_maps_info flag (l ∷ r) ≡ some (maps_loop flag (new_mapping l) r)
  unfolding get_maps_info
  get_maps_info-first l r y = rw (get_maps_info, y) refl

  abbrev Shown : Option (List MapsInfo) → Type 0
  Shown m = Shows a o p d (mappings m)

  -- If no line of a process's mappings ends before it starts or at 2^64 or above, and lines of one
  -- path agree on whether the file is deleted, the merged mappings show at an address a byte of a
  -- file, given by its path and whether it is deleted, just when one of the lines with the
  -- permission asked for does: merging neither loses nor adds nor moves a byte.
  pub get_maps_info-Shows :
      (lines : List MapsLine)
      → AllRanges flagged lines
      → Shows a o p d (mappings (get_maps_info flag lines)) ↔ LinesShow flag a o p d lines
  unfolding get_maps_info
  get_maps_info-Shows [] good = ((λ h. h), (λ h. h))
  get_maps_info-Shows (l ∷ r) good = elim (Bool-cases (has_permission flag l)) [
    | inr n ↦
        (let (f, g) = get_maps_info-Shows r good.1 in
          (
            (λ h. inr (f (subst Shown (get_maps_info-skip l r n) h))),
            (λ h. subst Shown (sym (get_maps_info-skip l r n)) (g (after_skip l r n h))),
          ))
    | inl y ↦ (
      (λ h. rewrap l r y (
          maps_loop-Shows (new_mapping l) r good.0.0 good.0.1 good.0.2 good.1
            (subst Shown (get_maps_info-first l r y) h))),
      (λ h.
          subst Shown (sym (get_maps_info-first l r y)) (
            maps_loop-LinesShow (new_mapping l) r good.0.0 good.0.1 good.0.2 good.1
              (unwrap l r h))),
    )
  ]
