-- ===== src/Event/Queue.antt =====
-- The listener table as a queue of the callbacks in the order of their registration.
use libgunwinder.Base.{
  suc, ◌≡◌, refl, true, false, Option, none, some, List, [], ◌∷◌, ◌++◌, ◌⊎◌, length, ap, map, inl,
  inr,
}
use libgunwinder.Event.{outcome, PidCtxEvent, fill_slot, register_listener, notify}

module _ {ℓ} {Listener : Type ℓ} where
  -- The registered listeners stand before the free slots.
  abbrev pub IsPacked : List (Option Listener) → Type 0
  IsPacked [] = Unit
  IsPacked (some l ∷ r) = IsPacked r
  IsPacked (none ∷ []) = Unit
  IsPacked (none ∷ none ∷ r) = IsPacked (none ∷ r)
  IsPacked (none ∷ some l ∷ r) = ⊥

  -- The listeners in slot order.
  unfoldable pub registered : List (Option Listener) → List Listener
  registered [] = []
  registered (none ∷ r) = registered r
  registered (some l ∷ r) = l ∷ registered r

  registered_free : (r : List (Option Listener)) → IsPacked (none ∷ r) → registered r ≡ []
  unfolding registered
  registered_free [] p = refl
  registered_free (none ∷ r) p = registered_free r p
  registered_free (some l ∷ r) p = absurd p

  IsPacked-free : (r : List (Option Listener)) → IsPacked (none ∷ r) → IsPacked r
  IsPacked-free [] p = tt
  IsPacked-free (none ∷ r) p = p
  IsPacked-free (some l ∷ r) p = absurd p

  -- A table that took a listener, or that was full.
  abbrev Filled : List (Option Listener) → Listener → Option (List (Option Listener)) → Type ℓ
  Filled table l none = (length (registered table) ≡ length table) × (l ≡ l)
  Filled table l (some t) =
      IsPacked t × (length t ≡ length table) × (registered t ≡ registered table ++ l ∷ [])

  fill_slot-Filled :
      (table : List (Option Listener)) (l : Listener)
      → IsPacked table
      → Filled table l (fill_slot table l)
  unfolding fill_slot registered
  fill_slot-Filled [] l p = (refl, refl)
  fill_slot-Filled (none ∷ r) l p = (IsPacked-free r p, refl, rw (registered_free r p))
  fill_slot-Filled (some k ∷ r) l p =
      (elim (fill_slot r l)
          as (λ o.
            Filled r l o
            → Filled (some k ∷ r) l (elim o [ none ↦ none | some t ↦ some (some k ∷ t) ])) [
              | none ↦ λ full. (ap suc full.0, refl)
              | some t ↦ λ f. (f.0, ap suc f.1, ap (λ (q : List Listener). k ∷ q) f.2)
            ])
        (fill_slot-Filled r l p)

  -- On a table whose free slots stand last, registering a callback appends it to the registered
  -- ones while a slot is free, is refused without a change when none is, and keeps the table's
  -- size and its free slots last.
  pub register_listener-registered :
      (table : List (Option Listener)) (l : Listener)
      → IsPacked table
      → (IsPacked (register_listener table (some l)).0
          × (length (register_listener table (some l)).0 ≡ length table))
        × (((register_listener table (some l)).1 ≡ true)
              × (registered (register_listener table (some l)).0 ≡ registered table ++ l ∷ [])
            ⊎ ((register_listener table (some l)).1 ≡ false)
              × (register_listener table (some l) ≡ (table, false))
              × (length (registered table) ≡ length table))
  unfolding register_listener
  register_listener-registered table l p =
      (elim (fill_slot table l)
          as (λ o.
            Filled table l o
            → (IsPacked (outcome table o).0 × (length (outcome table o).0 ≡ length table))
              × (((outcome table o).1 ≡ true)
                    × (registered (outcome table o).0 ≡ registered table ++ l ∷ [])
                  ⊎ ((outcome table o).1 ≡ false)
                    × (outcome table o ≡ (table, false))
                    × (length (registered table) ≡ length table))) [
                      | none ↦ λ full. ((p, refl), inr (refl, refl, full.0))
                      | some t ↦ λ f. ((f.0, f.1), inl (refl, f.2))
                    ])
        (fill_slot-Filled table l p)

  -- An event is passed to every registered callback, once and in the order of the table.
  pub notify-registered :
      (table : List (Option Listener)) (event : PidCtxEvent)
      → notify table event ≡ map (λ l. (l, event)) (registered table)
  unfolding notify registered
  notify-registered [] event = refl
  notify-registered (none ∷ r) event = notify-registered r event
  notify-registered (some l ∷ r) event = ap (λ q. (l, event) ∷ q) (notify-registered r event)
