-- ===== src/Stringified/Laws.antt =====
-- common/strings/stringifier.ts: the classes behave as maps and sets of the values themselves.
use dataform.Prelude.{
  ◌≡◌, refl, sym, ap, ◌∙◌, Bool-cases, ◌≢◌, ◌↔◌, inl, inr, String, true, false, ◌||◌, ◌==◌, eq_iff,
  eq_self, List, [], ◌∷◌, map, none, some, append-nil, append_assoc, ◌++◌, if◌then◌else◌, All,
  arith,
}
use dataform.Stringified.{
  Stringifier, StringifiedMap, get_entry, has_entry, set_entry, delete_entry, set_entries, map_of,
  get, set, delete, entries_of,
}

module _ {ℓ} {V : Type ℓ} where
  pub get_entry-set_entry :
      (k j : String) (v : V) (m : List (String × V))
      → get_entry j (set_entry k v m) ≡ (if k == j then some v else get_entry j m)
  unfolding get_entry set_entry
  get_entry-set_entry k j v [] = refl
  get_entry-set_entry k j v ((i, w) ∷ m) =
      ground (arith, eq_iff k j, eq_iff i k, eq_iff i j, get_entry-set_entry k j v m)

  pub has_entry-get_entry :
      (k : String) (m : List (String × V)) → (has_entry k m ≡ true) ↔ (get_entry k m ≢ none)
  unfolding get_entry has_entry
  has_entry-get_entry k [] = ground arith
  has_entry-get_entry k ((j, v) ∷ m) = ground (arith, has_entry-get_entry k m)

  -- No key stands twice, as a `Map` guarantees.
  abbrev pub IsMap : List (String × V) → Type 0
  IsMap [] = Unit
  IsMap ((k, v) ∷ m) = (has_entry k m ≡ false) × IsMap m

  pub has_entry-set_entry :
      (k j : String) (v : V) (m : List (String × V))
      → has_entry j (set_entry k v m) ≡ (k == j || has_entry j m)
  unfolding has_entry set_entry
  has_entry-set_entry k j v [] = refl
  has_entry-set_entry k j v ((i, w) ∷ m) =
      ground (arith, eq_iff k j, eq_iff i k, eq_iff i j, has_entry-set_entry k j v m)

  has_entry-delete_entry_le :
      (k j : String) (m : List (String × V))
      → has_entry j m ≡ false
      → has_entry j (delete_entry k m) ≡ false
  unfolding has_entry delete_entry
  has_entry-delete_entry_le k j [] h = refl
  has_entry-delete_entry_le k j ((i, w) ∷ m) h = ground (arith, has_entry-delete_entry_le k j m)

  set_entry-IsMap : (k : String) (v : V) (m : List (String × V)) → IsMap m → IsMap (set_entry k v m)
  unfolding set_entry has_entry
  set_entry-IsMap k v [] h = ground arith
  set_entry-IsMap k v ((i, w) ∷ m) h =
      ground (arith, set_entry-IsMap k v m, has_entry-set_entry k i v m, eq_iff i k, eq_iff k i)

  delete_entry-IsMap : (k : String) (m : List (String × V)) → IsMap m → IsMap (delete_entry k m)
  unfolding delete_entry
  delete_entry-IsMap k [] h = tt
  delete_entry-IsMap k ((i, w) ∷ m) h =
      ground (arith, delete_entry-IsMap k m, has_entry-delete_entry_le k i m)

  set_entries-IsMap : (new m : List (String × V)) → IsMap m → IsMap (set_entries m new)
  unfolding set_entries
  set_entries-IsMap [] m h = h
  set_entries-IsMap ((k, v) ∷ new) m h =
      set_entries-IsMap new (set_entry k v m) (set_entry-IsMap k v m h)

  absent_get : (k : String) (m : List (String × V)) → has_entry k m ≡ false → get_entry k m ≡ none
  unfolding get_entry has_entry
  absent_get k [] h = refl
  absent_get k ((i, w) ∷ m) h = ground (arith, absent_get k m)

  get_entry-delete_entry :
      (k j : String) (m : List (String × V))
      → IsMap m
      → get_entry j (delete_entry k m) ≡ (if k == j then none else get_entry j m)
  unfolding get_entry delete_entry
  get_entry-delete_entry k j [] h = ground arith
  get_entry-delete_entry k j ((i, w) ∷ m) h =
      ground
        (arith, eq_iff k j, eq_iff i k, eq_iff i j, get_entry-delete_entry k j m, absent_get j m)

-- Parsing gives back what was stringified.
abbrev pub IsFaithful {ℓ} : {T : Type ℓ} → Stringifier T → Type ℓ
IsFaithful {T = T} s = (x : T) → s.parse (s.stringify x) ≡ x

pub stringify_injective {ℓ} :
    {T : Type ℓ} (s : Stringifier T)
    → IsFaithful s
    → (x y : T) → (s.stringify x == s.stringify y) ≡ true
    → x ≡ y
stringify_injective s f x y h =
    sym (f x) ∙ ap s.parse ((eq_iff (s.stringify x) (s.stringify y)).0 h) ∙ f y

stringify_ne {ℓ} :
    {K : Type ℓ} (s : Stringifier K)
    → IsFaithful s
    → (k j : K) → k ≢ j
    → (s.stringify k == s.stringify j) ≡ false
stringify_ne s faithful k j n = elim (Bool-cases (s.stringify k == s.stringify j)) [
  | inl same ↦ absurd (n (stringify_injective s faithful k j same))
  | inr other ↦ other
]

module _ {ℓ κ} {K : Type ℓ} {V : Type κ} (s : Stringifier K) (faithful : IsFaithful s) where
  -- `set` changes the value of its key and of no other key, and so does `delete`.
  pub get-set-delete :
      (k : K) (v : V) (m : StringifiedMap V)
      → IsMap m.entries
      → (get s k (set s k v m) ≡ some v)
        × ((j : K) → k ≢ j → get s j (set s k v m) ≡ get s j m)
        × (get s k (delete s k m) ≡ none)
        × ((j : K) → k ≢ j → get s j (delete s k m) ≡ get s j m)
        × IsMap (set s k v m).entries
        × IsMap (delete s k m).entries
  unfolding get set delete
  get-set-delete k v m h = (
    rw (get_entry-set_entry, eq_self (s.stringify k)) refl,
    λ j n.
        rw
          (
            get_entry-set_entry (s.stringify k) (s.stringify j) v m.entries,
            stringify_ne s faithful k j n,
          )
          refl,
    rw (get_entry-delete_entry (s.stringify k) (s.stringify k) m.entries h, eq_self (s.stringify k))
        refl,
    λ j n.
        rw
          (
            get_entry-delete_entry (s.stringify k) (s.stringify j) m.entries h,
            stringify_ne s faithful k j n,
          )
          refl,
    set_entry-IsMap (s.stringify k) v m.entries h,
    delete_entry-IsMap (s.stringify k) m.entries h,
  )

-- The keys of the entries are pairwise different.
abbrev pub AreDistinct {ℓ κ} : {K : Type ℓ} {V : Type κ} → List (K × V) → Type ℓ
AreDistinct [] = Unit
AreDistinct ((k, v) ∷ entries) = All (λ e. e.0 ≢ k) entries × AreDistinct entries

module _ {ℓ} {V : Type ℓ} where
  set_entry-append :
      (k : String) (v : V) (m : List (String × V))
      → has_entry k m ≡ false
      → set_entry k v m ≡ m ++ (k, v) ∷ []
  unfolding set_entry has_entry
  set_entry-append k v [] h = refl
  set_entry-append k v ((j, w) ∷ m) h = ground (arith, set_entry-append k v m)

  has_entry-append :
      (j k : String) (v : V) (m : List (String × V))
      → has_entry j (m ++ (k, v) ∷ []) ≡ (has_entry j m || k == j)
  unfolding has_entry
  has_entry-append j k v [] = ground arith
  has_entry-append j k v ((i, w) ∷ m) = ground (arith, has_entry-append j k v m)

  -- None of the new keys is in the map, and they are pairwise different.
  abbrev AreNew : List (String × V) → List (String × V) → Type 0
  AreNew m [] = Unit
  AreNew m ((k, v) ∷ new) = (has_entry k m ≡ false) × AreNew (m ++ (k, v) ∷ []) new

  set_entries-append : (new m : List (String × V)) → AreNew m new → set_entries m new ≡ m ++ new
  unfolding set_entries
  set_entries-append [] m h = sym (append-nil m)
  set_entries-append ((k, v) ∷ new) m h =
      ap (λ l. set_entries l new) (set_entry-append k v m h.0)
      ∙ set_entries-append new (m ++ (k, v) ∷ []) h.1
      ∙ append_assoc m ((k, v) ∷ []) new

module _ {ℓ κ} {K : Type ℓ} {V : Type κ} (s : Stringifier K) (faithful : IsFaithful s) where
  abbrev keyed : List (K × V) → List (String × V)
  keyed given = map (λ e. (s.stringify e.0, e.1)) given

  new_key :
      (k : K) (v : V) (m : List (String × V)) (given : List (K × V))
      → All (λ e. e.0 ≢ k) given
      → All (λ e. has_entry (s.stringify e.0) m ≡ false) given
      → All (λ e. has_entry (s.stringify e.0) (m ++ (s.stringify k, v) ∷ []) ≡ false) given
  new_key k v m [] h absent = tt
  new_key k v m ((j, w) ∷ given) h absent = (
    rw
        (
          has_entry-append (s.stringify j) (s.stringify k) v m,
          absent.0,
          stringify_ne s faithful k j (λ e. h.0 (sym e)),
        )
        refl,
    new_key k v m given h.1 absent.1,
  )

  AreDistinct-AreNew :
      (given : List (K × V)) (m : List (String × V))
      → AreDistinct given
      → All (λ e. has_entry (s.stringify e.0) m ≡ false) given
      → AreNew m (keyed given)
  AreDistinct-AreNew [] m d absent = tt
  AreDistinct-AreNew ((k, v) ∷ given) m d absent =
      (absent.0, AreDistinct-AreNew given _ d.1 (new_key k v m given d.0 absent.1))

  parse-keyed : (given : List (K × V)) → map (λ e. (s.parse e.0, e.1)) (keyed given) ≡ given
  parse-keyed [] = refl
  parse-keyed ((k, v) ∷ given) = cc (faithful k, parse-keyed given)

  absent_keys :
      (given : List (K × V)) → All (λ e. has_entry {V = V} (s.stringify e.0) [] ≡ false) given
  unfolding has_entry
  absent_keys [] = tt
  absent_keys (e ∷ given) = (refl, absent_keys given)

  -- With a stringifier whose parser gives back what was stringified, the entries of a map that was built
  -- from entries with pairwise different keys are those, in order.
  pub entries_of-map_of :
      (given : List (K × V)) → AreDistinct given → entries_of s (map_of s given) ≡ given
  unfolding entries_of map_of
  entries_of-map_of given d =
      ap (λ l. map (λ e. (s.parse e.0, e.1)) l)
        (set_entries-append (keyed given) [] (AreDistinct-AreNew given [] d (absent_keys given)))
      ∙ parse-keyed given
