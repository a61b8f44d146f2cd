-- ===== src/HotBytes/Overflow.antt =====
-- What dropping entries does to the books of src/page/cache/hot-byte-cache.js, and that the
-- overflow loops end within the limits.
use aegis_stream.Prelude.Keys.{string_eq}
use aegis_stream.Prelude.OrdMap
use aegis_stream.Prelude.OrdMap.{OrdMap, total, IsMap}
use aegis_stream.Prelude.{
  ℕ, zero, suc, ◌≤◌, ◌<◌, ◌≡◌, refl, ap, ◌∙◌, String, [], ◌∷◌, arith, All, length, drop,
  length-drop, length-drop_excess, drop-tail, Bool-cases, Option-cases, inl, inr,
}
use aegis_stream.HotBytes.Store.{
  Entry, Cache, max_entries, max_bytes, max_entry_bytes, max_aliases, drop_entry, is_expired,
  drop_expired, drop_first, over_limit, drop_oldest, prune_aliases, evict_overflow, keep_aliases,
}

abbrev pub bytes_held : OrdMap String Entry → ℕ
bytes_held = total λ e. e.byte_length

abbrev pub IsSized : Entry → Type 0
IsSized e =
    (e.byte_length ≡ length e.bytes) × (0 < e.byte_length) × (e.byte_length ≤ max_entry_bytes)

-- The entries form a map, each records its own size, and `totalBytes` is their sum.
pub record Books (c : Cache) : Type 0 where
  pub is_map : IsMap c.entries
  pub sized : All (λ (k, e). IsSized e) c.entries
  pub counted : c.total_bytes ≡ bytes_held c.entries

pub drop_entry-Books : (key : String) (c : Cache) → Books c → Books (drop_entry key c)
unfolding drop_entry
drop_entry-Books key c b = elim (Option-cases (OrdMap.get key c.entries)) [
  | inl p ↦ rw (p, drop_entry) b
  | inr (e, p) ↦
      rw (p, drop_entry)
        (record {
          is_map = OrdMap.delete-IsMap key c.entries b.is_map;
          sized = OrdMap.delete-All (λ (k, e). IsSized e) key c.entries b.sized;
          counted = omega (
            arith,
            b.counted,
            OrdMap.total-delete (λ (e : Entry). e.byte_length) key c.entries b.is_map p,
          );
        })
]

pub drop_expired-Books :
    (now : ℕ) (m : OrdMap String Entry) (c : Cache) → Books c → Books (drop_expired now m c)
unfolding drop_expired
drop_expired-Books now [] c b = b
drop_expired-Books now ((key, entry) ∷ m) c b = elim (Bool-cases (is_expired now entry)) [
  | inl p ↦ rw p (drop_expired-Books now m (drop_entry key c) (drop_entry-Books key c b))
  | inr p ↦ rw p (drop_expired-Books now m c b)
]

-- A round drops the oldest entry alone.
pub entries-drop_first :
    (m : OrdMap String Entry) (c : Cache)
    → IsMap m
    → c.entries ≡ m
    → (drop_first m c).entries ≡ drop 1 c.entries
unfolding drop_first drop_entry OrdMap.get OrdMap.delete
entries-drop_first [] c h p = rw p refl
entries-drop_first ((key, e) ∷ rest) c h p = ground (arith, OrdMap.delete_absent key rest h.0)

pub drop_first-Books : (m : OrdMap String Entry) (c : Cache) → Books c → Books (drop_first m c)
unfolding drop_first
drop_first-Books [] c b = b
drop_first-Books ((key, e) ∷ rest) c b = drop_entry-Books key c b

pub record Trimmed (c d : Cache) : Type 0 where
  pub books : Books d
  pub dropped : ℕ
  pub suffix : d.entries ≡ drop dropped c.entries
  pub few : length d.entries ≤ max_entries
  pub small : d.total_bytes ≤ max_bytes

empty-of-length : (m : OrdMap String Entry) → length m ≤ 0 → bytes_held m ≡ 0
empty-of-length [] h = refl
empty-of-length (x ∷ m) h = absurd (omega arith)

Trimmed-round :
    {c d : Cache}
    → (drop_first c.entries c).entries ≡ drop 1 c.entries
    → Trimmed (drop_first c.entries c) d
    → Trimmed c d
Trimmed-round {c} e t = record {
  books = t.books;
  dropped = suc t.dropped;
  suffix = t.suffix ∙ ap (drop t.dropped) e ∙ drop-tail t.dropped c.entries;
  few = t.few;
  small = t.small;
}

drop_oldest-Trimmed :
    (fuel : ℕ) (c : Cache) → Books c → length c.entries ≤ fuel → Trimmed c (drop_oldest fuel c)
unfolding drop_oldest
drop_oldest-Trimmed zero c b h = record {
  books = b;
  dropped = 0;
  suffix = refl;
  few = omega arith;
  small = omega (arith, b.counted, empty-of-length c.entries h);
}
drop_oldest-Trimmed (suc fuel) c b h = elim (Bool-cases (over_limit c)) [
  | inr p ↦
      rw (p, drop_oldest)
        (record { books = b; dropped = 0; suffix = refl; few = ground arith; small = ground arith })
  | inl p ↦
      rw (p, drop_oldest)
        (let e = entries-drop_first c.entries c b.is_map refl in
          Trimmed-round e (
            drop_oldest-Trimmed fuel (drop_first c.entries c) (drop_first-Books c.entries c b)
              (omega (arith, ap length e, length-drop 1 c.entries))))
]

-- After `evictOverflow` the books are right, no limit is passed, and what its second loop dropped
-- are the oldest of the entries that its first loop left.
pub evict_overflow-Trimmed :
    (now : ℕ) (c : Cache) → Books c → Trimmed (drop_expired now c.entries c) (evict_overflow now c)
unfolding evict_overflow prune_aliases
evict_overflow-Trimmed now c b =
    let fresh = drop_expired now c.entries c in
    let t =
      drop_oldest-Trimmed (length fresh.entries) fresh (drop_expired-Books now c.entries c b)
        (omega arith) in
    record {
      books = record { is_map = t.books.is_map; sized = t.books.sized; counted = t.books.counted };
      dropped = t.dropped;
      suffix = t.suffix;
      few = t.few;
      small = t.small;
    }

pub aliases-prune_aliases : (c : Cache) → length (prune_aliases c).aliases ≤ max_aliases
unfolding prune_aliases
aliases-prune_aliases c =
    length-drop_excess max_aliases
      (keep_aliases (λ alias primary. OrdMap.has primary c.entries) c.aliases)

pub aliases-evict_overflow :
    (now : ℕ) (c : Cache) → length (evict_overflow now c).aliases ≤ max_aliases
unfolding evict_overflow
aliases-evict_overflow now c =
    let fresh = drop_expired now c.entries c in
    aliases-prune_aliases (drop_oldest (length fresh.entries) fresh)
