-- ===== src/HotBytes/Bounds.antt =====
-- Storing, touching and dropping an entry of src/page/cache/hot-byte-cache.js keeps the books right.
use aegis_stream.Prelude.Keys.{◌===◌, string_eq}
use aegis_stream.Prelude.OrdMap
use aegis_stream.Prelude.OrdMap.{OrdMap, total, IsMap}
use aegis_stream.Prelude.{
  ℕ, ◌+◌, ◌≤◌, ◌≡◌, refl, sym, ap, ◌∙◌, String, not, some, [], ◌∷◌, ◌++◌, arith, All, All-append,
  length, length-append, length-retain-le, ◌||◌, Option-cases, inl, inr,
}
use aegis_stream.HotBytes.Store.{Entry, Cache, drop_entry, evict_overflow, touch_entry}
use aegis_stream.HotBytes.Methods.{forget_existing, add_entry}
use aegis_stream.HotBytes.Overflow.{
  Books, IsSized, bytes_held, drop_entry-Books, evict_overflow-Trimmed, aliases-evict_overflow,
}
use aegis_stream.HotBytes.Kept.{Inv}

-- An entry moves to the end, or comes in there.
abbrev pub moved : String → Entry → OrdMap String Entry → OrdMap String Entry
moved key entry m = OrdMap.delete key m ++ (key, entry) ∷ []

pub moved-Books :
    (key : String) (entry : Entry) (m : OrdMap String Entry) (c : Cache)
    → IsMap m
    → All (λ (k, e). IsSized e) m
    → IsSized entry
    → c.entries ≡ moved key entry m
    → c.total_bytes ≡ bytes_held (OrdMap.delete key m) + entry.byte_length
    → Books c
moved-Books key entry m c map sized fits p q = record {
  is_map =
      rw (p, sym (OrdMap.set-delete key entry m))
        (OrdMap.set-IsMap key entry (OrdMap.delete key m) (OrdMap.delete-IsMap key m map));
  sized = rw p (
      All-append (λ (k, e). IsSized e) (OrdMap.delete key m) ((key, entry) ∷ [])
        (OrdMap.delete-All (λ (k, e). IsSized e) key m sized) (fits, tt));
  counted = rw p (
      q ∙ sym (OrdMap.total-append (λ (e : Entry). e.byte_length) key entry (OrdMap.delete key m)));
}

pub store-Books :
    (key : String) (entry : Entry) (c : Cache)
    → IsSized entry
    → Books c
    → Books (add_entry key entry (forget_existing key c))
unfolding add_entry forget_existing
store-Books key entry c fits b = elim (Option-cases (OrdMap.get key c.entries)) [
  | inl p ↦
      rw (p, forget_existing)
        (moved-Books key entry c.entries _ b.is_map b.sized fits
          (OrdMap.set_absent key entry c.entries p
            ∙ ap (λ m. m ++ (key, entry) ∷ []) (sym (OrdMap.delete_absent key c.entries p)))
          (omega (arith, b.counted, ap bytes_held (OrdMap.delete_absent key c.entries p))))
  | inr (old, p) ↦
      rw (p, forget_existing)
        (moved-Books key entry c.entries _ b.is_map b.sized fits
          (OrdMap.set-delete key entry c.entries)
          (omega (
            arith,
            b.counted,
            OrdMap.total-delete (λ (e : Entry). e.byte_length) key c.entries b.is_map p,
          )))
]

pub evict_overflow-Inv : (now : ℕ) (c : Cache) → Books c → Inv (evict_overflow now c)
evict_overflow-Inv now c b =
    let t = evict_overflow-Trimmed now c b in
    record {
      books = t.books;
      few = t.few;
      small = t.small;
      few_aliases = aliases-evict_overflow now c;
    }

-- Moving an entry that is there, perhaps with another date or type, keeps count and bytes.
pub moved-Inv :
    (key : String) (old entry : Entry) (c d : Cache)
    → Inv c
    → OrdMap.get key c.entries ≡ some old
    → IsSized entry
    → entry.byte_length ≡ old.byte_length
    → d.entries ≡ moved key entry c.entries
    → d.total_bytes ≡ c.total_bytes
    → d.aliases ≡ c.aliases
    → Inv d
moved-Inv key old entry c d i found fits same p q r =
    let counted =
      OrdMap.total-delete (λ (e : Entry). e.byte_length) key c.entries i.books.is_map found in
    let kept = OrdMap.length-delete key c.entries i.books.is_map found in
    record {
      books =
          moved-Books key entry c.entries d i.books.is_map i.books.sized fits p
            (omega (arith, q, counted, same, i.books.counted));
      few = omega (
        arith,
        ap length p,
        length-append (OrdMap.delete key c.entries) ((key, entry) ∷ []),
        kept,
        i.few,
      );
      small = omega (arith, q, i.small);
      few_aliases = omega (arith, ap length r, i.few_aliases);
    }

pub drop_entry-fewer :
    (key : String) (c : Cache)
    → (length (drop_entry key c).entries ≤ length c.entries)
      × ((drop_entry key c).total_bytes ≤ c.total_bytes)
      × (length (drop_entry key c).aliases ≤ length c.aliases)
unfolding drop_entry
drop_entry-fewer key c = elim (Option-cases (OrdMap.get key c.entries)) [
  | inl p ↦ rw (p, drop_entry) (omega arith, omega arith, omega arith)
  | inr (old, p) ↦
      rw (p, drop_entry)
        (
          OrdMap.length-delete-le key c.entries,
          omega arith,
          length-retain-le (λ (alias, primary). not (primary === key || alias === key)) c.aliases,
        )
]

pub drop_entry-Inv : (key : String) (c : Cache) → Inv c → Inv (drop_entry key c)
drop_entry-Inv key c i =
    let (fewer, smaller, fewer_aliases) = drop_entry-fewer key c in
    record {
      books = drop_entry-Books key c i.books;
      few = omega (arith, i.few, fewer);
      small = omega (arith, i.small, smaller);
      few_aliases = omega (arith, i.few_aliases, fewer_aliases);
    }

pub touch_entry-Inv : (key : String) (c : Cache) → Inv c → Inv (touch_entry key c)
unfolding touch_entry
touch_entry-Inv key c i = elim (Option-cases (OrdMap.get key c.entries)) [
  | inl p ↦ rw (p, touch_entry) i
  | inr (old, p) ↦
      rw (p, touch_entry)
        (moved-Inv key old old c _ i p (OrdMap.get-All IsSized key c.entries i.books.sized p) refl
          (OrdMap.set-delete key old c.entries) refl refl)
]

pub replace-Inv :
    (key : String) (old entry : Entry) (c : Cache)
    → Inv c
    → OrdMap.get key c.entries ≡ some old
    → IsSized entry
    → entry.byte_length ≡ old.byte_length
    → Inv (touch_entry key (record c { entries = OrdMap.set key entry c.entries }))
unfolding touch_entry
replace-Inv key old entry c i found fits same =
    rw (OrdMap.get-set_self key entry c.entries, touch_entry)
      (moved-Inv key old entry c _ i found fits same
        (OrdMap.set-delete key entry (OrdMap.set key entry c.entries)
          ∙ ap (λ m. m ++ (key, entry) ∷ []) (OrdMap.delete-set_self key entry c.entries))
        refl refl)
