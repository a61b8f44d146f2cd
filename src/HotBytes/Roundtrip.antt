-- ===== src/HotBytes/Roundtrip.antt =====
-- What a lookup in src/page/cache/hot-byte-cache.js gives after a put.
use aegis_stream.Prelude.Keys.{string_eq}
use aegis_stream.Prelude.OrdMap
use aegis_stream.Prelude.OrdMap.{OrdMap, IsMap, total}
use aegis_stream.Prelude.{
  ℕ, zero, suc, ◌≤◌, ◌<◌, ◌≡◌, refl, subst, sym, ap, ◌∙◌, String, false, Option, none, some, List,
  [], ◌∷◌, ◌++◌, arith, All, drop, length, Bool-cases, Option-cases, inl, inr, if_neg,
}
use aegis_stream.HotBytes.Store.{
  Entry, Cache, Env, max_entry_bytes, drop_entry, drop_expired, drop_first, drop_oldest, over_limit,
  is_expired, evict_overflow, prune_aliases, build_serve_payload,
}
use aegis_stream.HotBytes.Methods.{
  Meta, new_entry, forget_existing, add_entry, register_put_aliases, store_entry,
}
use aegis_stream.HotBytes.Overflow.{
  Books, bytes_held, drop_expired-Books, drop_first-Books, entries-drop_first,
  evict_overflow-Trimmed,
}
use aegis_stream.HotBytes.Kept.{Kept-Books, register_put_aliases-Kept, wake_key-Kept}
use aegis_stream.HotBytes.Bounds.{store-Books}

-- The entry is the newest.
abbrev Newest : String → Entry → Cache → Type 0
Newest key entry c = (older : OrdMap String Entry) × (c.entries ≡ older ++ (key, entry) ∷ [])

get-last :
    (key : String) (entry : Entry) (m : OrdMap String Entry)
    → IsMap (m ++ (key, entry) ∷ [])
    → OrdMap.get key (m ++ (key, entry) ∷ []) ≡ some entry
unfolding OrdMap.get
get-last key entry m h =
    let (before, behind) = OrdMap.IsMap-middle m key entry [] h in
    ground (arith, OrdMap.get-append key key entry m, before)

delete-other :
    (k key : String) (entry : Entry)
    → (k ≡ key → ⊥)
    → OrdMap.delete k ((key, entry) ∷ []) ≡ (key, entry) ∷ []
unfolding OrdMap.delete
delete-other k key entry other = rw (if_neg _ (λ q. other (sym q))) refl

drop_entry-Newest :
    (k key : String) (entry : Entry) (c : Cache)
    → (k ≡ key → ⊥)
    → Newest key entry c
    → Newest key entry (drop_entry k c)
unfolding drop_entry OrdMap.delete
drop_entry-Newest k key entry c other (older, p) = elim (Option-cases (OrdMap.get k c.entries)) [
  | inl q ↦ rw (q, drop_entry) (older, p)
  | inr (old, q) ↦
      rw (q, drop_entry)
        (
          OrdMap.delete k older,
          ap (OrdMap.delete k) p
              ∙ OrdMap.delete-append k older ((key, entry) ∷ [])
              ∙ ap (λ m. OrdMap.delete k older ++ m) (delete-other k key entry other),
        )
]

-- The entries of a list that have the key are not expired.
abbrev Unexpired : ℕ → String → OrdMap String Entry → Type 0
Unexpired now key = All λ (k, e). k ≡ key → is_expired now e ≡ false

drop_expired-Newest :
    (now : ℕ) (key : String) (entry : Entry) (m : OrdMap String Entry) (c : Cache)
    → Unexpired now key m
    → Newest key entry c
    → Newest key entry (drop_expired now m c)
unfolding drop_expired
drop_expired-Newest now key entry [] c h n = n
drop_expired-Newest now key entry ((k, e) ∷ m) c h n = elim (Bool-cases (is_expired now e)) [
  | inr p ↦ rw (p, drop_expired) (drop_expired-Newest now key entry m c h.1 n)
  | inl p ↦
      rw (p, drop_expired)
        (drop_expired-Newest now key entry m (drop_entry k c) h.1
          (drop_entry-Newest k key entry c (λ q. ground (arith, p, h.0 q)) n))
]

drop_oldest-Newest :
    (fuel : ℕ) (key : String) (entry : Entry) (c : Cache)
    → Books c
    → entry.byte_length ≤ max_entry_bytes
    → Newest key entry c
    → Newest key entry (drop_oldest fuel c)
unfolding drop_oldest
drop_oldest-Newest zero key entry c b small n = n
drop_oldest-Newest (suc fuel) key entry c b small ([], p) =
    let within : over_limit c ≡ false =
      ground (arith, ap length p, ap bytes_held p, b.counted, small) in
    rw (within, drop_oldest) ([], p)
drop_oldest-Newest (suc fuel) key entry c b small (x ∷ older, p) =
    elim (Bool-cases (over_limit c)) [
      | inr q ↦ rw (q, drop_oldest) (x ∷ older, p)
      | inl q ↦
          rw (q, drop_oldest)
            (drop_oldest-Newest fuel key entry (drop_first c.entries c)
              (drop_first-Books c.entries c b) small
              (older, entries-drop_first c.entries c b.is_map refl ∙ ap (drop 1) p))
    ]

Unexpired-absent :
    (now : ℕ) (key : String) (m : OrdMap String Entry)
    → OrdMap.get key m ≡ none
    → Unexpired now key m
unfolding OrdMap.get
Unexpired-absent now key [] h = tt
Unexpired-absent now key ((k, e) ∷ m) h = elim (string_eq.dec k key) [
  | yes p ↦ absurd (ground (arith, h, p))
  | no p ↦
      let later : OrdMap.get key m ≡ none = ground (arith, h, p) in
      ((λ q. absurd (p q)), Unexpired-absent now key m later)
]

Unexpired-append :
    (now : ℕ) (key : String) (entry : Entry) (m : OrdMap String Entry)
    → is_expired now entry ≡ false
    → Unexpired now key m
    → Unexpired now key (m ++ (key, entry) ∷ [])
Unexpired-append now key entry [] fresh h = ((λ q. fresh), tt)
Unexpired-append now key entry (x ∷ m) fresh h = (h.0, Unexpired-append now key entry m fresh h.1)

evict_overflow-Newest :
    (now : ℕ) (key : String) (entry : Entry) (c : Cache)
    → Books c
    → entry.byte_length ≤ max_entry_bytes
    → is_expired now entry ≡ false
    → Newest key entry c
    → Newest key entry (evict_overflow now c)
unfolding evict_overflow prune_aliases
evict_overflow-Newest now key entry c b small fresh (older, p) =
    let last : IsMap (older ++ (key, entry) ∷ []) = subst (λ m. IsMap m) p b.is_map in
    let kept = drop_expired now c.entries c in
    let unexpired =
      Unexpired-append now key entry older fresh
        (Unexpired-absent now key older (OrdMap.IsMap-middle older key entry [] last).0) in
    let n =
      drop_expired-Newest now key entry c.entries c
        (subst (λ m. Unexpired now key m) (sym p) unexpired) (older, p) in
    let o =
      drop_oldest-Newest (length kept.entries) key entry kept (drop_expired-Books now c.entries c b)
        small n in
    (o.0, o.1)

add_entry-Newest :
    (key : String) (entry : Entry) (c : Cache)
    → Newest key entry (add_entry key entry (forget_existing key c))
unfolding add_entry forget_existing
add_entry-Newest key entry c = elim (Option-cases (OrdMap.get key c.entries)) [
  | inl p ↦ rw (p, forget_existing) (c.entries, OrdMap.set_absent key entry c.entries p)
  | inr (old, p) ↦
      rw (p, forget_existing) (OrdMap.delete key c.entries, OrdMap.set-delete key entry c.entries)
]

-- After `entries.set` and all that follows in a put, the key has the new entry.
pub get-store_entry :
    (env : Env) (url : Option String) (opts : Meta) (key : String) (cloned : List ℕ) (c : Cache)
    → 0 < length cloned
    → length cloned ≤ max_entry_bytes
    → Books c
    → OrdMap.get key (store_entry env url opts key (new_entry env opts cloned) c).entries
      ≡ some (new_entry env opts cloned)
unfolding store_entry
get-store_entry env url opts key cloned c nonempty fits b =
    let entry = new_entry env opts cloned in
    let stored = add_entry key entry (forget_existing key c) in
    let named = register_put_aliases env url opts key stored in
    let k = register_put_aliases-Kept env url opts key stored in
    let books = Kept-Books k (store-Books key entry c (refl, nonempty, fits) b) in
    let (older, p) = add_entry-Newest key entry c in
    let unexpired : is_expired env.now entry ≡ false = ground arith in
    let n =
      evict_overflow-Newest env.now key entry named books fits unexpired (older, k.same ∙ p) in
    let evicted = evict_overflow env.now named in
    let w = wake_key-Kept key (build_serve_payload entry) evicted in
    let map : IsMap (n.0 ++ (key, entry) ∷ []) =
      subst (λ m. IsMap m) n.1 (evict_overflow-Trimmed env.now named books).books.is_map in
    ap (OrdMap.get key) (w.same ∙ n.1) ∙ get-last key entry n.0 map
