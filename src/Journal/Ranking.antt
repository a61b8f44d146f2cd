-- ===== src/Journal/Ranking.antt =====
-- What the pruning of src/background/cache/eviction-journal.js keeps.
use aegis_stream.Prelude.Keys.{string_eq}
use aegis_stream.Prelude.OrdMap
use aegis_stream.Prelude.OrdMap.{OrdMap, IsMap}
use aegis_stream.Prelude.{
  ℕ, zero, suc, ◌+◌, ◌-◌, ◌≤◌, ◌≡◌, refl, subst, sym, ◌∙◌, String, not, none, some, [], ◌∷◌, leb,
  leb→le, length, take, drop, All, drop-All, arith, Bool-cases, inl, inr, ite,
}
use aegis_stream.Journal.{
  Limits, EvictionRecord, journal_ttl_ms, max_journal_entries, is_stale, rank_in, rank,
  delete_ranked, fresh_entries, prune_journal,
}

abbrev Entries : Type 0
Entries = OrdMap String EvictionRecord

get-rank_in :
    (j key : String) (r : EvictionRecord) (m : Entries)
    → OrdMap.get key m ≡ none
    → OrdMap.get j (rank_in key r m) ≡ ite (string_eq.dec key j) (some r) (OrdMap.get j m)
unfolding OrdMap.get
get-rank_in j key r [] h = refl
get-rank_in j key r ((k, s) ∷ m) h = ground (arith, get-rank_in j key r m)

rank_in-IsMap :
    (key : String) (r : EvictionRecord) (m : Entries)
    → OrdMap.get key m ≡ none
    → IsMap m
    → IsMap (rank_in key r m)
unfolding OrdMap.get
rank_in-IsMap key r [] h i = (refl, tt)
rank_in-IsMap key r ((k, s) ∷ m) h i =
    ground (arith, rank_in-IsMap key r m, get-rank_in k key r m, i.0, i.1, h)

length-rank_in :
    (key : String) (r : EvictionRecord) (m : Entries) → length (rank_in key r m) ≡ suc (length m)
length-rank_in key r [] = refl
length-rank_in key r ((k, s) ∷ m) = ground (arith, length-rank_in key r m)

-- Ranking keeps every lookup.
get-rank : (j : String) (m : Entries) → IsMap m → OrdMap.get j (rank m) ≡ OrdMap.get j m
unfolding OrdMap.get
get-rank j [] h = refl
get-rank j ((k, s) ∷ m) h =
    get-rank_in j k s (rank m) (get-rank k m h.1 ∙ h.0) ∙ ground (arith, get-rank j m h.1)

rank-IsMap : (m : Entries) → IsMap m → IsMap (rank m)
rank-IsMap [] h = h
rank-IsMap ((k, s) ∷ m) h = rank_in-IsMap k s (rank m) (get-rank k m h.1 ∙ h.0) (rank-IsMap m h.1)

length-rank : (m : Entries) → length (rank m) ≡ length m
length-rank [] = refl
length-rank ((k, s) ∷ m) = omega (arith, length-rank_in k s (rank m), length-rank m)

-- In order of eviction.
abbrev AtLeast : ℕ → Entries → Type 0
AtLeast t = All λ (k, s). t ≤ s.evicted_at

abbrev Ranked : Entries → Type 0
Ranked [] = Unit
Ranked ((k, s) ∷ m) = AtLeast s.evicted_at m × Ranked m

AtLeast-weaken : (t u : ℕ) (m : Entries) → t ≤ u → AtLeast u m → AtLeast t m
AtLeast-weaken t u [] h a = tt
AtLeast-weaken t u ((k, s) ∷ m) h a = (omega (arith, h, a.0), AtLeast-weaken t u m h a.1)

rank_in-AtLeast :
    (t : ℕ) (key : String) (r : EvictionRecord) (m : Entries)
    → t ≤ r.evicted_at
    → AtLeast t m
    → AtLeast t (rank_in key r m)
rank_in-AtLeast t key r [] h a = (h, tt)
rank_in-AtLeast t key r ((k, s) ∷ m) h a = ground (arith, rank_in-AtLeast t key r m h a.1, h, a)

rank_in-Ranked :
    (key : String) (r : EvictionRecord) (m : Entries) → Ranked m → Ranked (rank_in key r m)
rank_in-Ranked key r [] h = (tt, tt)
rank_in-Ranked key r ((k, s) ∷ m) h = elim (Bool-cases (leb r.evicted_at s.evicted_at)) [
  | inl p ↦
      let older = leb→le r.evicted_at s.evicted_at p in
      rw p ((older, AtLeast-weaken r.evicted_at s.evicted_at m older h.0), h)
  | inr p ↦
      rw p
        (rank_in-AtLeast s.evicted_at key r m (ground (arith, p)) h.0, rank_in-Ranked key r m h.1)
]

rank-Ranked : (m : Entries) → Ranked (rank m)
rank-Ranked [] = tt
rank-Ranked ((k, s) ∷ m) = rank_in-Ranked k s (rank m) (rank-Ranked m)

-- A map and a ranking of it, without the first key of the ranking.
rest-get :
    (k : String) (v : EvictionRecord) (s m : Entries)
    → OrdMap.get k s ≡ none
    → ((i : String) → OrdMap.get i ((k, v) ∷ s) ≡ OrdMap.get i m)
    → (i : String) → OrdMap.get i s ≡ OrdMap.get i (OrdMap.delete k m)
unfolding OrdMap.get
rest-get k v s m h p i = ground (arith, h, p i, OrdMap.get-delete i k m)

head-get :
    (k : String) (v : EvictionRecord) (s m : Entries)
    → ((i : String) → OrdMap.get i ((k, v) ∷ s) ≡ OrdMap.get i m)
    → OrdMap.get k m ≡ some v
unfolding OrdMap.get
head-get k v s m p = ground (arith, p k)

-- What is left when the first `n` of a ranking go.
get-delete_ranked :
    (n : ℕ) (s m : Entries)
    → IsMap s
    → ((i : String) → OrdMap.get i s ≡ OrdMap.get i m)
    → (i : String) → OrdMap.get i (delete_ranked (take n s) m) ≡ OrdMap.get i (drop n s)
get-delete_ranked zero s m h p i = sym (p i)
get-delete_ranked (suc n) [] m h p i = sym (p i)
get-delete_ranked (suc n) ((k, v) ∷ s) m h p i =
    get-delete_ranked n s (OrdMap.delete k m) h.1 (rest-get k v s m h.0 p) i

length-delete_ranked :
    (n : ℕ) (s m : Entries)
    → IsMap s
    → IsMap m
    → ((i : String) → OrdMap.get i s ≡ OrdMap.get i m)
    → n ≤ length s
    → length (delete_ranked (take n s) m) + n ≡ length m
length-delete_ranked zero s m h i p fits = omega arith
length-delete_ranked (suc n) [] m h i p fits = absurd (omega arith)
length-delete_ranked (suc n) ((k, v) ∷ s) m h i p fits = omega (
  arith,
  length-delete_ranked n s (OrdMap.delete k m) h.1 (OrdMap.delete-IsMap k m i)
      (rest-get k v s m h.0 p) (omega arith),
  OrdMap.length-delete k m {v = v} i (head-get k v s m p),
)

get-drop :
    (j : String) (n : ℕ) (s : Entries) {r : EvictionRecord}
    → IsMap s
    → OrdMap.get j (drop n s) ≡ some r
    → OrdMap.get j s ≡ some r
unfolding OrdMap.get
get-drop j zero s h q = q
get-drop j (suc n) [] h q = q
get-drop j (suc n) ((k, v) ∷ s) {r} h q = ground (arith, get-drop j n s {r = r} h.1 q, h.0)

dropped_before :
    (j i : String) (n : ℕ) (s : Entries) {v r : EvictionRecord}
    → Ranked s
    → OrdMap.get j s ≡ some v
    → OrdMap.get j (drop n s) ≡ none
    → OrdMap.get i (drop n s) ≡ some r
    → v.evicted_at ≤ r.evicted_at
unfolding OrdMap.get
dropped_before j i zero s h found gone kept = absurd (ground (arith, found, gone))
dropped_before j i (suc n) [] h found gone kept = absurd (ground (arith, found))
dropped_before j i (suc n) ((k, w) ∷ s) {v} {r} h found gone kept = elim (string_eq.dec k j) [
  | yes p ↦
      let first : w ≡ v = ground (arith, found, p) in
      subst (λ (x : EvictionRecord). x.evicted_at ≤ r.evicted_at) first
        (OrdMap.get-All (λ (x : EvictionRecord). w.evicted_at ≤ x.evicted_at) i (drop n s)
          (drop-All (λ (k, x). w.evicted_at ≤ x.evicted_at) n s h.0) kept)
  | no p ↦
      let later : OrdMap.get j s ≡ some v = ground (arith, found, p) in
      dropped_before j i n s {v = v} {r = r} h.1 later gone kept
]

fresh-IsMap : (l : Limits) (now : ℕ) (m : Entries) → IsMap m → IsMap (fresh_entries l now m)
fresh-IsMap l now m h =
    OrdMap.retain-IsMap (λ (key, r). not (is_stale (now - journal_ttl_ms l) r)) m h

get-prune_journal :
    (l : Limits) (now : ℕ) (m : Entries) (i : String)
    → IsMap m
    → OrdMap.get i (prune_journal l now m)
      ≡ OrdMap.get i (
          drop
            (length (fresh_entries l now m) - max_journal_entries l)
            (rank (fresh_entries l now m)))
unfolding prune_journal
get-prune_journal l now m i h =
    let fresh = fresh_entries l now m in
    let sound = fresh-IsMap l now m h in
    get-delete_ranked (length fresh - max_journal_entries l) (rank fresh) fresh
      (rank-IsMap fresh sound) (λ j. get-rank j fresh sound) i

-- Pruning leaves at most the maximal number of entries.
pub length-prune_journal :
    (l : Limits) (now : ℕ) (m : Entries)
    → IsMap m
    → length (prune_journal l now m) ≤ max_journal_entries l
unfolding prune_journal
length-prune_journal l now m h =
    let fresh = fresh_entries l now m in
    let sound = fresh-IsMap l now m h in
    omega (
      arith,
      length-delete_ranked (length fresh - max_journal_entries l) (rank fresh) fresh
          (rank-IsMap fresh sound) sound (λ j. get-rank j fresh sound)
          (omega (arith, length-rank fresh)),
    )

-- What pruning keeps was there as it is, and is not stale: it was evicted within the journal's time.
pub prune_journal-keeps :
    (l : Limits) (now : ℕ) (m : Entries) (i : String) {r : EvictionRecord}
    → IsMap m
    → OrdMap.get i (prune_journal l now m) ≡ some r
    → (OrdMap.get i m ≡ some r) × (now - journal_ttl_ms l ≤ r.evicted_at)
prune_journal-keeps l now m i {r} h kept =
    let fresh = fresh_entries l now m in
    let sound = fresh-IsMap l now m h in
    let excess = length fresh - max_journal_entries l in
    let ranked : OrdMap.get i (drop excess (rank fresh)) ≡ some r =
      sym (get-prune_journal l now m i h) ∙ kept in
    let held : OrdMap.get i fresh ≡ some r =
      sym (get-rank i fresh sound)
      ∙ get-drop i excess (rank fresh) {r = r} (rank-IsMap fresh sound) ranked in
    ground
      (arith, held, OrdMap.get-retain (λ (key, r). not (is_stale (now - journal_ttl_ms l) r)) i m h)

-- An entry that is not stale and that pruning still drops was evicted no later than any entry that
-- pruning keeps.
pub prune_journal-drops_oldest :
    (l : Limits) (now : ℕ) (m : Entries) (j i : String) {v r : EvictionRecord}
    → IsMap m
    → OrdMap.get j (fresh_entries l now m) ≡ some v
    → OrdMap.get j (prune_journal l now m) ≡ none
    → OrdMap.get i (prune_journal l now m) ≡ some r
    → v.evicted_at ≤ r.evicted_at
prune_journal-drops_oldest l now m j i {v} {r} h found gone kept =
    let fresh = fresh_entries l now m in
    let sound = fresh-IsMap l now m h in
    dropped_before j i (length fresh - max_journal_entries l) (rank fresh) {v = v} {r = r}
      (rank-Ranked fresh) (get-rank j fresh sound ∙ found)
      (sym (get-prune_journal l now m j h) ∙ gone) (sym (get-prune_journal l now m i h) ∙ kept)
